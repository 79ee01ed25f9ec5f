-- ===== src/Cluster/Runtime/Tests.antt =====
-- The theorems on snapshots and runtimes at concrete inputs.
use mathlib.Core.List.{Memᴰ}
use dubbo_go_pixiu.Prelude.{
  ℕ, suc, Bool, true, false, ◌≡◌, refl, Option, none, some, List, [], ◌∷◌, map, keep, length,
  get_elem?,
}
use dubbo_go_pixiu.Prelude.Text.{Text, text_eq, codes}
use dubbo_go_pixiu.Prelude.Int.{pos}
use dubbo_go_pixiu.Prelude.Decimal.{itoa}
use dubbo_go_pixiu.Cluster.Address.{get_address}
use dubbo_go_pixiu.Cluster.Endpoint.{
  Ref, Endpoint, ClusterConfig, unique_from, candidate_id, stable_unique_endpoint_id,
}
use dubbo_go_pixiu.Cluster.Snapshot.{
  EndpointSnapshot, new_endpoint_snapshot_index, index_endpoint, add_endpoint,
  endpoint_snapshot_health, add_endpoints, new_endpoint_snapshot, health_in, endpoints_behind,
  healthy_endpoint_by_id_for_pick,
}
use dubbo_go_pixiu.Cluster.Snapshot.Index.{is_healthy}
use dubbo_go_pixiu.Cluster.Snapshot.Inherited.{new_endpoint_snapshot_inherits}
use dubbo_go_pixiu.Cluster.Snapshot.Updates.{value_of}
use dubbo_go_pixiu.Cluster.Snapshot.Marks.{view}
use dubbo_go_pixiu.Cluster.Snapshot.Next.{tour, tour_eq}
use dubbo_go_pixiu.Cluster.Runtime.{
  RuntimeCluster, snapshot_of, refresh_endpoints_from, new_cluster_with_endpoint_snapshot,
}
use dubbo_go_pixiu.Cluster.Runtime.Invariant.{
  health_at, frozen, apply, IsRunning, snapshot_of-IsIndexed, created, step, Reach-IsRunning,
}
use dubbo_go_pixiu.Cluster.Runtime.Refinement.{
  Board, Report, on_address, on_endpoint, freeze, take_reports, post_reports, Shows,
  take_reports-Shows, running-Shows,
}
use dubbo_go_pixiu.Cluster.Runtime.Picks.{
  pick_context, pick_one_endpoint, get_any_endpoint_by_id, get_healthy_endpoint_by_id,
  pick_one_endpoint_healthy, get_endpoint_by_id_found,
}
use dubbo_go_pixiu.Balancer.Recheck.{
  PickContext, check_candidate, healthy_endpoint_from_snapshot, pick_endpoint,
}

abbrev endpoint : Text → Text → Bool → Endpoint
endpoint id host un_healthy = record {
  id = id;
  name = [];
  address = record { address = host; port = 80; resolver_name = []; domains = []; certs_dir = [] };
  metadata = [];
  un_healthy = un_healthy;
  llm_meta = none;
}

abbrev config : Bool → Bool → ClusterConfig
config checks down = record {
  name = codes "c";
  lb_str = codes "Rand";
  consistent_hash = record {
    replica_num = pos 0;
    max_vnode_num = pos 0;
    maglev_table_size = pos 0;
  };
  endpoints =
      some (endpoint (codes "a") (codes "h") down)
      ∷ none
      ∷ some (endpoint (codes "b") (codes "h") false)
      ∷ some (endpoint (codes "a") (codes "k") true)
      ∷ some (endpoint (codes "d") (codes "k") false)
      ∷ [];
  has_health_checks = checks;
  config_id = 7;
}

abbrev same_text : Text → Text
same_text m = m

abbrev snapshot : Bool → EndpointSnapshot
snapshot down = snapshot_of same_text 10 (config true down) none true

abbrev cluster : RuntimeCluster
cluster = new_cluster_with_endpoint_snapshot same_text 10 3 (config true false) none

cluster-IsRunning : IsRunning cluster
unfolding new_cluster_with_endpoint_snapshot refresh_endpoints_from
cluster-IsRunning =
    (snapshot false, refl, snapshot_of-IsIndexed same_text 10 (config true false) none true)

names :
    map (λ (e : Endpoint). e.id) (view (snapshot false))
    ≡ codes "a" ∷ codes "b" ∷ codes "a-2" ∷ codes "d" ∷ []
unfolding snapshot_of new_endpoint_snapshot add_endpoints add_endpoint index_endpoint
    new_endpoint_snapshot_index stable_unique_endpoint_id unique_from candidate_id itoa text_eq
names = refl

tour_eq_example :
    tour (suc (length (snapshot false).all)) (codes "a") (snapshot false)
    ≡ map value_of (keep is_healthy (endpoints_behind (codes "a") (snapshot false).all))
tour_eq_example =
    tour_eq (snapshot false) (codes "a")
      (snapshot_of-IsIndexed same_text 10 (config true false) none true)

Reach-IsRunning_example :
    IsRunning (apply same_text frozen (apply same_text (health_at 20 (codes "h:80") false) cluster))
Reach-IsRunning_example =
    Reach-IsRunning same_text
      (apply same_text frozen (apply same_text (health_at 20 (codes "h:80") false) cluster))
      (step frozen (apply same_text (health_at 20 (codes "h:80") false) cluster)
        (step (health_at 20 (codes "h:80") false) cluster (created 10 3 (config true false) none)))

abbrev reports : List (ℕ × Report)
reports =
    (20, on_address (codes "h:80") false)
    ∷ (30, on_endpoint (codes "b") (codes "h:80") true)
    ∷ (40, on_endpoint (codes "b") (codes "k:80") true)
    ∷ (50, freeze)
    ∷ (60, on_address (codes "k:80") false)
    ∷ []

abbrev board : Board
board = record { endpoints = view cluster-IsRunning.0; accepting = cluster.accept_health_events }

take_reports-Shows_example :
    Shows (take_reports reports cluster).0 (post_reports reports board).0
    × ((take_reports reports cluster).1 ≡ (post_reports reports board).1)
take_reports-Shows_example =
    take_reports-Shows reports cluster board (running-Shows cluster cluster-IsRunning)

abbrev first_healthy : PickContext → Option Ref
first_healthy context = get_elem? context.healthy_endpoints 0

pick_one_endpoint_healthy_example :
    (s : EndpointSnapshot) × (cluster.endpoints ≡ some s)
    × Memᴰ (endpoint (codes "a") (codes "h") false) (view s)
    × (false ≡ false)
unfolding pick_one_endpoint pick_context pick_endpoint healthy_endpoint_from_snapshot
    check_candidate new_cluster_with_endpoint_snapshot refresh_endpoints_from snapshot_of
    new_endpoint_snapshot add_endpoints add_endpoint index_endpoint new_endpoint_snapshot_index
    stable_unique_endpoint_id unique_from candidate_id endpoint_snapshot_health
    healthy_endpoint_by_id_for_pick text_eq
pick_one_endpoint_healthy_example =
    pick_one_endpoint_healthy same_text (λ r. r) true false first_healthy cluster
      (endpoint (codes "a") (codes "h") false) (created 10 3 (config true false) none) refl

abbrev third : Ref
third = record { at = 12; value = endpoint (codes "a-2") (codes "k") true }

get_endpoint_by_id_found_example :
    (get_any_endpoint_by_id (codes "a-2") cluster ≡ some third.value)
    × (get_healthy_endpoint_by_id (codes "a-2") cluster ≡ none)
unfolding new_cluster_with_endpoint_snapshot refresh_endpoints_from snapshot_of
    new_endpoint_snapshot add_endpoints add_endpoint index_endpoint new_endpoint_snapshot_index
    stable_unique_endpoint_id unique_from candidate_id itoa endpoint_snapshot_health text_eq
get_endpoint_by_id_found_example =
    get_endpoint_by_id_found same_text cluster (snapshot false) third
      (created 10 3 (config true false) none) refl (Memᴰ.tail (Memᴰ.tail (Memᴰ.head refl)))

-- The endpoint is down in the snapshot before and up in the configuration.
new_endpoint_snapshot_inherits_example :
    is_healthy (record { at = 20; value = endpoint (codes "a") (codes "h") true })
    ≡ health_in (codes "a") (snapshot true).healthy_by_id
unfolding snapshot_of new_endpoint_snapshot add_endpoints add_endpoint index_endpoint
    new_endpoint_snapshot_index stable_unique_endpoint_id unique_from candidate_id text_eq
    endpoint_snapshot_health get_address itoa
new_endpoint_snapshot_inherits_example =
    new_endpoint_snapshot_inherits same_text 20 (config true false) (snapshot true)
      (snapshot_of same_text 20 (config true false) (some (snapshot true)) true)
      (record { at = 20; value = endpoint (codes "a") (codes "h") true }) refl (Memᴰ.head refl) refl
