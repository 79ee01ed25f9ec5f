-- ===== src/Manager/Endpoints.antt =====
-- `SetEndpoint` and `DeleteEndpoint` of a store. The returned address is left out: the manager does not
-- read it.
use dubbo_go_pixiu.Prelude.{
  ℕ, zero, suc, ◌+◌, Bool, false, not, Option, none, some, List, [], ◌∷◌, ◌++◌, length, get_elem?,
  if◌then◌else◌,
}
use dubbo_go_pixiu.Prelude.Text.{Text, text_eq, codes}
use dubbo_go_pixiu.Prelude.Int.{pos}
use dubbo_go_pixiu.Cluster.Address.{get_address}
use dubbo_go_pixiu.Cluster.Endpoint.{LlmMeta, Endpoint, ClusterConfig}
use dubbo_go_pixiu.Cluster.Runtime.{RuntimeCluster, remove_endpoint, add_endpoint_check}
use dubbo_go_pixiu.Manager.Slot.{
  idempotent, replace_slot, append_slot, resolve_set_endpoint_slot, set_at,
}
use dubbo_go_pixiu.Manager.Store.{
  Work, with_config, find_cluster_config, set_config, prepare_cluster_config, add_cluster,
  current_runtime, refresh_runtime,
}

-- The configuration that `SetEndpoint` makes for a name.
abbrev pub new_config : Text → ClusterConfig
new_config name = record {
  name = name;
  lb_str = codes "RoundRobin";
  consistent_hash = record {
    replica_num = pos 0;
    max_vnode_num = pos 0;
    maglev_table_size = pos 0;
  };
  endpoints = [];
  has_health_checks = false;
  config_id = 0;
}

abbrev pub numbered : ℕ → Option ClusterConfig → Option (ℕ × ClusterConfig)
numbered i none = none
numbered i (some c) = some (i, c)

abbrev pub changed_address : Option (Option Endpoint) → Endpoint → Option Endpoint
changed_address (some (some old)) e =
    if not (text_eq (get_address old.address) (get_address e.address)) then some old else none
changed_address (some none) e = none
changed_address none e = none

abbrev pub stop_old : Option Endpoint → RuntimeCluster → RuntimeCluster
stop_old none r = r
stop_old (some old) r = remove_endpoint old r

abbrev pub start_new : Option Endpoint → Endpoint → RuntimeCluster → RuntimeCluster
start_new none e r = r
start_new (some _) e r = add_endpoint_check e r

-- What the loop of `DeleteEndpoint` finds: a nil entry before the endpoint is dereferenced.
pub data Deletion : Type 0 where
  nil_entry : Deletion
  no_entry : Deletion
  entry_at : ℕ → Endpoint → Deletion

unfoldable pub find_deleted : Text → ℕ → List (Option Endpoint) → Deletion
find_deleted id i [] = no_entry
find_deleted id i (none ∷ es) = nil_entry
find_deleted id i (some e ∷ es) =
    if text_eq e.id id then entry_at i e else find_deleted id (i + 1) es

-- `slices.Delete(es, i, i+1)`.
unfoldable pub delete_at : ℕ → List (Option Endpoint) → List (Option Endpoint)
delete_at i [] = []
delete_at zero (_ ∷ es) = es
delete_at (suc i) (e ∷ es) = e ∷ delete_at i es

module _ (digest : Text → Text) where
  -- The configuration of the name, which is added if it is not there, with its index.
  unfoldable pub ensure_config : Text → Work → Work × Option (ℕ × ClusterConfig)
  ensure_config name w = elim (find_cluster_config name 0 w.store_of.config) [
    | some found ↦ (w, some found)
    | none ↦
        let w' = add_cluster digest (new_config name) w in
        let i = length w.store_of.config in (w', numbered i (get_elem? w'.store_of.config i))
  ]

  -- The endpoints of a configuration are replaced, and its runtime follows.
  abbrev pub publish_endpoints :
      Text
      → ℕ
      → ClusterConfig
      → List (Option Endpoint)
      → (RuntimeCluster → RuntimeCluster)
      → (RuntimeCluster → RuntimeCluster)
      → Work
      → Work
  publish_endpoints name i c es before after w =
      let (w', prepared) = prepare_cluster_config digest (record c { endpoints = es }) w in
      refresh_runtime digest name prepared.endpoints before after
        (with_config (set_config i prepared w'.store_of.config) w')

  -- `replaceEndpointAt`, for the configuration at index `i`.
  unfoldable pub replace_endpoint_at : Text → ℕ → ClusterConfig → ℕ → Endpoint → Work → Work
  replace_endpoint_at name i c k e w =
      let changed = changed_address (get_elem? c.endpoints k) e in
      publish_endpoints name i c (set_at k e c.endpoints) (stop_old changed) (start_new changed e) w

  -- `DeleteEndpoint`; `none` is a nil dereference.
  unfoldable pub delete_endpoint : Text → Text → Work → Option Work
  delete_endpoint name id w = elim (find_cluster_config name 0 w.store_of.config) [
    | none ↦ some w
    | some (i, c) ↦ elim (find_deleted id 0 c.endpoints) [
      | nil_entry ↦ none
      | no_entry ↦ some (current_runtime digest name c w)
      | entry_at k e ↦ some (
          publish_endpoints name i c (delete_at k c.endpoints) (remove_endpoint e) (λ r. r)
            (current_runtime digest name c w))
    ]
  ]

module _ (deep_equal : LlmMeta → LlmMeta → Bool) (digest : Text → Text) where
  -- `SetEndpoint` behind the search for the configuration.
  unfoldable pub set_in_cluster : Text → Endpoint → ℕ → ClusterConfig → Work → Work
  set_in_cluster name incoming i c w =
      let ready = current_runtime digest name c w in
      let outcome = resolve_set_endpoint_slot deep_equal digest name incoming c.endpoints in
      let e = record incoming { id = outcome.target_id } in
      elim outcome.action [
        | idempotent ↦ ready
        | replace_slot k ↦ replace_endpoint_at digest name i c k e ready
        | append_slot ↦
            publish_endpoints digest name i c (c.endpoints ++ some e ∷ []) (λ r. r)
              (add_endpoint_check e) ready
      ]

  -- `SetEndpoint`.
  unfoldable pub set_endpoint : Text → Option Endpoint → Work → Work
  set_endpoint name none w = w
  set_endpoint name (some e) w =
      let (w', found) = ensure_config digest name w in
      elim found [ none ↦ w' | some (i, c) ↦ set_in_cluster name e i c w' ]
