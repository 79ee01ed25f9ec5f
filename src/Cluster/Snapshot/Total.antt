-- ===== src/Cluster/Snapshot/Total.antt =====
-- `newEndpointSnapshot` always makes a snapshot: the search for an ID ends.
use dubbo_go_pixiu.Prelude.{ℕ, ◌+◌, Bool, true, ◌≡◌, refl, Option, none, some, List, [], ◌∷◌}
use dubbo_go_pixiu.Prelude.Text.{Text}
use dubbo_go_pixiu.Prelude.Dict.{is_some}
use dubbo_go_pixiu.Cluster.Endpoint.{Endpoint, ClusterConfig}
use dubbo_go_pixiu.Cluster.UniqueId.{stable_unique_endpoint_id_fresh}
use dubbo_go_pixiu.Cluster.Snapshot.{EndpointSnapshot, add_endpoints, new_endpoint_snapshot}

add_endpoints-is_some :
    (digest : Text → Text) (name : Text) (previous : Option EndpointSnapshot) (inherit : Bool)
    (es : List (Option Endpoint)) (taken : List Text) (heap : ℕ) (s : EndpointSnapshot)
    → is_some (add_endpoints digest name previous inherit es taken heap s) ≡ true
unfolding add_endpoints
add_endpoints-is_some digest name previous inherit [] taken heap s = refl
add_endpoints-is_some digest name previous inherit (none ∷ es) taken heap s =
    add_endpoints-is_some digest name previous inherit es taken heap s
add_endpoints-is_some digest name previous inherit (some e ∷ es) taken heap s =
    let (id, found, _) = stable_unique_endpoint_id_fresh digest name e taken in
    rw (found, add_endpoints)
      (add_endpoints-is_some digest name previous inherit es (id ∷ taken) (heap + 1) _)

pub new_endpoint_snapshot-is_some :
    (digest : Text → Text) (heap : ℕ) (config : ClusterConfig) (previous : Option EndpointSnapshot)
    (inherit : Bool)
    → is_some (new_endpoint_snapshot digest heap config previous inherit) ≡ true
unfolding new_endpoint_snapshot
new_endpoint_snapshot-is_some digest heap config previous inherit =
    add_endpoints-is_some digest config.name previous inherit config.endpoints [] heap _
