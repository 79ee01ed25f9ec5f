-- ===== src/Cluster/Runtime.antt =====
-- `Cluster` of pkg/cluster/cluster.go: the runtime of a cluster, with its own copy of the configuration,
-- the snapshot that it has published, its cursor and the sessions of its health checks.
-- A pointer to a runtime is its place `at`. `heap` is the next free place for the clones of endpoints. The
-- configuration is not nil: `RefreshEndpointsFrom` reads it. Updates of health run under a lock, and no
-- operation here runs beside another, so each compare-and-swap succeeds at once.
pub mod Invariant
pub mod Refinement
pub mod Picks
mod Tests
use dubbo_go_pixiu.Prelude.{
  ℕ, suc, ◌+◌, Bool, true, false, not, ◌≡◌, Option, none, some, List, [], ◌∷◌, ◌==◌, sym, ◌∙◌, ap,
  if◌then◌else◌,
}
use dubbo_go_pixiu.Prelude.Text.{Text}
use dubbo_go_pixiu.Prelude.Dict.{is_some, from_some}
use dubbo_go_pixiu.Cluster.Endpoint.{Ref, Endpoint, ClusterConfig}
use dubbo_go_pixiu.Cluster.Snapshot.{
  EndpointSnapshot, new_endpoint_snapshot, with_endpoint_health, with_endpoint_address_health,
}
use dubbo_go_pixiu.Cluster.Snapshot.Total.{new_endpoint_snapshot-is_some}
use dubbo_go_pixiu.Health.Sessions.{start, stop, start_check, stop_check}
use dubbo_go_pixiu.Health.Effects.{EndpointHealthEvent}

pub record RuntimeCluster : Type 0 where
  pub at : ℕ
  pub config : ClusterConfig
  pub config_id : ℕ
  pub round_robin_cursor : ℕ
  pub accept_health_events : Bool
  pub endpoints : Option EndpointSnapshot
  pub health_check : Option (List Text)

-- The snapshot that `newEndpointSnapshot` makes.
unfoldable pub snapshot_of :
    (Text → Text) → ℕ → ClusterConfig → Option EndpointSnapshot → Bool → EndpointSnapshot
snapshot_of digest heap config previous inherit =
    from_some (new_endpoint_snapshot digest heap config previous inherit)
      (new_endpoint_snapshot-is_some digest heap config previous inherit)

abbrev pub or_else {ℓ} : {A : Type ℓ} → Option A → Option A → Option A
or_else none b = b
or_else (some a) b = some a

-- `RefreshEndpointsFrom`: a current snapshot goes before the one that is given.
unfoldable pub refresh_endpoints_from :
    (Text → Text) → ℕ → Option EndpointSnapshot → RuntimeCluster → RuntimeCluster
refresh_endpoints_from digest heap previous c = record c {
  endpoints =
      some (
        snapshot_of digest heap c.config (or_else c.endpoints previous) c.config.has_health_checks);
}

-- `RefreshEndpoints`.
unfoldable pub refresh_endpoints : (Text → Text) → ℕ → RuntimeCluster → RuntimeCluster
refresh_endpoints digest heap c = refresh_endpoints_from digest heap c.endpoints c

-- The endpoints of the runtime's configuration for its health checks. They are clones, so none of them is
-- at the place of an endpoint of the store.
abbrev pub clones : List (Option Endpoint) → List (Option Ref)
clones [] = []
clones (none ∷ es) = none ∷ clones es
clones (some e ∷ es) = some (record { at = 0; value = e }) ∷ clones es

abbrev pub of_store : Endpoint → Ref
of_store e = record { at = 1; value = e }

-- `NewClusterWithEndpointSnapshot`.
unfoldable pub new_cluster_with_endpoint_snapshot :
    (Text → Text) → ℕ → ℕ → ClusterConfig → Option EndpointSnapshot → RuntimeCluster
new_cluster_with_endpoint_snapshot digest heap at config previous =
    refresh_endpoints_from digest heap previous (record {
      at = at;
      config = config;
      config_id = config.config_id;
      round_robin_cursor = 0;
      accept_health_events = true;
      endpoints = none;
      health_check =
          if config.has_health_checks then some (start (clones config.endpoints) []) else none;
    })

-- `Stop`.
unfoldable pub stop_cluster : RuntimeCluster → RuntimeCluster
stop_cluster c = record c {
  health_check = elim c.health_check [ none ↦ none | some sessions ↦ some (stop sessions) ];
}

-- `RemoveEndpoint` and `AddEndpoint`, of an endpoint of the store.
unfoldable pub remove_endpoint : Endpoint → RuntimeCluster → RuntimeCluster
remove_endpoint e c = record c {
  health_check = elim c.health_check [
    | none ↦ none
    | some sessions ↦ some (stop_check (clones c.config.endpoints) (some (of_store e)) sessions)
  ];
}

unfoldable pub add_endpoint_check : Endpoint → RuntimeCluster → RuntimeCluster
add_endpoint_check e c = record c {
  health_check = elim c.health_check [
    | none ↦ none
    | some sessions ↦ some (start_check (some (of_store e)) sessions)
  ];
}

-- What an update of health leaves and answers, with what `withEndpointHealth...` gives on the current snapshot.
abbrev pub publish : Option EndpointSnapshot → RuntimeCluster → RuntimeCluster × Bool
publish none c = (c, false)
publish (some next) c = (record c { endpoints = some next }, true)

-- The body that the two updates share: the first argument is `acceptHealthEvents`, the second the
-- current snapshot.
abbrev pub update_health :
    Bool
    → Option EndpointSnapshot
    → (EndpointSnapshot → Option EndpointSnapshot)
    → RuntimeCluster
    → RuntimeCluster × Bool
update_health false current attempt c = (c, false)
update_health true none attempt c = (c, false)
update_health true (some current) attempt c = publish (attempt current) c

-- `UpdateEndpointHealth`.
unfoldable pub update_endpoint_health :
    ℕ → Text → Text → Bool → RuntimeCluster → RuntimeCluster × Bool
update_endpoint_health heap id address healthy c =
    update_health c.accept_health_events c.endpoints (with_endpoint_health id address healthy heap)
      c

-- `UpdateEndpointAddressHealth`.
unfoldable pub update_endpoint_address_health :
    ℕ → Text → Bool → RuntimeCluster → RuntimeCluster × Bool
update_endpoint_address_health heap address healthy c =
    update_health c.accept_health_events c.endpoints
      (with_endpoint_address_health address healthy heap) c

-- `handleEndpointHealth`.
unfoldable pub handle_endpoint_health : ℕ → EndpointHealthEvent → RuntimeCluster → RuntimeCluster
handle_endpoint_health heap event c =
    (update_endpoint_address_health heap event.endpoint_address event.healthy c).0

-- `SnapshotForRuntimeReplacement`.
unfoldable pub snapshot_for_runtime_replacement :
    RuntimeCluster → RuntimeCluster × Option EndpointSnapshot
snapshot_for_runtime_replacement c = (record c { accept_health_events = false }, c.endpoints)

-- `SyncConfigEndpoints`.
unfoldable pub sync_config_endpoints : List (Option Endpoint) → RuntimeCluster → RuntimeCluster
sync_config_endpoints es c = record c { config = record c.config { endpoints = es } }

-- `ConfigIsIdenticalTo`, of a runtime and a configuration that are not nil.
unfoldable pub config_is_identical_to : ClusterConfig → RuntimeCluster → Bool
config_is_identical_to config c = c.config_id == config.config_id

-- `CarryOverCursorTo`, of the first runtime to the second.
unfoldable pub carry_over_cursor_to : RuntimeCluster → RuntimeCluster → RuntimeCluster
carry_over_cursor_to c target = record target { round_robin_cursor = c.round_robin_cursor }
