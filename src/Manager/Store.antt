-- ===== src/Manager/Store.antt =====
-- `ClusterStore`: the configurations and their runtimes, by name. The entries of a store and the
-- endpoints' slices are values: the store owns them. A configuration in the store is not nil, as
-- `HasCluster` reads the name of each.
use dubbo_go_pixiu.Prelude.{
  ℕ, zero, suc, ◌+◌, ◌%◌, ◌^◌, Bool, true, false, not, Option, none, some, List, [], ◌∷◌, ◌++◌,
  length, any, ◌==◌, if◌then◌else◌,
}
use dubbo_go_pixiu.Prelude.Text.{Text, text_eq, codes}
use dubbo_go_pixiu.Prelude.Dict.{lookup, store}
use dubbo_go_pixiu.Prelude.Decimal.{itoa}
use dubbo_go_pixiu.Cluster.Endpoint.{Endpoint, ClusterConfig}
use dubbo_go_pixiu.Cluster.Snapshot.{EndpointSnapshot}
use dubbo_go_pixiu.Cluster.Runtime.{
  RuntimeCluster, refresh_endpoints, new_cluster_with_endpoint_snapshot, stop_cluster,
  snapshot_for_runtime_replacement, sync_config_endpoints, config_is_identical_to,
  carry_over_cursor_to,
}
use dubbo_go_pixiu.Manager.Assemble.{assemble}

-- `Version` is an int32, taken modulo 2 ^ 32.
pub record ClusterStore : Type 0 where
  pub config : List ClusterConfig
  pub version : ℕ
  pub clusters_map : List (Text × RuntimeCluster)

-- The counters of the package, `clusterIndex` and `configIDSeq`, and the next free places for runtimes and
-- for clones of endpoints.
pub record Supply : Type 0 where
  pub cluster_index : ℕ
  pub config_id_seq : ℕ
  pub place : ℕ
  pub heap : ℕ

-- A store with the counters and with the runtimes that have been stopped.
pub record Work : Type 0 where
  pub store_of : ClusterStore
  pub supply : Supply
  pub stopped : List RuntimeCluster

abbrev pub with_map : List (Text × RuntimeCluster) → Work → Work
with_map m w = record w { store_of = record w.store_of { clusters_map = m } }

abbrev pub with_config : List ClusterConfig → Work → Work
with_config cs w = record w { store_of = record w.store_of { config = cs } }

abbrev pub runtime_at : Text → Work → Option RuntimeCluster
runtime_at name w = lookup name w.store_of.clusters_map

-- `IncreaseVersion`.
unfoldable pub increase_version : Work → Work
increase_version w = record w {
  store_of = record w.store_of { version = (w.store_of.version + 1) % 2 ^ 32 };
}

-- The loop of `stopClusters`; `seen` is the set of places.
unfoldable pub stop_clusters : List (Option RuntimeCluster) → List ℕ → Work → Work
stop_clusters [] seen w = w
stop_clusters (none ∷ rs) seen w = stop_clusters rs seen w
stop_clusters (some r ∷ rs) seen w =
    if any (λ n. n == r.at) seen
    then stop_clusters rs seen w
    else stop_clusters rs (r.at ∷ seen) (record w { stopped = w.stopped ++ stop_cluster r ∷ [] })

-- The first configuration of a name, with its index from `i` on: `findClusterConfig`.
unfoldable pub find_cluster_config : Text → ℕ → List ClusterConfig → Option (ℕ × ClusterConfig)
find_cluster_config name i [] = none
find_cluster_config name i (c ∷ cs) =
    if text_eq c.name name then some (i, c) else find_cluster_config name (i + 1) cs

-- `HasCluster`.
unfoldable pub has_cluster : Text → List ClusterConfig → Bool
has_cluster name [] = false
has_cluster name (c ∷ cs) = if text_eq c.name name then true else has_cluster name cs

-- `config[i] = c`.
unfoldable pub set_config : ℕ → ClusterConfig → List ClusterConfig → List ClusterConfig
set_config i c [] = []
set_config zero c (_ ∷ cs) = c ∷ cs
set_config (suc i) c (d ∷ cs) = d ∷ set_config i c cs

module _ (digest : Text → Text) where
  -- `prepareOwnedClusterConfig`, but for the consistent hash of the configuration. `prepareClusterConfig`
  -- does the same on a copy of the endpoints.
  unfoldable pub prepare_cluster_config : ClusterConfig → Work → Work × ClusterConfig
  prepare_cluster_config c w =
      let id = (w.supply.config_id_seq + 1) % 2 ^ 64 in
      let es = assemble digest c.name 0 [] c.endpoints in
      if c.config_id == 0
      then (
        record w { supply = record w.supply { config_id_seq = id } },
        record c { config_id = id; endpoints = es },
      )
      else (w, record c { endpoints = es })

  -- `replaceClusterRuntimeWithSnapshot`.
  unfoldable pub replace_cluster_runtime_with_snapshot :
      Text → ClusterConfig → Option EndpointSnapshot → Work → Work × Option RuntimeCluster
  replace_cluster_runtime_with_snapshot name config previous w =
      let made =
        new_cluster_with_endpoint_snapshot digest w.supply.heap w.supply.place config previous in
      (
        record w {
          store_of = record w.store_of { clusters_map = store name made w.store_of.clusters_map };
          supply = record w.supply {
            place = w.supply.place + 1;
            heap = w.supply.heap + length config.endpoints;
          };
        },
        runtime_at name w,
      )

  -- `snapshotForRuntimeReplacement` of a store, whose runtime takes no more reports.
  unfoldable pub freeze_runtime : Text → Work → Work × Option EndpointSnapshot
  freeze_runtime name w = elim (runtime_at name w) [
    | none ↦ (w, none)
    | some r ↦
        let (frozen, s) = snapshot_for_runtime_replacement r in
        (with_map (store name frozen w.store_of.clusters_map) w, s)
  ]

  -- `replaceClusterRuntime`.
  unfoldable pub replace_cluster_runtime :
      Text → ClusterConfig → Work → Work × Option RuntimeCluster
  replace_cluster_runtime name config w =
      let (frozen, previous) = freeze_runtime name w in
      replace_cluster_runtime_with_snapshot name config previous frozen

  -- `stopClusters([]*cluster.Cluster{s.replaceClusterRuntime(name, config)})`.
  abbrev pub replace_and_stop : Text → ClusterConfig → Work → Work
  replace_and_stop name config w =
      let (w', old) = replace_cluster_runtime name config w in stop_clusters (old ∷ []) [] w'

  -- `AddCluster` behind the choice of a name.
  abbrev pub add_named : ClusterConfig → Work → Work
  add_named c w =
      let (w', prepared) = prepare_cluster_config c w in
      replace_and_stop prepared.name prepared (with_config (w'.store_of.config ++ prepared ∷ []) w')

  -- `AddCluster`. Fewer than 2 ^ 31 clusters are added without a name.
  unfoldable pub add_cluster : ClusterConfig → Work → Work
  add_cluster c w =
      let index = w.supply.cluster_index in
      if text_eq c.name []
      then add_named (record c { name = codes "cluster-" ++ itoa index })
          (record w { supply = record w.supply { cluster_index = index + 1 } })
      else add_named c w

  abbrev pub carry_cursor : Text → Option RuntimeCluster → Work → Work
  carry_cursor name none w = w
  carry_cursor name (some old) w = elim (runtime_at name w) [
    | none ↦ w
    | some r ↦ with_map (store name (carry_over_cursor_to old r) w.store_of.clusters_map) w
  ]

  -- `UpdateCluster`.
  unfoldable pub update_cluster : ClusterConfig → Work → Work
  update_cluster new w = elim (find_cluster_config new.name 0 w.store_of.config) [
    | none ↦ w
    | some (i, _) ↦
        let (w1, prepared) = prepare_cluster_config new w in
        let old = runtime_at prepared.name w1 in
        let w2 = with_config (set_config i prepared w1.store_of.config) w1 in
        let (w3, replaced) = replace_cluster_runtime prepared.name prepared w2 in
        stop_clusters (replaced ∷ []) [] (carry_cursor prepared.name old w3)
  ]

  -- The check that the runtime is the one of the configuration, before an endpoint is set or deleted.
  abbrev pub current_runtime : Text → ClusterConfig → Work → Work
  current_runtime name config w = elim (runtime_at name w) [
    | none ↦ replace_and_stop name config w
    | some r ↦ if not (config_is_identical_to config r) then replace_and_stop name config w else w
  ]

  -- `SyncConfigEndpoints` and `RefreshEndpoints`, and what is done to the health checks before and after.
  abbrev pub refresh_runtime :
      Text
      → List (Option Endpoint)
      → (RuntimeCluster → RuntimeCluster)
      → (RuntimeCluster → RuntimeCluster)
      → Work
      → Work
  refresh_runtime name es before after w = elim (runtime_at name w) [
    | none ↦ w
    | some r ↦ record w {
      store_of = record w.store_of {
        clusters_map =
            store name
              (after (refresh_endpoints digest w.supply.heap (sync_config_endpoints es (before r))))
              w.store_of.clusters_map;
      };
      supply = record w.supply { heap = w.supply.heap + length es };
    }
  ]
