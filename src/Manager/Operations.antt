-- ===== src/Manager/Operations.antt =====
-- `ClusterManager`: each operation runs under the lock of the manager, so an operation is a step. What is
-- notified is the list of changes that the handlers of states get, and those that are removals go to the
-- handlers of removals too.
use dubbo_go_pixiu.Prelude.{
  ℕ, ◌+◌, ◌%◌, ◌^◌, Bool, true, false, not, ◌&&◌, Option, none, some, List, [], ◌∷◌, ◌++◌, map,
  keep, length, get_elem?, any, leb, if◌then◌else◌,
}
use dubbo_go_pixiu.Prelude.Text.{Text, text_eq}
use dubbo_go_pixiu.Prelude.Dict.{store, erase}
use dubbo_go_pixiu.Cluster.Endpoint.{LlmMeta, Endpoint, ClusterConfig, member}
use dubbo_go_pixiu.Cluster.Runtime.{RuntimeCluster}
use dubbo_go_pixiu.Manager.Changes.{
  EndpointStateChange, endpoint_address_snapshot, endpoint_state_changes,
}
use dubbo_go_pixiu.Manager.Store.{
  ClusterStore, Work, with_map, with_config, runtime_at, increase_version, stop_clusters,
  find_cluster_config, has_cluster, prepare_cluster_config, freeze_runtime,
  replace_cluster_runtime_with_snapshot, add_cluster, update_cluster,
}
use dubbo_go_pixiu.Manager.Endpoints.{set_endpoint, delete_endpoint}

pub record ClusterManager : Type 0 where
  pub work : Work
  pub xds_managed : List Text
  pub next_endpoint_event_id : ℕ
  pub notified : List EndpointStateChange

abbrev pub without : Text → List Text → List Text
without name = keep (λ n. not (text_eq name n))

-- `releaseXDSOwnership`.
unfoldable pub release_xds_ownership : Text → ClusterManager → ClusterManager
release_xds_ownership name m =
    if not (text_eq name []) then record m { xds_managed = without name m.xds_managed } else m

-- `nextEndpointEventIDLocked`.
unfoldable pub next_event : ClusterManager → ClusterManager
next_event m = record m { next_endpoint_event_id = (m.next_endpoint_event_id + 1) % 2 ^ 64 }

-- The end of an operation: the changes from the configurations `old` to `new` are notified.
abbrev pub notify : List ClusterConfig → List ClusterConfig → ClusterManager → ClusterManager
notify old new m = record m {
  notified =
      m.notified
      ++ endpoint_state_changes (endpoint_address_snapshot old) (endpoint_address_snapshot new)
          m.next_endpoint_event_id;
}

abbrev pub with_work : Work → ClusterManager → ClusterManager
with_work w m = record m { work = w }

-- The configurations of a name that `findClusterConfig` gives: at most one.
abbrev pub found_config : Text → Work → List ClusterConfig
found_config name w = elim (find_cluster_config name 0 w.store_of.config) [
  | none ↦ []
  | some (_, c) ↦ c ∷ []
]

abbrev pub config_at : ℕ → Work → List ClusterConfig
config_at i w = elim (get_elem? w.store_of.config i) [ none ↦ [] | some c ↦ c ∷ [] ]

-- The loops of `removeClustersLocked`, where no name of a configuration is given twice.
unfoldable pub remove_configs : List Text → List ClusterConfig → Work → Work × List ClusterConfig
remove_configs names [] w = (w, [])
remove_configs names (c ∷ cs) w =
    if member c.name names
    then remove_configs names cs (
        with_map
          (erase c.name (stop_clusters (runtime_at c.name w ∷ []) [] w).store_of.clusters_map)
          (stop_clusters (runtime_at c.name w ∷ []) [] w))
    else let (w', kept) = remove_configs names cs w in (w', c ∷ kept)

unfoldable pub remove_clusters_locked : List Text → Work → Work
remove_clusters_locked names w =
    let (w', kept) = remove_configs names w.store_of.config w in
    increase_version (with_config kept w')

-- The part of a store that xDS does not own.
abbrev pub is_static : List Text → ClusterConfig → Bool
is_static owned c = not (member c.name owned)

unfoldable pub static_runtimes :
    List ClusterConfig → Work → List (Text × RuntimeCluster) → List (Text × RuntimeCluster)
static_runtimes [] w m = m
static_runtimes (c ∷ cs) w m = elim (runtime_at c.name w) [
  | none ↦ static_runtimes cs w m
  | some r ↦ static_runtimes cs w (store c.name r m)
]

-- The validation of `ReplaceXDSClusters`: the names that xDS will own, `none` for an error.
unfoldable pub new_managed :
    List Text → List Text → List (Option ClusterConfig) → Option (List Text)
new_managed static_names managed [] = some managed
new_managed static_names managed (none ∷ cs) = none
new_managed static_names managed (some c ∷ cs) =
    if text_eq c.name []
    then none
    else if member c.name managed
    then none
    else if member c.name static_names
    then none
    else new_managed static_names (c.name ∷ managed) cs

abbrev pub names_of : List ClusterConfig → List Text
names_of = map (λ (c : ClusterConfig). c.name)

module _ (digest : Text → Text) where
  -- `AddCluster`. The configuration that is notified has the name and the endpoints that it got.
  unfoldable pub add_cluster_to : ClusterConfig → ClusterManager → ClusterManager
  add_cluster_to c m =
      let m1 = next_event (release_xds_ownership c.name m) in
      let before = m1.work.store_of.config in
      let w = add_cluster digest c (increase_version m1.work) in
      notify [] (config_at (length before) w) (with_work w m1)

  -- `UpdateCluster`.
  unfoldable pub update_cluster_in : ClusterConfig → ClusterManager → ClusterManager
  update_cluster_in new m =
      let m1 = next_event (release_xds_ownership new.name m) in
      let old = found_config new.name m1.work in
      notify old (map (λ _. new) old)
        (with_work (update_cluster digest new (increase_version m1.work)) m1)

  -- `UpsertXDSCluster`; the flag says that there is no error.
  unfoldable pub upsert_xds_cluster : Option ClusterConfig → ClusterManager → ClusterManager × Bool
  upsert_xds_cluster none m = (m, false)
  upsert_xds_cluster (some c) m =
      let owned = member c.name m.xds_managed in
      if text_eq c.name []
      then (m, false)
      else if has_cluster c.name m.work.store_of.config && not owned
      then (m, false)
      else if owned
      then (with_work (update_cluster digest c (increase_version m.work)) m, true)
      else (
        record m {
          work = add_cluster digest c (increase_version m.work);
          xds_managed = c.name ∷ m.xds_managed;
        },
        true,
      )

  -- The loop of `ReplaceXDSClusters` that fills the candidate. The first work is the one of the old store,
  -- whose runtimes are frozen as they are replaced.
  unfoldable pub fill_candidate :
      List (Option ClusterConfig) → Work → ClusterStore → Work × ClusterStore
  fill_candidate [] w candidate = (w, candidate)
  fill_candidate (none ∷ cs) w candidate = fill_candidate cs w candidate
  fill_candidate (some c ∷ cs) w candidate =
      let (frozen, previous) = freeze_runtime digest c.name w in
      let (prepared_in, prepared) =
        prepare_cluster_config digest c (record frozen { store_of = candidate }) in
      let (made, _) =
        replace_cluster_runtime_with_snapshot digest prepared.name prepared previous
          (with_config (prepared_in.store_of.config ++ prepared ∷ []) prepared_in) in
      fill_candidate cs (record frozen { supply = made.supply }) made.store_of

  -- The runtimes that `ReplaceXDSClusters` stops.
  abbrev pub owned_runtimes : List Text → Work → List (Option RuntimeCluster)
  owned_runtimes names w = map (λ name. runtime_at name w) names

  -- `ReplaceXDSClusters`; the flag says that there is no error.
  unfoldable pub replace_xds_clusters :
      List (Option ClusterConfig) → ClusterManager → ClusterManager × Bool
  replace_xds_clusters cs m =
      let old = m.work.store_of in
      let statics = keep (is_static m.xds_managed) old.config in
      elim (new_managed (names_of statics) [] cs) [
        | none ↦ (m, false)
        | some managed ↦
            let candidate : ClusterStore = record {
              config = statics;
              version = old.version;
              clusters_map = static_runtimes statics m.work [];
            } in
            let (w, filled) = fill_candidate cs m.work candidate in
            let replaced = owned_runtimes m.xds_managed w in
            let m1 = next_event m in
            let published = increase_version (record w { store_of = filled }) in
            (
              notify old.config filled.config
                  (record m1 { work = stop_clusters replaced [] published; xds_managed = managed }),
              true,
            )
      ]

  -- `DeleteEndpoint`; `none` is a nil dereference.
  unfoldable pub delete_endpoint_in : Text → Text → ClusterManager → Option ClusterManager
  delete_endpoint_in name id m =
      let m1 = next_event (release_xds_ownership name m) in
      let old = found_config name m1.work in
      elim (delete_endpoint digest name id (increase_version m1.work)) [
        | none ↦ none
        | some w ↦ some (notify old (found_config name w) (with_work w m1))
      ]

module _ (deep_equal : LlmMeta → LlmMeta → Bool) (digest : Text → Text) where
  -- `SetEndpoint`.
  unfoldable pub set_endpoint_in : Text → Option Endpoint → ClusterManager → ClusterManager
  set_endpoint_in name e m =
      let m1 = next_event (release_xds_ownership name m) in
      let old = found_config name m1.work in
      let w = set_endpoint deep_equal digest name e (increase_version m1.work) in
      notify old (found_config name w) (with_work w m1)

-- The loop of `RemoveCluster` over the names.
unfoldable pub release_all : List Text → ClusterManager → ClusterManager
release_all [] m = m
release_all (name ∷ names) m = release_all names (release_xds_ownership name m)

-- A configuration whose name is given twice: its place is nil when the second is compared, and its name is
-- read there.
unfoldable pub named_twice : List Text → List ClusterConfig → Bool
named_twice names = any (λ c. leb 2 (length (keep (text_eq c.name) names)))

-- `RemoveCluster`; `none` is a nil dereference.
unfoldable pub remove_cluster : List Text → ClusterManager → Option ClusterManager
remove_cluster names m =
    let m1 = release_all names (next_event m) in
    let w = remove_clusters_locked names m1.work in
    if named_twice names m.work.store_of.config
    then none
    else some (notify m.work.store_of.config w.store_of.config (with_work w m1))

-- The loop of `RemoveXDSClusters`: the names that are owned, and what is owned without them.
unfoldable pub take_owned : List Text → List Text → List Text × List Text
take_owned [] owned = ([], owned)
take_owned (name ∷ names) owned =
    if not (member name owned)
    then take_owned names owned
    else let (taken, rest) = take_owned names (without name owned) in (name ∷ taken, rest)

-- `RemoveXDSClusters`.
unfoldable pub remove_xds_clusters : List Text → ClusterManager → ClusterManager
remove_xds_clusters names m =
    let (taken, rest) = take_owned names m.xds_managed in
    let m1 = record (next_event m) { xds_managed = rest } in
    elim taken [
      | [] ↦ m1
      | t ∷ ts ↦
          let w = remove_clusters_locked (t ∷ ts) m1.work in
          notify m.work.store_of.config w.store_of.config (with_work w m1)
    ]
