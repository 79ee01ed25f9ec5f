-- ===== src/Manager/Swap.antt =====
-- `CompareAndSetStore`: a store that was authored outside takes the place of the current one. Its runtimes
-- are repaired from those of the current store.
use dubbo_go_pixiu.Prelude.{
  Bool, true, false, not, Option, none, some, List, [], ◌∷◌, ◌++◌, keep, any, ◌==◌, if◌then◌else◌,
}
use dubbo_go_pixiu.Prelude.Text.{Text, text_eq}
use dubbo_go_pixiu.Prelude.Dict.{lookup, store}
use dubbo_go_pixiu.Cluster.Endpoint.{ClusterConfig, member}
use dubbo_go_pixiu.Cluster.Snapshot.{EndpointSnapshot}
use dubbo_go_pixiu.Cluster.Runtime.{RuntimeCluster, config_is_identical_to, carry_over_cursor_to}
use dubbo_go_pixiu.Manager.Store.{
  ClusterStore, Work, with_map, with_config, runtime_at, stop_clusters, prepare_cluster_config,
  freeze_runtime, replace_cluster_runtime, replace_cluster_runtime_with_snapshot,
}
use dubbo_go_pixiu.Manager.Operations.{ClusterManager, next_event, notify, names_of}

-- The runtimes whose names are not among the given: what `removeRuntimeClustersNotIn` returns and keeps.
unfoldable pub dropped_runtimes :
    List Text → List (Text × RuntimeCluster) → List (Option RuntimeCluster)
dropped_runtimes names [] = []
dropped_runtimes names ((n, r) ∷ m) =
    if member n names then dropped_runtimes names m else some r ∷ dropped_runtimes names m

unfoldable pub kept_runtimes :
    List Text → List (Text × RuntimeCluster) → List (Text × RuntimeCluster)
kept_runtimes names [] = []
kept_runtimes names ((n, r) ∷ m) =
    if member n names then (n, r) ∷ kept_runtimes names m else kept_runtimes names m

-- `runtimeClustersNotIn`, of the runtimes of the old store.
unfoldable pub runtime_clusters_not_in :
    List (Text × RuntimeCluster) → List (Text × RuntimeCluster) → List (Option RuntimeCluster)
runtime_clusters_not_in [] next = []
runtime_clusters_not_in ((n, r) ∷ old) next =
    let rest = runtime_clusters_not_in old next in
    if any (λ x. x.1.at == r.at) next then rest else some r ∷ rest

-- What a loop over the configurations leaves: the work with the repaired runtimes, the store whose runtimes
-- are inherited from, the prepared configurations, and the runtimes that were replaced.
pub record Repair : Type 0 where
  pub work : Work
  pub old : ClusterStore
  pub prepared : List ClusterConfig
  pub replaced : List (Option RuntimeCluster)

-- The runtime stays only if it is there, was made from the configuration, and there is nothing to inherit.
abbrev pub must_repair : ClusterConfig → Option RuntimeCluster → Option EndpointSnapshot → Bool
must_repair p none previous = true
must_repair p (some r) (some _) = true
must_repair p (some r) none = not (config_is_identical_to p r)

-- The end of both: the configurations are those that were prepared, and the runtimes those of their names.
abbrev pub settle : List Text → Repair → Repair
settle names r = record r {
  work =
      with_config r.prepared (with_map (kept_runtimes names r.work.store_of.clusters_map) r.work);
  replaced = r.replaced ++ dropped_runtimes names r.work.store_of.clusters_map;
}

abbrev pub named_only : List Text → List Text
named_only = keep (λ n. not (text_eq n []))

abbrev pub carry_one : Text → Option RuntimeCluster → Option RuntimeCluster → Work → Work
carry_one name none new w = w
carry_one name (some old) none w = w
carry_one name (some old) (some r) w =
    with_map (store name (carry_over_cursor_to old r) w.store_of.clusters_map) w

-- `carryOverRuntimeStateFrom`.
unfoldable pub carry_over_runtime_state_from : ClusterStore → List ClusterConfig → Work → Work
carry_over_runtime_state_from old [] w = w
carry_over_runtime_state_from old (c ∷ cs) w =
    carry_over_runtime_state_from old cs
      (carry_one c.name (lookup c.name old.clusters_map) (runtime_at c.name w) w)

module _ (digest : Text → Text) where
  -- One round of `ensureRuntimeClusters`.
  unfoldable pub ensure_one : ClusterConfig → Work → Work × ClusterConfig × Option RuntimeCluster
  ensure_one c w =
      let (w', p) = prepare_cluster_config digest c w in
      let (w2, old) = replace_cluster_runtime digest p.name p w' in
      elim (runtime_at p.name w') [
        | none ↦ (w2, p, old)
        | some r ↦ if not (config_is_identical_to p r) then (w2, p, old) else (w', p, none)
      ]

  -- `repairRuntimeClusterFromPrevious`. The old store's runtime of the name takes no more reports.
  unfoldable pub repair_one :
      ClusterConfig
      → ClusterStore
      → Work
      → ClusterStore × Work × ClusterConfig × Option RuntimeCluster
  repair_one c old w =
      let (w', p) = prepare_cluster_config digest c w in
      let (frozen, previous) = freeze_runtime digest p.name (record w' { store_of = old }) in
      let (w2, replaced) = replace_cluster_runtime_with_snapshot digest p.name p previous w' in
      if must_repair p (runtime_at p.name w') previous
      then (frozen.store_of, w2, p, replaced)
      else (frozen.store_of, w', p, none)

  -- The loops.
  unfoldable pub ensure_loop : List ClusterConfig → ClusterStore → Work → Repair
  ensure_loop [] old w = record { work = w; old = old; prepared = []; replaced = [] }
  ensure_loop (c ∷ cs) old w =
      let (w', p, r) = ensure_one c w in
      let rest = ensure_loop cs old w' in
      record rest { prepared = p ∷ rest.prepared; replaced = r ∷ rest.replaced }

  unfoldable pub repair_loop : List ClusterConfig → ClusterStore → Work → Repair
  repair_loop [] old w = record { work = w; old = old; prepared = []; replaced = [] }
  repair_loop (c ∷ cs) old w =
      let (old', w', p, r) = repair_one c old w in
      let rest = repair_loop cs old' w' in
      let counted = if text_eq p.name [] then none else r in
      record rest { prepared = p ∷ rest.prepared; replaced = counted ∷ rest.replaced }

  -- `ensureRuntimeClusters`.
  unfoldable pub ensure_runtime_clusters : Work → Repair
  ensure_runtime_clusters w =
      let r = ensure_loop w.store_of.config w.store_of w in settle (names_of r.prepared) r

  -- `ensureRuntimeClustersFrom`, of another store. A configuration without a name gets no runtime,
  -- and the one that it replaces is not among those to stop.
  unfoldable pub ensure_runtime_clusters_from : ClusterStore → Work → Repair
  ensure_runtime_clusters_from old w =
      let r = repair_loop w.store_of.config old w in settle (named_only (names_of r.prepared)) r

  -- The part of `CompareAndSetStore` behind the repair; the cursors come from `r.old`. The configurations
  -- that are notified are those from before the repair.
  abbrev pub swap_in :
      List ClusterConfig → Repair → List (Option RuntimeCluster) → ClusterManager → ClusterManager
  swap_in new r more m =
      let carried = carry_over_runtime_state_from r.old r.work.store_of.config r.work in
      notify m.work.store_of.config new (record (next_event m) {
        work = stop_clusters (r.replaced ++ more) [] carried;
        xds_managed = [];
      })

  -- `CompareAndSetStore`; the store is the current one itself, whose cursors come from its repaired
  -- runtimes, or another. The flag says that it is swapped.
  unfoldable pub compare_and_set_store :
      Option ClusterStore → ClusterManager → ClusterManager × Bool
  compare_and_set_store none m =
      let r = ensure_runtime_clusters m.work in
      (swap_in m.work.store_of.config (record r { old = r.work.store_of }) [] m, true)
  compare_and_set_store (some s) m =
      let r = ensure_runtime_clusters_from m.work.store_of (record m.work { store_of = s }) in
      if not (s.version == m.work.store_of.version) then (m, false) else (
        swap_in s.config r (runtime_clusters_not_in r.old.clusters_map r.work.store_of.clusters_map)
            m,
        true,
      )
