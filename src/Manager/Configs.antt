-- ===== src/Manager/Configs.antt =====
-- What the operations of a store do to the list of its configurations.
use dubbo_go_pixiu.Prelude.{
  ℕ, suc, ◌+◌, Bool, true, false, not, ◌≡◌, refl, Option, none, some, List, [], ◌∷◌, ◌++◌, keep,
  any, if◌then◌else◌, ◌==◌, Bool-cases, Option-cases, inl, inr, ap, ◌∙◌, arith,
}
use dubbo_go_pixiu.Prelude.Text.{Text, text_eq}
use dubbo_go_pixiu.Prelude.Dict.{store}
use dubbo_go_pixiu.Cluster.Endpoint.{ClusterConfig, member}
use dubbo_go_pixiu.Cluster.Snapshot.{EndpointSnapshot}
use dubbo_go_pixiu.Cluster.Runtime.{RuntimeCluster, carry_over_cursor_to}
use dubbo_go_pixiu.Manager.Store.{
  ClusterStore, Work, with_map, with_config, runtime_at, stop_clusters, find_cluster_config,
  set_config, prepare_cluster_config, replace_cluster_runtime_with_snapshot, freeze_runtime,
  replace_cluster_runtime, replace_and_stop, add_cluster, carry_cursor, update_cluster,
  increase_version,
}
use dubbo_go_pixiu.Manager.Operations.{remove_configs, remove_clusters_locked}

abbrev pub configs : Work → List ClusterConfig
configs w = w.store_of.config

-- The configurations with `p` in the place that was found, if one was.
abbrev pub replaced_config :
    ClusterConfig → List ClusterConfig → Option (ℕ × ClusterConfig) → List ClusterConfig
replaced_config p cs none = cs
replaced_config p cs (some (i, _)) = set_config i p cs

pub stop_clusters-store :
    (rs : List (Option RuntimeCluster)) (seen : List ℕ) (w : Work)
    → (stop_clusters rs seen w).store_of ≡ w.store_of
unfolding stop_clusters
stop_clusters-store [] seen w = refl
stop_clusters-store (none ∷ rs) seen w = stop_clusters-store rs seen w
stop_clusters-store (some r ∷ rs) seen w = elim (Bool-cases (any (λ n. n == r.at) seen)) [
  | inl t ↦ rw t (stop_clusters-store rs seen w)
  | inr f ↦ rw f (stop_clusters-store rs (r.at ∷ seen) _)
]

module _ (digest : Text → Text) where
  pub prepare-store :
      (c : ClusterConfig) (w : Work) → (prepare_cluster_config digest c w).0.store_of ≡ w.store_of
  unfolding prepare_cluster_config
  prepare-store c w = elim (Bool-cases (c.config_id == 0)) [ inl t ↦ rw t refl | inr f ↦ rw f refl ]

  pub prepare-name :
      (c : ClusterConfig) (w : Work) → (prepare_cluster_config digest c w).1.name ≡ c.name
  unfolding prepare_cluster_config
  prepare-name c w = elim (Bool-cases (c.config_id == 0)) [ inl t ↦ rw t refl | inr f ↦ rw f refl ]

  pub freeze-configs :
      (name : Text) (w : Work) → configs (freeze_runtime digest name w).0 ≡ configs w
  unfolding freeze_runtime
  freeze-configs name w = elim (Option-cases (runtime_at name w)) [
    | inl e ↦ rw (e, freeze_runtime) refl
    | inr (r, e) ↦ rw (e, freeze_runtime) refl
  ]

  pub replace-configs :
      (name : Text) (c : ClusterConfig) (w : Work)
      → configs (replace_cluster_runtime digest name c w).0 ≡ configs w
  unfolding replace_cluster_runtime replace_cluster_runtime_with_snapshot
  replace-configs name c w = freeze-configs name w

  pub replace_and_stop-configs :
      (name : Text) (c : ClusterConfig) (w : Work)
      → configs (replace_and_stop digest name c w) ≡ configs w
  replace_and_stop-configs name c w =
      ap (λ (s : ClusterStore). s.config)
        (stop_clusters-store ((replace_cluster_runtime digest name c w).1 ∷ []) []
          (replace_cluster_runtime digest name c w).0)
      ∙ replace-configs name c w

  -- A cluster with a name is added behind the others.
  pub add_cluster-configs :
      (c : ClusterConfig) (w : Work)
      → text_eq c.name [] ≡ false
      → (p : ClusterConfig) × (configs (add_cluster digest c w) ≡ configs w ++ p ∷ [])
        × (p.name ≡ c.name)
  unfolding add_cluster
  add_cluster-configs c w named =
      let prepared = (prepare_cluster_config digest c w).1 in
      (
        prepared,
        rw (named, add_cluster)
            (replace_and_stop-configs prepared.name prepared _
              ∙ ap (λ (s : ClusterStore). s.config ++ prepared ∷ []) (prepare-store c w)),
        prepare-name c w,
      )

  carry_cursor-none :
      (name : Text) (old : RuntimeCluster) (w : Work)
      → runtime_at name w ≡ none
      → carry_cursor digest name (some old) w ≡ w
  carry_cursor-none name old w e = rw (e, carry_cursor) refl

  carry_cursor-some :
      (name : Text) (old : RuntimeCluster) (w : Work) (r : RuntimeCluster)
      → runtime_at name w ≡ some r
      → carry_cursor digest name (some old) w
        ≡ with_map (store name (carry_over_cursor_to old r) w.store_of.clusters_map) w
  carry_cursor-some name old w r e = rw (e, carry_cursor) refl

  pub carry_cursor-configs :
      (name : Text) (old : Option RuntimeCluster) (w : Work)
      → configs (carry_cursor digest name old w) ≡ configs w
  carry_cursor-configs name none w = refl
  carry_cursor-configs name (some old) w = elim (Option-cases (runtime_at name w)) [
    | inl e ↦ ap configs (carry_cursor-none name old w e)
    | inr (r, e) ↦ ap configs (carry_cursor-some name old w r e)
  ]

  -- A cluster that is updated takes the place of the first of its name.
  pub update_cluster-configs :
      (c : ClusterConfig) (w : Work)
      → (p : ClusterConfig) × (p.name ≡ c.name)
        × (configs (update_cluster digest c w)
            ≡ replaced_config p (configs w) (find_cluster_config c.name 0 (configs w)))
  unfolding update_cluster
  update_cluster-configs c w =
      let p = (prepare_cluster_config digest c w).1 in
      (
        p,
        prepare-name c w,
        elim (Option-cases (find_cluster_config c.name 0 (configs w))) [
          | inl e ↦ rw (e, update_cluster) refl
          | inr ((i, x), e) ↦ rw (e, update_cluster) (updated p i)
        ],
      )
    where
      updated :
          (p : ClusterConfig) (i : ℕ)
          → configs (
              stop_clusters
                ((replace_cluster_runtime digest p.name p (
                    with_config
                      (set_config i p (configs (prepare_cluster_config digest c w).0))
                      (prepare_cluster_config digest c w).0)).1
                  ∷ [])
                []
                (carry_cursor digest p.name
                  (runtime_at p.name (prepare_cluster_config digest c w).0)
                  (replace_cluster_runtime digest p.name p (
                    with_config
                      (set_config i p (configs (prepare_cluster_config digest c w).0))
                      (prepare_cluster_config digest c w).0)).0))
            ≡ set_config i p (configs w)
      updated p i =
          ap (λ (s : ClusterStore). s.config) (stop_clusters-store _ [] _)
          ∙ carry_cursor-configs p.name (runtime_at p.name (prepare_cluster_config digest c w).0) _
          ∙ replace-configs p.name p _
          ∙ ap (λ (s : ClusterStore). set_config i p s.config) (prepare-store c w)

  pub fill_one-configs :
      (name : Text) (c : ClusterConfig) (previous : Option EndpointSnapshot) (w : Work)
      → configs (replace_cluster_runtime_with_snapshot digest name c previous w).0 ≡ configs w
  unfolding replace_cluster_runtime_with_snapshot
  fill_one-configs name c previous w = refl

-- A test that fails for every configuration of a name does not see one of them replaced by another.
keep-set_config :
    (q : ClusterConfig → Bool) (name : Text) (p : ClusterConfig) (i : ℕ) (cs : List ClusterConfig)
    (n : ℕ) (x : ClusterConfig)
    → ((d : ClusterConfig) → text_eq d.name name ≡ true → q d ≡ false)
    → q p ≡ false
    → find_cluster_config name i cs ≡ some (n, x)
    → (k : ℕ) × (n ≡ i + k) × (keep q (set_config k p cs) ≡ keep q cs)
unfolding find_cluster_config set_config
keep-set_config q name p i [] n x miss miss_p h = cc
keep-set_config q name p i (c ∷ cs) n x miss miss_p h = elim (Bool-cases (text_eq c.name name)) [
  | inl t ↦
      let found : some (i, c) ≡ some (n, x) = rw t at h in
      let same : i ≡ n = cc in (0, omega (arith, same), rw (miss_p, miss c t) refl)
  | inr f ↦
      let (k, e, kept) = keep-set_config q name p (i + 1) cs n x miss miss_p (rw f at h) in
      (suc k, omega (arith, e), ap (λ l. if q c then c ∷ l else l) kept)
]

pub keep-replaced :
    (q : ClusterConfig → Bool) (name : Text) (p : ClusterConfig) (cs : List ClusterConfig)
    → ((d : ClusterConfig) → text_eq d.name name ≡ true → q d ≡ false)
    → q p ≡ false
    → keep q (replaced_config p cs (find_cluster_config name 0 cs)) ≡ keep q cs
keep-replaced q name p cs miss miss_p = elim (Option-cases (find_cluster_config name 0 cs)) [
  | inl e ↦ rw e refl
  | inr ((n, x), e) ↦
      let (k, index, kept) = keep-set_config q name p 0 cs n x miss miss_p e in
      let same : k ≡ n = omega (arith, index) in rw (e, ← same) kept
]

-- The configurations that `removeClustersLocked` keeps.
pub remove_configs-kept :
    (names : List Text) (cs : List ClusterConfig) (w : Work)
    → (remove_configs names cs w).1 ≡ keep (λ c. not (member c.name names)) cs
unfolding remove_configs
remove_configs-kept names [] w = refl
remove_configs-kept names (c ∷ cs) w = elim (Bool-cases (member c.name names)) [
  | inl t ↦ rw t (remove_configs-kept names cs _)
  | inr f ↦ rw f (ap (λ l. c ∷ l) (remove_configs-kept names cs w))
]

pub remove_clusters_locked-configs :
    (names : List Text) (w : Work)
    → configs (remove_clusters_locked names w) ≡ keep (λ c. not (member c.name names)) (configs w)
unfolding remove_clusters_locked increase_version
remove_clusters_locked-configs names w = remove_configs-kept names (configs w) w
