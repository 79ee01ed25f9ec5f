-- ===== src/Manager/SwapLaws.antt =====
-- What a swap of the store leaves.
use dubbo_go_pixiu.Prelude.{
  Bool, true, false, ◌||◌, ◌≡◌, refl, Option, none, some, List, [], ◌∷◌, ◌==◌, if◌then◌else◌,
  Bool-cases, ◌⊎◌, ◌≢◌, ==_iff, true-ne-false, inl, inr, ap, ap₂, sym, ◌∙◌, arith,
}
use dubbo_go_pixiu.Prelude.Text.{Text, text_eq, text_eq_iff}
use dubbo_go_pixiu.Prelude.Dict.{lookup, store, is_some, lookup-store_eq}
use dubbo_go_pixiu.Cluster.Endpoint.{ClusterConfig, member}
use dubbo_go_pixiu.Cluster.Snapshot.{EndpointSnapshot}
use dubbo_go_pixiu.Cluster.Runtime.{RuntimeCluster, carry_over_cursor_to}
use dubbo_go_pixiu.Manager.Store.{
  ClusterStore, Work, runtime_at, stop_clusters, prepare_cluster_config, freeze_runtime,
  replace_cluster_runtime_with_snapshot,
}
use dubbo_go_pixiu.Manager.Operations.{ClusterManager, names_of, next_event}
use dubbo_go_pixiu.Manager.Configs.{configs, stop_clusters-store, prepare-store, prepare-name}
use dubbo_go_pixiu.Manager.Swap.{
  settle, kept_runtimes, repair_one, repair_loop, named_only, ensure_runtime_clusters_from,
  carry_one, must_repair, carry_over_runtime_state_from, compare_and_set_store,
}

abbrev has_runtime : Text → Work → Bool
has_runtime n w = is_some (runtime_at n w)

is_some-store :
    (n k : Text) (r : RuntimeCluster) (m : List (Text × RuntimeCluster))
    → is_some (lookup n (store k r m)) ≡ text_eq n k || is_some (lookup n m)
is_some-store n k r m = ground (arith, lookup-store_eq n k r m)

is_some-stored :
    (n k : Text) (r : RuntimeCluster) (m : List (Text × RuntimeCluster))
    → lookup k m ≡ some r
    → is_some (lookup n m) ≡ text_eq n k || is_some (lookup n m)
is_some-stored n k r m h = elim (Bool-cases (text_eq n k)) [
  | inl t ↦ let same : n ≡ k = (text_eq_iff n k).0 t in rw (t, same, h) refl
  | inr f ↦ rw f refl
]

lookup-kept :
    (n : Text) (names : List Text) (m : List (Text × RuntimeCluster))
    → lookup n (kept_runtimes names m) ≡ (if member n names then lookup n m else none)
unfolding kept_runtimes
lookup-kept n names [] = ground arith
lookup-kept n names ((k, r) ∷ m) = elim (Bool-cases (text_eq n k)) [
  | inl t ↦
      let same : member n names ≡ member k names =
        ap (λ x. member x names) ((text_eq_iff n k).0 t) in
      ground (arith, same, t, lookup-kept n names m)
  | inr f ↦ ground (arith, f, lookup-kept n names m)
]

member-named :
    (n : Text) (names : List Text)
    → text_eq n [] ≡ false
    → member n (named_only names) ≡ member n names
member-named n [] h = refl
member-named n (x ∷ names) h = elim (Bool-cases (text_eq x [])) [
  | inl t ↦
      let blank : x ≡ [] = (text_eq_iff x []).0 t in
      let apart : text_eq n x ≡ false = rw blank h in rw (t, apart) (member-named n names h)
  | inr f ↦ rw f (ap (λ b. text_eq n x || b) (member-named n names h))
]

kept-runtime :
    (p : ClusterConfig) (o : Option RuntimeCluster) (previous : Option EndpointSnapshot)
    → must_repair p o previous ≡ false
    → (r : RuntimeCluster) × (o ≡ some r)
kept-runtime p none previous h = cc
kept-runtime p (some r) previous h = (r, refl)

carry_one-runtimes :
    (n name : Text) (old new : Option RuntimeCluster) (w : Work)
    → runtime_at name w ≡ new
    → (has_runtime n (carry_one name old new w) ≡ has_runtime n w)
      × (configs (carry_one name old new w) ≡ configs w)
carry_one-runtimes n name none new w h = (refl, refl)
carry_one-runtimes n name (some o) none w h = (refl, refl)
carry_one-runtimes n name (some o) (some r) w h = (
  is_some-store n name (carry_over_cursor_to o r) w.store_of.clusters_map
      ∙ sym (is_some-stored n name r w.store_of.clusters_map h),
  refl,
)

carry-runtimes :
    (n : Text) (old : ClusterStore) (cs : List ClusterConfig) (w : Work)
    → (has_runtime n (carry_over_runtime_state_from old cs w) ≡ has_runtime n w)
      × (configs (carry_over_runtime_state_from old cs w) ≡ configs w)
unfolding carry_over_runtime_state_from
carry-runtimes n old [] w = (refl, refl)
carry-runtimes n old (c ∷ cs) w =
    let w' = carry_one c.name (lookup c.name old.clusters_map) (runtime_at c.name w) w in
    let (same, same_configs) =
      carry_one-runtimes n c.name (lookup c.name old.clusters_map) (runtime_at c.name w) w refl in
    let (rest, rest_configs) = carry-runtimes n old cs w' in
    (rest ∙ same, rest_configs ∙ same_configs)

module _ (digest : Text → Text) (n : Text) where
  repair_one-runtimes :
      (c : ClusterConfig) (old : ClusterStore) (w : Work)
      → ((repair_one digest c old w).2.name ≡ c.name)
        × (has_runtime n (repair_one digest c old w).1 ≡ text_eq n c.name || has_runtime n w)
  unfolding repair_one replace_cluster_runtime_with_snapshot
  repair_one-runtimes c old w =
      let (w', p) = prepare_cluster_config digest c w in
      let named : p.name ≡ c.name = prepare-name digest c w in
      let same : has_runtime n w' ≡ has_runtime n w =
        ap (λ (s : ClusterStore). is_some (lookup n s.clusters_map)) (prepare-store digest c w) in
      let (frozen, previous) = freeze_runtime digest p.name (record w' { store_of = old }) in
      let by_name = λ (x : Text). text_eq n x || has_runtime n w in
      elim (Bool-cases (must_repair p (runtime_at p.name w') previous)) [
        | inl t ↦
            rw (t, repair_one)
              (
                named,
                is_some-store n p.name _ w'.store_of.clusters_map
                    ∙ ap (λ b. text_eq n p.name || b) same
                    ∙ ap by_name named,
              )
        | inr f ↦
            let (r, there) = kept-runtime p (runtime_at p.name w') previous f in
            rw (f, repair_one)
              (
                named,
                is_some-stored n p.name r w'.store_of.clusters_map there
                    ∙ ap (λ b. text_eq n p.name || b) same
                    ∙ ap by_name named,
              )
      ]

  repair_loop-runtimes :
      (cs : List ClusterConfig) (old : ClusterStore) (w : Work)
      → (names_of (repair_loop digest cs old w).prepared ≡ names_of cs)
        × (has_runtime n (repair_loop digest cs old w).work
            ≡ member n (names_of cs) || has_runtime n w)
  unfolding repair_loop
  repair_loop-runtimes [] old w = (refl, refl)
  repair_loop-runtimes (c ∷ cs) old w =
      let (named, one) = repair_one-runtimes c old w in
      let (names, rest) =
        repair_loop-runtimes cs (repair_one digest c old w).0 (repair_one digest c old w).1 in
      (ap₂ (λ x l. x ∷ l) named names, ground (arith, one, rest))

  after_swap :
      (s : ClusterStore) (old : ClusterStore) (w : Work) (cs : List ClusterConfig)
      (rs : List (Option RuntimeCluster))
      → text_eq n [] ≡ false
      → let r =
          settle
            (named_only (names_of (repair_loop digest cs old w).prepared))
            (repair_loop digest cs old w) in
        let last =
          stop_clusters rs [] (carry_over_runtime_state_from r.old (configs r.work) r.work) in
        (names_of (configs last) ≡ names_of cs) × (has_runtime n last ≡ member n (names_of cs))
  after_swap s old w cs rs named =
      let repaired = repair_loop digest cs old w in
      let r = settle (named_only (names_of repaired.prepared)) repaired in
      let (names, loop) = repair_loop-runtimes cs old w in
      let (same, same_configs) = carry-runtimes n r.old (configs r.work) r.work in
      let stopped =
        stop_clusters-store rs [] (carry_over_runtime_state_from r.old (configs r.work) r.work) in
      let kept = ap is_some (
        lookup-kept n (named_only (names_of repaired.prepared))
          repaired.work.store_of.clusters_map) in
      let listed : member n (named_only (names_of repaired.prepared)) ≡ member n (names_of cs) =
        member-named n (names_of repaired.prepared) named ∙ ap (member n) names in
      (
        ap (λ (t : ClusterStore). names_of t.config) stopped ∙ ap names_of same_configs ∙ names,
        ap (λ (t : ClusterStore). is_some (lookup n t.clusters_map)) stopped
            ∙ same
            ∙ kept
            ∙ ground (arith, listed, loop),
      )

-- Nothing has changed.
abbrev pub Refused : ClusterManager → ClusterManager × Bool → Type 0
Refused m result = (result.1 ≡ false) × (result.0 ≡ m)

-- The configurations are those of the store, by name, xDS owns none of them, and the runtimes are those of
-- the configurations.
abbrev pub Swapped : Text → ClusterStore → ClusterManager × Bool → Type 0
Swapped n s result =
    (result.1 ≡ true)
    × (result.0.xds_managed ≡ [])
    × (names_of (configs result.0.work) ≡ names_of s.config)
    × (is_some (runtime_at n result.0.work) ≡ member n (names_of s.config))

-- Another store is swapped in exactly if its version is the current one. Then the configurations are its
-- own, by name, xDS owns none of them, and a name that is not empty has a runtime exactly if it has a
-- configuration; otherwise nothing has changed.
pub compare_and_set_store_runtimes :
    (digest : Text → Text) (s : ClusterStore) (m : ClusterManager) (n : Text)
    → text_eq n [] ≡ false
    → ((s.version ≢ m.work.store_of.version) × Refused m (compare_and_set_store digest (some s) m))
      ⊎ ((s.version ≡ m.work.store_of.version)
          × Swapped n s (compare_and_set_store digest (some s) m))
unfolding compare_and_set_store ensure_runtime_clusters_from next_event
compare_and_set_store_runtimes digest s m n named =
    elim (Bool-cases (s.version == m.work.store_of.version)) [
      | inl t ↦
          let (names, runtimes) =
            after_swap digest n s m.work.store_of (record m.work { store_of = s }) s.config _
              named in
          inr (
            (==_iff s.version m.work.store_of.version).0 t,
            rw (t, compare_and_set_store) (refl, refl, names, runtimes),
          )
      | inr f ↦ inl (
        λ e. true-ne-false ((==_iff s.version m.work.store_of.version).1 e) f,
        rw (f, compare_and_set_store) (refl, refl),
      )
    ]
