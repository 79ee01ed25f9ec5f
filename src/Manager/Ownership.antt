-- ===== src/Manager/Ownership.antt =====
-- What xDS may do to a store that other sources of configuration share.
use dubbo_go_pixiu.Prelude.{
  Bool, true, false, not, ◌&&◌, ◌||◌, ◌≡◌, refl, Option, none, some, List, [], ◌∷◌, keep,
  keep-append_one, Bool-cases, Option-cases, ◌⊎◌, inl, inr, ap, sym, ◌∙◌, arith,
}
use dubbo_go_pixiu.Prelude.Text.{Text, text_eq, text_eq_iff, text_eq_refl}
use dubbo_go_pixiu.Cluster.Endpoint.{ClusterConfig, member}
use dubbo_go_pixiu.Manager.Store.{
  ClusterStore, Work, has_cluster, prepare_cluster_config, freeze_runtime,
  replace_cluster_runtime_with_snapshot, increase_version,
}
use dubbo_go_pixiu.Manager.Operations.{
  ClusterManager, without, is_static, names_of, new_managed, fill_candidate, upsert_xds_cluster,
  replace_xds_clusters, take_owned, remove_xds_clusters, next_event, remove_clusters_locked,
}
use dubbo_go_pixiu.Manager.Configs.{
  configs, stop_clusters-store, prepare-store, prepare-name, add_cluster-configs,
  update_cluster-configs, keep-replaced, remove_clusters_locked-configs,
}

-- What xDS asks of the manager.
pub data XdsRequest : Type 0 where
  upsert : Option ClusterConfig → XdsRequest
  replace_all : List (Option ClusterConfig) → XdsRequest
  remove_names : List Text → XdsRequest

unfoldable pub xds_step : (Text → Text) → XdsRequest → ClusterManager → ClusterManager
xds_step digest (upsert c) m = (upsert_xds_cluster digest c m).0
xds_step digest (replace_all cs) m = (replace_xds_clusters digest cs m).0
xds_step digest (remove_names names) m = remove_xds_clusters names m

-- The configurations that xDS does not own.
abbrev pub statics : ClusterManager → List ClusterConfig
statics m = keep (is_static m.xds_managed) (configs m.work)

keep-same :
    (p q : ClusterConfig → Bool) (cs : List ClusterConfig)
    → ((c : ClusterConfig) → p c ≡ q c)
    → keep p cs ≡ keep q cs
keep-same p q [] h = refl
keep-same p q (c ∷ cs) h = rw (h c, keep-same p q cs h) refl

keep-keep :
    (p q r : ClusterConfig → Bool) (cs : List ClusterConfig)
    → ((c : ClusterConfig) → (p c && q c) ≡ r c)
    → keep q (keep p cs) ≡ keep r cs
keep-keep p q r [] h = refl
keep-keep p q r (c ∷ cs) h = ground (arith, h c, keep-keep p q r cs h)

-- A new owned name hides no configuration if the store has no cluster of it.
keep-owned :
    (name : Text) (owned : List Text) (cs : List ClusterConfig)
    → has_cluster name cs ≡ false
    → keep (is_static (name ∷ owned)) cs ≡ keep (is_static owned) cs
unfolding has_cluster
keep-owned name owned [] h = refl
keep-owned name owned (c ∷ cs) h = ground (arith, h, keep-owned name owned cs)

owned_hidden :
    (name : Text) (owned : List Text)
    → member name owned ≡ true
    → (d : ClusterConfig) → text_eq d.name name ≡ true
    → is_static owned d ≡ false
owned_hidden name owned h d t =
    let same : d.name ≡ name = (text_eq_iff d.name name).0 t in rw (same, h) refl

member-without :
    (n name : Text) (owned : List Text)
    → member n (without name owned) ≡ not (text_eq name n) && member n owned
member-without n name [] = ground arith
member-without n name (x ∷ owned) =
    grind
      (arith, member-without n name owned, text_eq_iff name x, text_eq_iff name n, text_eq_iff n x)

-- Names are taken from what is owned, and the rest stays.
take_owned-member :
    (names owned : List Text) (n : Text)
    → member n owned ≡ member n (take_owned names owned).0 || member n (take_owned names owned).1
unfolding take_owned
take_owned-member [] owned n = refl
take_owned-member (name ∷ names) owned n = elim (Bool-cases (member name owned)) [
  | inl t ↦ elim (Bool-cases (text_eq n name)) [
    | inl u ↦
        let owned_too : member n owned ≡ true =
          ap (λ x. member x owned) ((text_eq_iff n name).0 u) ∙ t in
        rw (t, u, owned_too) refl
    | inr v ↦
        let apart : text_eq name n ≡ false =
          grind (arith, v, text_eq_iff n name, text_eq_iff name n) in
        rw (t, v)
          (ground (
            arith,
            apart,
            member-without n name owned,
            take_owned-member names (without name owned) n,
          ))
  ]
  | inr f ↦ rw f (take_owned-member names owned n)
]

-- What it takes that a cluster is accepted.
validated :
    (s managed : List Text) (c : ClusterConfig) (cs : List (Option ClusterConfig)) (all : List Text)
    → new_managed s managed (some c ∷ cs) ≡ some all
    → (text_eq c.name [] ≡ false)
      × (member c.name s ≡ false)
      × (new_managed s (c.name ∷ managed) cs ≡ some all)
unfolding new_managed
validated s managed c cs all h = elim (Bool-cases (text_eq c.name [])) [
  | inl t ↦ cc (rw t at h)
  | inr named ↦ elim (Bool-cases (member c.name managed)) [
    | inl t ↦ cc (rw (named, t) at h)
    | inr once ↦ elim (Bool-cases (member c.name s)) [
      | inl t ↦ cc (rw (named, once, t) at h)
      | inr f ↦ (named, f, rw (named, once, f) at h)
    ]
  ]
]

-- A validated replacement owns no static name.
new_managed-fresh :
    (s managed : List Text) (cs : List (Option ClusterConfig)) (all : List Text)
    → new_managed s managed cs ≡ some all
    → (n : Text) → member n s ≡ true
    → member n all ≡ member n managed
unfolding new_managed
new_managed-fresh s managed [] all h n m = let same : managed ≡ all = cc in ap (member n) (sym same)
new_managed-fresh s managed (none ∷ cs) all h n m = cc
new_managed-fresh s managed (some c ∷ cs) all h n m =
    let (named, fresh, rest) = validated s managed c cs all h in
    let apart : text_eq n c.name ≡ false = grind (arith, fresh, m, text_eq_iff n c.name) in
    new_managed-fresh s (c.name ∷ managed) cs all rest n m ∙ rw apart refl

-- The names that are given stay owned.
new_managed-grows :
    (s managed : List Text) (cs : List (Option ClusterConfig)) (all : List Text)
    → new_managed s managed cs ≡ some all
    → (n : Text) → member n managed ≡ true
    → member n all ≡ true
unfolding new_managed
new_managed-grows s managed [] all h n m = let same : managed ≡ all = cc in rw (← same) m
new_managed-grows s managed (none ∷ cs) all h n m = cc
new_managed-grows s managed (some c ∷ cs) all h n m =
    let (named, fresh, rest) = validated s managed c cs all h in
    new_managed-grows s (c.name ∷ managed) cs all rest n (ground (arith, m))

-- The test sees none of the clusters that are put in.
abbrev Hidden : (ClusterConfig → Bool) → List (Option ClusterConfig) → Type 0
Hidden q [] = Unit {0}
Hidden q (none ∷ cs) = Hidden q cs
Hidden q (some c ∷ cs) =
    ((d : ClusterConfig) → text_eq d.name c.name ≡ true → q d ≡ false) × Hidden q cs

nil_refused :
    (s managed : List Text) (cs : List (Option ClusterConfig)) (all : List Text)
    → new_managed s managed (none ∷ cs) ≡ some all
    → ⊥
unfolding new_managed
nil_refused s managed cs all h = cc

new_managed-Hidden :
    (s managed : List Text) (cs : List (Option ClusterConfig)) (all : List Text)
    → new_managed s managed cs ≡ some all
    → Hidden (is_static all) cs
new_managed-Hidden s managed [] all h = tt
new_managed-Hidden s managed (none ∷ cs) all h = absurd (nil_refused s managed cs all h)
new_managed-Hidden s managed (some c ∷ cs) all h =
    let (named, fresh, rest) = validated s managed c cs all h in
    (
      owned_hidden c.name all (
          new_managed-grows s (c.name ∷ managed) cs all rest c.name
            (rw (text_eq_refl c.name) refl)),
      new_managed-Hidden s (c.name ∷ managed) cs all rest,
    )

fill_candidate-Hidden :
    (digest : Text → Text) (q : ClusterConfig → Bool) (cs : List (Option ClusterConfig)) (w : Work)
    (s : ClusterStore)
    → Hidden q cs
    → keep q (fill_candidate digest cs w s).1.config ≡ keep q s.config
unfolding fill_candidate replace_cluster_runtime_with_snapshot
fill_candidate-Hidden digest q [] w s h = refl
fill_candidate-Hidden digest q (none ∷ cs) w s h = fill_candidate-Hidden digest q cs w s h
fill_candidate-Hidden digest q (some c ∷ cs) w s (miss, h) =
    let (frozen, previous) = freeze_runtime digest c.name w in
    let start = record frozen { store_of = s } in
    let (made, p) = prepare_cluster_config digest c start in
    let p_hidden : q p ≡ false = miss p (rw (prepare-name digest c start) (text_eq_refl c.name)) in
    fill_candidate-Hidden digest q cs _ _ h
    ∙ keep-append_one q (configs made) p
    ∙ rw p_hidden (ap (λ (t : ClusterStore). keep q t.config) (prepare-store digest c start))

keep-statics :
    (owned all : List Text) (cs : List ClusterConfig)
    → ((n : Text) → member n (names_of (keep (is_static owned) cs)) ≡ true → member n all ≡ false)
    → keep (is_static all) (keep (is_static owned) cs) ≡ keep (is_static owned) cs
keep-statics owned all [] fresh = refl
keep-statics owned all (c ∷ cs) fresh = elim (Bool-cases (member c.name owned)) [
  | inl t ↦ rw t (keep-statics owned all cs (rw t at fresh))
  | inr f ↦
      let fresh' = rw f at fresh in
      let kept : member c.name all ≡ false = fresh' c.name (rw (text_eq_refl c.name) refl) in
      rw (f, kept)
        (ap (λ l. c ∷ l) (keep-statics owned all cs (λ n m. fresh' n (ground (arith, m)))))
]

upsert_keeps :
    (digest : Text → Text) (c : ClusterConfig) (m : ClusterManager)
    → statics (upsert_xds_cluster digest (some c) m).0 ≡ statics m
unfolding upsert_xds_cluster increase_version
upsert_keeps digest c m = elim (Bool-cases (text_eq c.name [])) [
  | inl t ↦ rw (t, upsert_xds_cluster) refl
  | inr named ↦ elim (Bool-cases (member c.name m.xds_managed)) [
    | inl owned ↦
        let (p, same, e) = update_cluster-configs digest c (increase_version m.work) in
        let p_named : text_eq p.name c.name ≡ true = rw same (text_eq_refl c.name) in
        let hidden = owned_hidden c.name m.xds_managed owned in
        let kept =
          ap (keep (is_static m.xds_managed)) e
          ∙ keep-replaced (is_static m.xds_managed) c.name p (configs m.work) hidden
              (hidden p p_named) in
        elim (Bool-cases (has_cluster c.name m.work.store_of.config)) [
          | inl t ↦ rw (named, owned, t, upsert_xds_cluster) kept
          | inr f ↦ rw (named, owned, f, upsert_xds_cluster) kept
        ]
    | inr other ↦ elim (Bool-cases (has_cluster c.name m.work.store_of.config)) [
      | inl t ↦ rw (named, other, t, upsert_xds_cluster) refl
      | inr f ↦
          let (p, e, same) = add_cluster-configs digest c (increase_version m.work) named in
          let owned = c.name ∷ m.xds_managed in
          let p_hidden : is_static owned p ≡ false = rw (same, text_eq_refl c.name) refl in
          let kept =
            ap (keep (is_static owned)) e
            ∙ keep-append_one (is_static owned) (configs m.work) p
            ∙ rw p_hidden (keep-owned c.name m.xds_managed (configs m.work) f) in
          rw (named, other, f, upsert_xds_cluster) kept
    ]
  ]
]

replace_keeps :
    (digest : Text → Text) (cs : List (Option ClusterConfig)) (m : ClusterManager)
    → statics (replace_xds_clusters digest cs m).0 ≡ statics m
unfolding replace_xds_clusters increase_version next_event
replace_keeps digest cs m = elim (Option-cases (new_managed (names_of (statics m)) [] cs)) [
  | inl refused ↦ rw (refused, replace_xds_clusters) refl
  | inr (managed, valid) ↦
      let kept =
        fill_candidate-Hidden digest (is_static managed) cs m.work _
          (new_managed-Hidden (names_of (statics m)) [] cs managed valid)
        ∙ keep-statics m.xds_managed managed (configs m.work)
            (new_managed-fresh (names_of (statics m)) [] cs managed valid) in
      rw (valid, replace_xds_clusters)
        (ap (λ (s : ClusterStore). keep (is_static managed) s.config) (stop_clusters-store _ [] _)
          ∙ kept)
]

-- The names that are taken go with the ownership of them.
remove_keeps :
    (taken rest owned : List Text) (w : Work)
    → ((n : Text) → member n owned ≡ member n taken || member n rest)
    → keep (is_static rest) (configs (remove_clusters_locked taken w))
      ≡ keep (is_static owned) (configs w)
remove_keeps taken rest owned w split =
    ap (keep (is_static rest)) (remove_clusters_locked-configs taken w)
    ∙ keep-keep (λ c. not (member c.name taken)) (is_static rest) (is_static owned) (configs w)
        (λ c. ground (arith, split c.name))

list-cases : (xs : List Text) → (xs ≡ []) ⊎ ((x : Text) × (ys : List Text) × (xs ≡ x ∷ ys))
list-cases [] = inl refl
list-cases (x ∷ ys) = inr (x, ys, refl)

remove_xds_keeps :
    (names : List Text) (m : ClusterManager) → statics (remove_xds_clusters names m) ≡ statics m
unfolding remove_xds_clusters next_event
remove_xds_keeps names m =
    let split = take_owned-member names m.xds_managed in
    elim (list-cases (take_owned names m.xds_managed).0) [
      | inl e ↦
          let split' = rw e at split in
          rw (e, remove_xds_clusters)
            (keep-same (is_static _) (is_static m.xds_managed) (configs m.work)
              (λ c. ap not (sym (split' c.name))))
      | inr (t, ts, e) ↦
          rw (e, remove_xds_clusters)
            (remove_keeps (t ∷ ts) (take_owned names m.xds_managed).1 m.xds_managed m.work
              (rw e at split))
    ]

-- Whatever xDS asks for, whether it is done or refused, the configurations that xDS does not own are those
-- of before, in the same order.
pub xds_step_keeps_statics :
    (digest : Text → Text) (request : XdsRequest) (m : ClusterManager)
    → statics (xds_step digest request m) ≡ statics m
unfolding xds_step upsert_xds_cluster
xds_step_keeps_statics digest (upsert none) m = refl
xds_step_keeps_statics digest (upsert (some c)) m = upsert_keeps digest c m
xds_step_keeps_statics digest (replace_all cs) m = replace_keeps digest cs m
xds_step_keeps_statics digest (remove_names names) m = remove_xds_keeps names m
