-- ===== src/Manager/Found.antt =====
-- Where a configuration of a name is found, and that setting the endpoints of one leaves the names.
use dubbo_go_pixiu.Prelude.{
  ℕ, zero, suc, ◌+◌, Bool, true, false, ◌≡◌, refl, Option, none, some, List, [], ◌∷◌, ◌++◌, length,
  get_elem?, Bool-cases, Option-cases, inl, inr, ap, sym, ◌∙◌, arith,
}
use dubbo_go_pixiu.Prelude.Text.{Text, text_eq, text_eq_iff}
use dubbo_go_pixiu.Cluster.Endpoint.{LlmMeta, Endpoint, ClusterConfig}
use dubbo_go_pixiu.Cluster.Runtime.{RuntimeCluster, add_endpoint_check, config_is_identical_to}
use dubbo_go_pixiu.Manager.Slot.{
  SetEndpointAction, idempotent, replace_slot, append_slot, resolve_set_endpoint_slot, set_at,
}
use dubbo_go_pixiu.Manager.Store.{
  ClusterStore, Work, with_config, runtime_at, find_cluster_config, set_config,
  prepare_cluster_config, current_runtime, refresh_runtime,
}
use dubbo_go_pixiu.Manager.Endpoints.{
  publish_endpoints, replace_endpoint_at, set_in_cluster, stop_old, start_new, changed_address,
}
use dubbo_go_pixiu.Manager.Operations.{names_of}
use dubbo_go_pixiu.Manager.Configs.{configs, prepare-store, prepare-name, replace_and_stop-configs}

-- The configuration that is found has the name, and stands at its index. A list with the same names has the
-- configuration of the name there, too.
pub find-kept :
    (name : Text) (j : ℕ) (cs ds : List ClusterConfig) (i : ℕ) (c : ClusterConfig)
    → names_of cs ≡ names_of ds
    → find_cluster_config name j cs ≡ some (i, c)
    → (k : ℕ) × (i ≡ j + k)
      × (get_elem? cs k ≡ some c)
      × (c.name ≡ name)
      × ((d : ClusterConfig)
          → get_elem? ds k ≡ some d
          → find_cluster_config name j ds ≡ some (i, d))
unfolding find_cluster_config
find-kept name j [] ds i c same h = cc
find-kept name j (x ∷ cs) [] i c same h = cc (same)
find-kept name j (x ∷ cs) (y ∷ ds) i c same h =
    let heads : x.name ≡ y.name = cc (same) in
    let tails : names_of cs ≡ names_of ds = cc (same) in
    elim (Bool-cases (text_eq x.name name)) [
      | inl t ↦
          let found : some (j, x) ≡ some (i, c) = rw t at h in
          let index : j ≡ i = cc in
          let value : x ≡ c = cc in
          let there : text_eq y.name name ≡ true = rw (← heads) t in
          (
            0,
            omega (arith, index),
            ap some value,
            ap (λ (d : ClusterConfig). d.name) (sym value) ∙ (text_eq_iff x.name name).0 t,
            λ d at_d. let first : y ≡ d = cc in rw (there, index, first) refl,
          )
      | inr f ↦
          let (k, index, at_k, named, kept) = find-kept name (j + 1) cs ds i c tails (rw f at h) in
          let missed : text_eq y.name name ≡ false = rw (← heads) f in
          (suc k, omega (arith, index), at_k, named, λ d at_d. rw missed (kept d at_d))
    ]

pub find-append :
    (name : Text) (j : ℕ) (cs : List ClusterConfig) (p : ClusterConfig)
    → find_cluster_config name j cs ≡ none
    → text_eq p.name name ≡ true
    → find_cluster_config name j (cs ++ p ∷ []) ≡ some (j + length cs, p)
unfolding find_cluster_config
find-append name j [] p h t = rw t (ap (λ n. some (n, p)) (omega arith))
find-append name j (x ∷ cs) p h t = elim (Bool-cases (text_eq x.name name)) [
  | inl u ↦ cc (rw u at h)
  | inr f ↦ rw f (find-append name (j + 1) cs p (rw f at h) t ∙ ap (λ n. some (n, p)) (omega arith))
]

names-set_config :
    (p : ClusterConfig) (i : ℕ) (cs : List ClusterConfig) (c : ClusterConfig)
    → get_elem? cs i ≡ some c
    → p.name ≡ c.name
    → names_of (set_config i p cs) ≡ names_of cs
unfolding set_config
names-set_config p i [] c h same = refl
names-set_config p zero (x ∷ cs) c h same =
    let value : x ≡ c = cc in
    ap (λ n. n ∷ names_of cs) (same ∙ ap (λ (d : ClusterConfig). d.name) (sym value))
names-set_config p (suc i) (x ∷ cs) c h same =
    ap (λ l. x.name ∷ l) (names-set_config p i cs c h same)

module _ (digest : Text → Text) (name : Text) where
  refresh_runtime-configs :
      (es : List (Option Endpoint)) (before after : RuntimeCluster → RuntimeCluster) (w : Work)
      → configs (refresh_runtime digest name es before after w) ≡ configs w
  refresh_runtime-configs es before after w = elim (Option-cases (runtime_at name w)) [
    | inl e ↦ rw (e, refresh_runtime) refl
    | inr (r, e) ↦ rw (e, refresh_runtime) refl
  ]

  current_runtime-configs :
      (c : ClusterConfig) (w : Work) → configs (current_runtime digest name c w) ≡ configs w
  current_runtime-configs c w = elim (Option-cases (runtime_at name w)) [
    | inl e ↦ rw (e, current_runtime) (replace_and_stop-configs digest name c w)
    | inr (r, e) ↦ elim (Bool-cases (config_is_identical_to c r)) [
      | inl t ↦ rw (e, current_runtime) (rw t refl)
      | inr f ↦ rw (e, current_runtime) (rw f (replace_and_stop-configs digest name c w))
    ]
  ]

  publish_endpoints-names :
      (i : ℕ) (c : ClusterConfig) (es : List (Option Endpoint))
      (before after : RuntimeCluster → RuntimeCluster) (w : Work)
      → get_elem? (configs w) i ≡ some c
      → names_of (configs (publish_endpoints digest name i c es before after w))
        ≡ names_of (configs w)
  publish_endpoints-names i c es before after w at_i =
      let changed = record c { endpoints = es } in
      let (w', p) = prepare_cluster_config digest changed w in
      let same = ap (λ (s : ClusterStore). s.config) (prepare-store digest changed w) in
      ap names_of (
        refresh_runtime-configs p.endpoints before after
          (with_config (set_config i p (configs w')) w'))
      ∙ ap (λ cs. names_of (set_config i p cs)) same
      ∙ names-set_config p i (configs w) c at_i (prepare-name digest changed w)

-- `SetEndpoint` of an endpoint keeps the names, behind the search for the configuration.
pub set_in_cluster-names :
    (deep_equal : LlmMeta → LlmMeta → Bool) (digest : Text → Text) (name : Text)
    (incoming : Endpoint) (i : ℕ) (c : ClusterConfig) (w : Work)
    → get_elem? (configs w) i ≡ some c
    → names_of (configs (set_in_cluster deep_equal digest name incoming i c w))
      ≡ names_of (configs w)
unfolding set_in_cluster replace_endpoint_at
set_in_cluster-names deep_equal digest name incoming i c w at_i =
    let outcome = resolve_set_endpoint_slot deep_equal digest name incoming c.endpoints in
    let same = current_runtime-configs digest name c w in
    go outcome.action (record incoming { id = outcome.target_id })
      (ap (λ cs. get_elem? cs i) same ∙ at_i)
    ∙ ap names_of same
  where
    go :
        (action : SetEndpointAction) (e : Endpoint)
        → get_elem? (configs (current_runtime digest name c w)) i ≡ some c
        → names_of (
            configs (elim action [
              | idempotent ↦ current_runtime digest name c w
              | replace_slot k ↦
                  replace_endpoint_at digest name i c k e (current_runtime digest name c w)
              | append_slot ↦
                  publish_endpoints digest name i c
                    (c.endpoints ++ some e ∷ [])
                    (λ r. r)
                    (add_endpoint_check e)
                    (current_runtime digest name c w)
            ]))
          ≡ names_of (configs (current_runtime digest name c w))
    go idempotent e there = refl
    go (replace_slot k) e there =
        let changed = changed_address (get_elem? c.endpoints k) e in
        publish_endpoints-names digest name i c (set_at k e c.endpoints) (stop_old changed)
          (start_new changed e) (current_runtime digest name c w) there
    go append_slot e there =
        publish_endpoints-names digest name i c (c.endpoints ++ some e ∷ []) (λ r. r)
          (add_endpoint_check e) (current_runtime digest name c w) there
