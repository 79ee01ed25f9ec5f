-- ===== src/Manager/Registered.antt =====
-- `SetEndpoint` as a whole: the first endpoint of a cluster makes the cluster.
use dubbo_go_pixiu.Prelude.{
  ℕ, Bool, true, false, ◌≡◌, refl, Option, none, some, List, [], ◌∷◌, ◌++◌, map-append_one, length,
  get_elem?, Option-cases, inl, inr, ap, ap₂, sym, ◌∙◌, subst, arith,
}
use dubbo_go_pixiu.Prelude.Text.{Text, text_eq, text_eq_refl}
use dubbo_go_pixiu.Cluster.Endpoint.{LlmMeta, Endpoint, ClusterConfig}
use dubbo_go_pixiu.Manager.Assemble.{assemble, present, Settled, assemble-Settled}
use dubbo_go_pixiu.Manager.Slot.{
  SetEndpointAction, idempotent, replace_slot, append_slot, resolve_set_endpoint_slot,
}
use dubbo_go_pixiu.Manager.Store.{
  ClusterStore, Work, with_config, find_cluster_config, prepare_cluster_config, replace_and_stop,
  add_cluster,
}
use dubbo_go_pixiu.Manager.Endpoints.{
  new_config, numbered, ensure_config, set_in_cluster, set_endpoint,
}
use dubbo_go_pixiu.Manager.Operations.{names_of}
use dubbo_go_pixiu.Manager.Configs.{configs, prepare-store, prepare-name, replace_and_stop-configs}
use dubbo_go_pixiu.Manager.Found.{find-kept, find-append, set_in_cluster-names}
use dubbo_go_pixiu.Manager.Published.{
  InStep, prepare-endpoints, replace_and_stop-InStep, decided, set_in_cluster-InStep,
}

get-last :
    (cs : List ClusterConfig) (p : ClusterConfig) → get_elem? (cs ++ p ∷ []) (length cs) ≡ some p
get-last [] p = refl
get-last (c ∷ cs) p = get-last cs p

-- The endpoints under a name; none if it has no configuration.
abbrev pub endpoints_of : Text → Work → List (Option Endpoint)
endpoints_of name w = elim (find_cluster_config name 0 (configs w)) [
  | none ↦ []
  | some (_, c) ↦ c.endpoints
]

-- The names of the configurations, with the name if it is not among them.
abbrev pub names_with : Text → Work → List Text
names_with name w = elim (find_cluster_config name 0 (configs w)) [
  | none ↦ names_of (configs w) ++ name ∷ []
  | some _ ↦ names_of (configs w)
]

module _ (digest : Text → Text) (name : Text) where
  -- A cluster that is added is in step.
  add_cluster-InStep :
      (w : Work)
      → text_eq name [] ≡ false
      → (p : ClusterConfig) × InStep digest name
          (length (configs w))
          (add_cluster digest (new_config name) w)
          p
        × (configs (add_cluster digest (new_config name) w) ≡ configs w ++ p ∷ [])
        × (p.name ≡ name)
        × (p.endpoints ≡ [])
  unfolding add_cluster assemble
  add_cluster-InStep w named =
      let c = new_config name in
      let (w', p) = prepare_cluster_config digest c w in
      let same_configs = ap (λ (s : ClusterStore). s.config) (prepare-store digest c w) in
      let added = with_config (configs w' ++ p ∷ []) w' in
      let at_end : get_elem? (configs w' ++ p ∷ []) (length (configs w)) ≡ some p =
        subst (λ cs. get_elem? (configs w' ++ p ∷ []) (length cs) ≡ some p) same_configs
          (get-last (configs w') p) in
      let d =
        subst (λ (l : List (Option Endpoint)). Settled [] (present l))
          (sym (prepare-endpoints digest name 0 c w)) (assemble-Settled digest name 0 [] []) in
      let step = replace_and_stop-InStep digest name (length (configs w)) p added at_end d in
      (
        p,
        rw (named, add_cluster)
            (subst
              (λ n. InStep digest name (length (configs w)) (replace_and_stop digest n p added) p)
              (sym (prepare-name digest c w)) step),
        rw (named, add_cluster)
            (replace_and_stop-configs digest p.name p added ∙ ap (λ cs. cs ++ p ∷ []) same_configs),
        prepare-name digest c w,
        prepare-endpoints digest name 0 c w,
      )

  -- After the search for the configuration of a name: it is there, in step, with the endpoints of before.
  record Ensured (w w' : Work) (i : ℕ) (c : ClusterConfig) : Type 0 where
    found : find_cluster_config name 0 (configs w') ≡ some (i, c)
    step : InStep digest name i w' c
    name_eq : c.name ≡ name
    endpoints_eq : c.endpoints ≡ endpoints_of name w
    names : names_of (configs w') ≡ names_with name w

  ensure_config-Ensured :
      (w : Work)
      → text_eq name [] ≡ false
      → ((i : ℕ) (c : ClusterConfig)
          → find_cluster_config name 0 (configs w) ≡ some (i, c)
          → InStep digest name i w c)
      → (i : ℕ) × (c : ClusterConfig) × ((ensure_config digest name w).1 ≡ some (i, c))
        × Ensured w (ensure_config digest name w).0 i c
  unfolding ensure_config
  ensure_config-Ensured w named known =
      elim (Option-cases (find_cluster_config name 0 (configs w))) [
        | inl missing ↦
            let (p, step, added, same_name, no_endpoints) = add_cluster-InStep w named in
            let here : text_eq p.name name ≡ true = rw same_name (text_eq_refl name) in
            rw (missing, ensure_config)
              (
                length (configs w),
                p,
                ap (numbered (length (configs w))) step.config_eq,
                record {
                  found =
                      ap (find_cluster_config name 0) added
                      ∙ find-append name 0 (configs w) p missing here
                      ∙ ap (λ n. some (n, p)) (omega arith);
                  step = step;
                  name_eq = same_name;
                  endpoints_eq = rw (missing, endpoints_of) no_endpoints;
                  names =
                      ap names_of added
                      ∙ rw (missing, names_with)
                          (map-append_one (λ (c : ClusterConfig). c.name) (configs w) p
                            ∙ ap (λ n. names_of (configs w) ++ n ∷ []) same_name);
                },
              )
        | inr ((i, c), found) ↦
            let (k, index, at_k, same_name, kept) =
              find-kept name 0 (configs w) (configs w) i c refl found in
            rw (found, ensure_config)
              (
                i,
                c,
                refl,
                record {
                  found = found;
                  step = known i c found;
                  name_eq = same_name;
                  endpoints_eq = rw (found, endpoints_of) refl;
                  names = rw (found, names_with) refl;
                },
              )
      ]

module _ (deep_equal : LlmMeta → LlmMeta → Bool) (digest : Text → Text) where
  -- The endpoints of a configuration of the name after `SetEndpoint`, from those of before.
  abbrev pub endpoints_after :
      Text → Text → Endpoint → List (Option Endpoint) → List (Option Endpoint)
  endpoints_after name config_name e es =
      let outcome = resolve_set_endpoint_slot deep_equal digest name e es in
      decided digest (record (new_config config_name) { endpoints = es }) outcome.action
        (record e { id = outcome.target_id })

  decided-after :
      (c : ClusterConfig) (action : SetEndpointAction) (e : Endpoint)
      → decided digest c action e
        ≡ decided digest (record (new_config c.name) { endpoints = c.endpoints }) action e
  decided-after c idempotent e = refl
  decided-after c (replace_slot k) e = refl
  decided-after c append_slot e = refl

  -- After `SetEndpoint` of an endpoint the configuration that is found under the cluster's name has the
  -- endpoints that were decided on, from those that were found before, and the runtime of the name shows them,
  -- each with some mark. The names of the configurations are those of before, with the name added at the end
  -- if it was not among them. The name is not empty, and the cluster, if it was there, was in step.
  pub set_endpoint-InStep :
      (name : Text) (e : Endpoint) (w : Work)
      → text_eq name [] ≡ false
      → ((i : ℕ) (c : ClusterConfig)
          → find_cluster_config name 0 (configs w) ≡ some (i, c)
          → InStep digest name i w c)
      → (i : ℕ) × (c : ClusterConfig) × (find_cluster_config name 0
            (configs (set_endpoint deep_equal digest name (some e) w))
          ≡ some (i, c))
        × InStep digest name i (set_endpoint deep_equal digest name (some e) w) c
        × (present c.endpoints ≡ present (endpoints_after name name e (endpoints_of name w)))
        × (names_of (configs (set_endpoint deep_equal digest name (some e) w)) ≡ names_with name w)
  unfolding set_endpoint
  set_endpoint-InStep name e w named known =
      let (i, c, found, ensured) = ensure_config-Ensured digest name w named known in
      let w' = (ensure_config digest name w).0 in
      let (c', step, shown) = set_in_cluster-InStep deep_equal digest name e i c w' ensured.step in
      let same_names =
        set_in_cluster-names deep_equal digest name e i c w' ensured.step.config_eq in
      let last = set_in_cluster deep_equal digest name e i c w' in
      let (k, index, at_k, same_name, kept) =
        find-kept name 0 (configs w') (configs last) i c (sym same_names) ensured.found in
      let at_index : i ≡ k = omega (arith, index) in
      let outcome = resolve_set_endpoint_slot deep_equal digest name e c.endpoints in
      let after = decided-after c outcome.action (record e { id = outcome.target_id }) in
      rw (found, set_endpoint)
        (
          i,
          c',
          kept c' (subst (λ n. get_elem? (configs last) n ≡ some c') at_index step.config_eq),
          step,
          shown
              ∙ ap present (
                  after
                  ∙ ap₂ (λ n es. endpoints_after name n e es) ensured.name_eq ensured.endpoints_eq),
          same_names ∙ ensured.names,
        )
