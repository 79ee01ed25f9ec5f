-- ===== src/Manager/Published.antt =====
-- What requests see of the endpoints that are set and deleted.
use dubbo_go_pixiu.Prelude.{
  ℕ, zero, suc, ◌+◌, Bool, false, not, ◌≡◌, refl, Option, none, some, List, [], ◌∷◌, ◌++◌, map,
  map-append_one, append_assoc, append-nil, length, get_elem?, if◌then◌else◌, ◌==◌, Bool-cases, inl,
  inr, ap, sym, ◌∙◌, subst,
}
use dubbo_go_pixiu.Prelude.Text.{Text, text_eq_refl}
use dubbo_go_pixiu.Prelude.Dict.{lookup, store, from_some-eq, lookup-store_eq}
use dubbo_go_pixiu.Cluster.Address.{get_address}
use dubbo_go_pixiu.Cluster.Endpoint.{LlmMeta, Endpoint, ClusterConfig}
use dubbo_go_pixiu.Cluster.Snapshot.{
  EndpointSnapshot, new_endpoint_snapshot_index, add_endpoint, index_endpoint, add_endpoints,
  with_id, endpoint_snapshot_health, new_endpoint_snapshot, set_un_healthy,
}
use dubbo_go_pixiu.Cluster.Snapshot.Total.{new_endpoint_snapshot-is_some}
use dubbo_go_pixiu.Cluster.Snapshot.Index.{new_endpoint_snapshot-IsIndexed}
use dubbo_go_pixiu.Cluster.Snapshot.Updates.{value_of}
use dubbo_go_pixiu.Cluster.Snapshot.Marks.{view}
use dubbo_go_pixiu.Cluster.Runtime.{
  RuntimeCluster, snapshot_of, or_else, refresh_endpoints, refresh_endpoints_from,
  sync_config_endpoints, new_cluster_with_endpoint_snapshot, config_is_identical_to,
  add_endpoint_check,
}
use dubbo_go_pixiu.Manager.Assemble.{assemble, present, Settled, unique_id_kept, assemble-Settled}
use dubbo_go_pixiu.Manager.Slot.{
  SetEndpointAction, idempotent, replace_slot, append_slot, resolve_set_endpoint_slot, set_at,
}
use dubbo_go_pixiu.Manager.Store.{
  ClusterStore, Work, with_config, runtime_at, set_config, prepare_cluster_config, current_runtime,
  refresh_runtime, replace_and_stop, replace_cluster_runtime, replace_cluster_runtime_with_snapshot,
  freeze_runtime,
}
use dubbo_go_pixiu.Manager.Endpoints.{
  publish_endpoints, replace_endpoint_at, set_in_cluster, stop_old, start_new, changed_address,
}
use dubbo_go_pixiu.Manager.Configs.{stop_clusters-store, prepare-store, replace_and_stop-configs}

-- An endpoint but for its mark.
abbrev pub unmarked : Endpoint → Endpoint
unmarked e = record e { un_healthy = false }

add_endpoints-kept :
    (digest : Text → Text) (name : Text) (previous : Option EndpointSnapshot) (inherit : Bool)
    (es : List (Option Endpoint)) (taken : List Text) (heap : ℕ) (s next : EndpointSnapshot)
    → Settled taken (present es)
    → add_endpoints digest name previous inherit es taken heap s ≡ some next
    → map unmarked (view next) ≡ map unmarked (view s) ++ map unmarked (present es)
unfolding add_endpoints add_endpoint index_endpoint
add_endpoints-kept digest name previous inherit [] taken heap s next d h =
    let same : s ≡ next = cc in
    ap (λ x. map unmarked (view x)) (sym same) ∙ sym (append-nil (map unmarked (view s)))
add_endpoints-kept digest name previous inherit (none ∷ es) taken heap s next d h =
    add_endpoints-kept digest name previous inherit es taken heap s next d h
add_endpoints-kept digest name previous inherit (some e ∷ es) taken heap s next (set, fresh, d) h =
    let kept = unique_id_kept digest name e taken set fresh in
    let r = with_id digest name previous inherit e.id heap e in
    let health = endpoint_snapshot_health r.value (get_address e.address) previous inherit in
    let rest =
      add_endpoints-kept digest name previous inherit es (e.id ∷ taken) (heap + 1)
        (add_endpoint r (get_address e.address) health s) next d (rw (kept, add_endpoints) at h) in
    rest
    ∙ ap (λ l. l ++ map unmarked (present es))
        (ap (map unmarked) (map-append_one value_of s.all (set_un_healthy (not health) r))
          ∙ map-append_one unmarked (view s) _)
    ∙ append_assoc (map unmarked (view s)) (unmarked e ∷ []) (map unmarked (present es))

-- A snapshot of endpoints whose IDs are settled shows these endpoints, each with some mark.
pub snapshot_of-kept :
    (digest : Text → Text) (heap : ℕ) (config : ClusterConfig) (previous : Option EndpointSnapshot)
    (inherit : Bool)
    → Settled [] (present config.endpoints)
    → map unmarked (view (snapshot_of digest heap config previous inherit))
      ≡ map unmarked (present config.endpoints)
unfolding snapshot_of new_endpoint_snapshot new_endpoint_snapshot_index
snapshot_of-kept digest heap config previous inherit d =
    let (s, made, x) = new_endpoint_snapshot-IsIndexed digest heap config previous inherit in
    rw
      (from_some-eq (new_endpoint_snapshot digest heap config previous inherit)
        (new_endpoint_snapshot-is_some digest heap config previous inherit) made)
      (add_endpoints-kept digest config.name previous inherit config.endpoints [] heap
        (new_endpoint_snapshot_index config.lb_str config.consistent_hash) s d made)

module _ (digest : Text → Text) (name : Text) (i : ℕ) where
  -- The configuration at an index, with settled IDs, and the runtime of the name that shows its endpoints.
  pub record InStep (w : Work) (c : ClusterConfig) : Type 0 where
    pub config_eq : get_elem? w.store_of.config i ≡ some c
    pub settled : Settled [] (present c.endpoints)
    pub runtime : RuntimeCluster
    pub runtime_eq : runtime_at name w ≡ some runtime
    pub snapshot : EndpointSnapshot
    pub current : runtime.endpoints ≡ some snapshot
    pub shown : map unmarked (view snapshot) ≡ map unmarked (present c.endpoints)

  get-set_config :
      (p : ClusterConfig) (k : ℕ) (cs : List ClusterConfig) {c : ClusterConfig}
      → get_elem? cs k ≡ some c
      → get_elem? (set_config k p cs) k ≡ some p
  unfolding set_config
  get-set_config p k [] h = cc
  get-set_config p zero (d ∷ cs) h = refl
  get-set_config p (suc k) (d ∷ cs) h = get-set_config p k cs h

  lookup-stored :
      (r : RuntimeCluster) (m : List (Text × RuntimeCluster))
      → lookup name (store name r m) ≡ some r
  lookup-stored r m = rw (lookup-store_eq name name r m, text_eq_refl name) refl

  pub prepare-endpoints :
      (c : ClusterConfig) (w : Work)
      → (prepare_cluster_config digest c w).1.endpoints ≡ assemble digest c.name 0 [] c.endpoints
  unfolding prepare_cluster_config
  prepare-endpoints c w = elim (Bool-cases (c.config_id == 0)) [
    | inl t ↦ rw t refl
    | inr f ↦ rw f refl
  ]

  abbrev refreshed :
      List (Option Endpoint)
      → (RuntimeCluster → RuntimeCluster)
      → (RuntimeCluster → RuntimeCluster)
      → Work
      → RuntimeCluster
      → RuntimeCluster
  refreshed es before after w r =
      after (refresh_endpoints digest w.supply.heap (sync_config_endpoints es (before r)))

  abbrev refreshed_work :
      List (Option Endpoint)
      → (RuntimeCluster → RuntimeCluster)
      → (RuntimeCluster → RuntimeCluster)
      → Work
      → RuntimeCluster
      → Work
  refreshed_work es before after w r = record w {
    store_of = record w.store_of {
      clusters_map = store name (refreshed es before after w r) w.store_of.clusters_map;
    };
    supply = record w.supply { heap = w.supply.heap + length es };
  }

  refresh_runtime-eq :
      (es : List (Option Endpoint)) (before after : RuntimeCluster → RuntimeCluster) (w : Work)
      (r : RuntimeCluster)
      → runtime_at name w ≡ some r
      → refresh_runtime digest name es before after w ≡ refreshed_work es before after w r
  refresh_runtime-eq es before after w r h = rw (h, refresh_runtime) refl

  refreshed-InStep :
      (p : ClusterConfig) (before after : RuntimeCluster → RuntimeCluster) (w : Work)
      (r : RuntimeCluster)
      → ((r : RuntimeCluster) → (after r).endpoints ≡ r.endpoints)
      → get_elem? w.store_of.config i ≡ some p
      → Settled [] (present p.endpoints)
      → InStep (refreshed_work p.endpoints before after w r) p
  unfolding refresh_endpoints refresh_endpoints_from sync_config_endpoints
  refreshed-InStep p before after w r same at_i d =
      let r' = sync_config_endpoints p.endpoints (before r) in
      record {
        config_eq = at_i;
        settled = d;
        runtime = refreshed p.endpoints before after w r;
        runtime_eq = lookup-stored (refreshed p.endpoints before after w r) w.store_of.clusters_map;
        snapshot =
            snapshot_of digest w.supply.heap r'.config (or_else r'.endpoints r'.endpoints)
              r'.config.has_health_checks;
        current = same (refresh_endpoints digest w.supply.heap r');
        shown =
            snapshot_of-kept digest w.supply.heap r'.config (or_else r'.endpoints r'.endpoints)
              r'.config.has_health_checks d;
      }

  -- Replacing the endpoints of a configuration keeps the step.
  publish_endpoints-InStep :
      (c : ClusterConfig) (es : List (Option Endpoint))
      (before after : RuntimeCluster → RuntimeCluster) (w : Work)
      → ((r : RuntimeCluster) → (after r).endpoints ≡ r.endpoints)
      → InStep w c
      → (c' : ClusterConfig) × InStep (publish_endpoints digest name i c es before after w) c'
        × (present c'.endpoints ≡ present (assemble digest c.name 0 [] es))
  publish_endpoints-InStep c es before after w same h =
      let changed = record c { endpoints = es } in
      let (w', p) = prepare_cluster_config digest changed w in
      let config_of =
        ap (λ (s : ClusterStore). get_elem? s.config i) (prepare-store digest changed w)
        ∙ h.config_eq in
      let there : runtime_at name w' ≡ some h.runtime =
        ap (λ (s : ClusterStore). lookup name s.clusters_map) (prepare-store digest changed w)
        ∙ h.runtime_eq in
      let w2 = with_config (set_config i p w'.store_of.config) w' in
      let eq = refresh_runtime-eq p.endpoints before after w2 h.runtime there in
      let p_endpoints = prepare-endpoints changed w in
      let d =
        subst (λ (l : List (Option Endpoint)). Settled [] (present l)) (sym p_endpoints)
          (assemble-Settled digest c.name 0 [] es) in
      let step =
        refreshed-InStep p before after w2 h.runtime same
          (get-set_config p i w'.store_of.config config_of) d in
      (p, subst (λ x. InStep x p) (sym eq) step, ap present p_endpoints)

  replaced-runtime :
      (c : ClusterConfig) (w : Work)
      → runtime_at name (replace_and_stop digest name c w)
        ≡ some (
            new_cluster_with_endpoint_snapshot digest
              (freeze_runtime digest name w).0.supply.heap
              (freeze_runtime digest name w).0.supply.place
              c
              (freeze_runtime digest name w).1)
  unfolding replace_cluster_runtime replace_cluster_runtime_with_snapshot
  replaced-runtime c w =
      ap (λ (s : ClusterStore). lookup name s.clusters_map) (stop_clusters-store _ [] _)
      ∙ lookup-stored _ (freeze_runtime digest name w).0.store_of.clusters_map

  pub replace_and_stop-InStep :
      (c : ClusterConfig) (w : Work)
      → get_elem? w.store_of.config i ≡ some c
      → Settled [] (present c.endpoints)
      → InStep (replace_and_stop digest name c w) c
  unfolding new_cluster_with_endpoint_snapshot refresh_endpoints_from
  replace_and_stop-InStep c w at_i d =
      let (frozen, previous) = freeze_runtime digest name w in
      record {
        config_eq = ap (λ cs. get_elem? cs i) (replace_and_stop-configs digest name c w) ∙ at_i;
        settled = d;
        runtime =
            new_cluster_with_endpoint_snapshot digest frozen.supply.heap frozen.supply.place c
              previous;
        runtime_eq = replaced-runtime c w;
        snapshot = snapshot_of digest frozen.supply.heap c previous c.has_health_checks;
        current = refl;
        shown = snapshot_of-kept digest frozen.supply.heap c previous c.has_health_checks d;
      }

  current_runtime-eq :
      (c : ClusterConfig) (w : Work) (r : RuntimeCluster)
      → runtime_at name w ≡ some r
      → current_runtime digest name c w
        ≡ (if not (config_is_identical_to c r) then replace_and_stop digest name c w else w)
  current_runtime-eq c w r h = rw (h, current_runtime) refl

  current_runtime-InStep :
      (c : ClusterConfig) (w : Work) → InStep w c → InStep (current_runtime digest name c w) c
  current_runtime-InStep c w h =
      subst (λ x. InStep x c) (sym (current_runtime-eq c w h.runtime h.runtime_eq))
        (elim (Bool-cases (config_is_identical_to c h.runtime)) [
          | inl t ↦
              subst (λ b. InStep (if not b then replace_and_stop digest name c w else w) c) (sym t)
                h
          | inr f ↦
              subst (λ b. InStep (if not b then replace_and_stop digest name c w else w) c) (sym f)
                (replace_and_stop-InStep c w h.config_eq h.settled)
        ])

start_new-endpoints :
    (o : Option Endpoint) (e : Endpoint) (r : RuntimeCluster)
    → (start_new o e r).endpoints ≡ r.endpoints
unfolding add_endpoint_check
start_new-endpoints none e r = refl
start_new-endpoints (some old) e r = refl

added-endpoints :
    (e : Endpoint) (r : RuntimeCluster) → (add_endpoint_check e r).endpoints ≡ r.endpoints
unfolding add_endpoint_check
added-endpoints e r = refl

-- The endpoints of a configuration after a decision of `resolveSetEndpointSlot`.
abbrev pub decided :
    (Text → Text) → ClusterConfig → SetEndpointAction → Endpoint → List (Option Endpoint)
decided digest c idempotent e = c.endpoints
decided digest c (replace_slot k) e = assemble digest c.name 0 [] (set_at k e c.endpoints)
decided digest c append_slot e = assemble digest c.name 0 [] (c.endpoints ++ some e ∷ [])

-- `SetEndpoint` keeps the store and the requests in step: if the runtime of the cluster shows the endpoints
-- of its configuration, it shows them afterwards, and the configuration has the endpoints that were decided
-- on, whether the endpoint was there, is replaced or is new, and whether the runtime had to be replaced.
pub set_in_cluster-InStep :
    (deep_equal : LlmMeta → LlmMeta → Bool) (digest : Text → Text) (name : Text)
    (incoming : Endpoint) (i : ℕ) (c : ClusterConfig) (w : Work)
    → InStep digest name i w c
    → (c' : ClusterConfig) × InStep digest name i
        (set_in_cluster deep_equal digest name incoming i c w)
        c'
      × (present c'.endpoints
          ≡ present (
              decided digest c
                (resolve_set_endpoint_slot deep_equal digest name incoming c.endpoints).action
                (record incoming {
                  id =
                      (resolve_set_endpoint_slot deep_equal digest name incoming
                        c.endpoints).target_id;
                })))
unfolding set_in_cluster replace_endpoint_at
set_in_cluster-InStep deep_equal digest name incoming i c w h =
    let outcome = resolve_set_endpoint_slot deep_equal digest name incoming c.endpoints in
    go outcome.action (record incoming { id = outcome.target_id })
      (current_runtime-InStep digest name i c w h)
  where
    go :
        (action : SetEndpointAction) (e : Endpoint)
        → InStep digest name i (current_runtime digest name c w) c
        → (c' : ClusterConfig) × InStep digest name i
            (elim action [
              | idempotent ↦ current_runtime digest name c w
              | replace_slot k ↦
                  replace_endpoint_at digest name i c k e (current_runtime digest name c w)
              | append_slot ↦
                  publish_endpoints digest name i c
                    (c.endpoints ++ some e ∷ [])
                    (λ r. r)
                    (add_endpoint_check e)
                    (current_runtime digest name c w)
            ])
            c'
          × (present c'.endpoints ≡ present (decided digest c action e))
    go idempotent e ready = (c, ready, refl)
    go (replace_slot k) e ready =
        let changed = changed_address (get_elem? c.endpoints k) e in
        publish_endpoints-InStep digest name i c (set_at k e c.endpoints) (stop_old changed)
          (start_new changed e) (current_runtime digest name c w) (start_new-endpoints changed e)
          ready
    go append_slot e ready =
        publish_endpoints-InStep digest name i c (c.endpoints ++ some e ∷ []) (λ r. r)
          (add_endpoint_check e) (current_runtime digest name c w) (added-endpoints e) ready
