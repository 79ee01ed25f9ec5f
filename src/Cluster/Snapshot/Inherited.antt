-- ===== src/Cluster/Snapshot/Inherited.antt =====
-- What a refreshed snapshot keeps of the one before.
use mathlib.Core.List.{Memᴰ}
use dubbo_go_pixiu.Prelude.{
  Memᴰ-append, ℕ, ◌+◌, true, not, ◌≡◌, Option, none, some, List, [], ◌∷◌, arith, Option-cases, inl,
  inr, sym, subst,
}
use dubbo_go_pixiu.Prelude.Text.{Text, text_eq_refl}
use dubbo_go_pixiu.Prelude.Dict.{lookup}
use dubbo_go_pixiu.Cluster.Address.{get_address}
use dubbo_go_pixiu.Cluster.Endpoint.{Ref, Endpoint, ClusterConfig, stable_unique_endpoint_id}
use dubbo_go_pixiu.Cluster.Snapshot.{
  EndpointSnapshot, new_endpoint_snapshot_index, set_un_healthy, add_endpoint, index_endpoint,
  add_endpoints, with_id, endpoint_snapshot_health, new_endpoint_snapshot, health_in,
}
use dubbo_go_pixiu.Cluster.Snapshot.Index.{id_of, address_of, is_healthy}

module _ (digest : Text → Text) (name : Text) (previous : EndpointSnapshot) where
  Keeps : Ref → Type 0
  Keeps r =
      lookup (id_of r) previous.address_by_id ≡ some (address_of r)
      → is_healthy r ≡ health_in (id_of r) previous.healthy_by_id

  new-Keeps :
      (r : Ref)
      → Keeps (
          set_un_healthy
            (not (endpoint_snapshot_health r.value (address_of r) (some previous) true))
            r)
  unfolding Keeps endpoint_snapshot_health
  new-Keeps r known = ground (arith, text_eq_refl (address_of r), known)

  add_endpoints-Keeps :
      (es : List (Option Endpoint)) (taken : List Text) (heap : ℕ) (s next : EndpointSnapshot)
      → add_endpoints digest name (some previous) true es taken heap s ≡ some next
      → ((r : Ref) → Memᴰ r s.all → Keeps r)
      → (r : Ref) → Memᴰ r next.all
      → Keeps r
  unfolding add_endpoints add_endpoint index_endpoint
  add_endpoints-Keeps [] taken heap s next h keeps =
      let same : s ≡ next = cc in
      subst (λ (x : EndpointSnapshot). (r : Ref) → Memᴰ r x.all → Keeps r) same keeps
  add_endpoints-Keeps (none ∷ es) taken heap s next h keeps =
      add_endpoints-Keeps es taken heap s next h keeps
  add_endpoints-Keeps (some e ∷ es) taken heap s next h keeps =
      elim (Option-cases (stable_unique_endpoint_id digest name e taken)) [
        | inl missing ↦ cc (rw (missing, add_endpoints) at h)
        | inr (id, found) ↦
            let r = with_id digest name (some previous) true id heap e in
            let health =
              endpoint_snapshot_health r.value (get_address e.address) (some previous) true in
            add_endpoints-Keeps es (id ∷ taken) (heap + 1)
              (add_endpoint r (get_address e.address) health s) next
              (rw (found, add_endpoints) at h)
              (λ x m. elim (Memᴰ-append s.all (set_un_healthy (not health) r) m) [
                | inl old ↦ keeps x old
                | inr same ↦ subst Keeps (sym same) (new-Keeps r)
              ])
      ]

-- Where the runtime checks health, a refresh keeps the health of every endpoint that the snapshot before
-- knew under the same ID at the same address, whatever the configuration says of it.
pub new_endpoint_snapshot_inherits :
    (digest : Text → Text) (heap : ℕ) (config : ClusterConfig) (previous next : EndpointSnapshot)
    (r : Ref)
    → new_endpoint_snapshot digest heap config (some previous) true ≡ some next
    → Memᴰ r next.all
    → lookup (id_of r) previous.address_by_id ≡ some (address_of r)
    → is_healthy r ≡ health_in (id_of r) previous.healthy_by_id
unfolding new_endpoint_snapshot new_endpoint_snapshot_index Keeps
new_endpoint_snapshot_inherits digest heap config previous next r h m =
    add_endpoints-Keeps digest config.name previous config.endpoints [] heap
      (new_endpoint_snapshot_index config.lb_str config.consistent_hash) next h
      (λ x none_yet. elim none_yet [ ]) r m
