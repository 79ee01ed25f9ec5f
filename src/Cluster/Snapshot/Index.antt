-- ===== src/Cluster/Snapshot/Index.antt =====
-- A snapshot is the index of its endpoints: every other field is a function of them.
use dubbo_go_pixiu.Prelude.{
  map-append_one, keep-append_one, ℕ, ◌+◌, Bool, true, false, not, ◌||◌, ◌≡◌, refl, Option, none,
  some, List, [], ◌∷◌, ◌++◌, map, keep, arith, Bool-cases, inl, inr, sym, ◌∙◌,
}
use dubbo_go_pixiu.Prelude.Text.{Text, text_eq, text_eq_iff}
use dubbo_go_pixiu.Prelude.Dict.{lookup, store, store-new}
use dubbo_go_pixiu.Cluster.Address.{get_address}
use dubbo_go_pixiu.Cluster.Endpoint.{Ref, Endpoint, ConsistentHash, ClusterConfig, member}
use dubbo_go_pixiu.Cluster.UniqueId.{stable_unique_endpoint_id_fresh}
use dubbo_go_pixiu.Cluster.Snapshot.{
  EndpointSnapshot, new_endpoint_snapshot_index, add_address_health, set_un_healthy, append_if,
  store_if, index_endpoint, add_endpoint, add_endpoints, with_id, endpoint_snapshot_health,
  new_endpoint_snapshot,
}

abbrev pub id_of : Ref → Text
id_of e = e.value.id

abbrev pub address_of : Ref → Text
address_of e = get_address e.value.address

abbrev pub is_healthy : Ref → Bool
is_healthy e = not e.value.un_healthy

abbrev pub entries {ℓ} : {A : Type ℓ} → (Ref → A) → List Ref → List (Text × A)
entries f = map (λ e. (id_of e, f e))

abbrev pub Distinct : List Text → Type 0
Distinct [] = Unit {0}
Distinct (x ∷ xs) = (member x xs ≡ false) × Distinct xs

-- The health of the addresses: an address is healthy if all endpoints at it are.
abbrev pub address_health : List Ref → List (Text × Bool) → List (Text × Bool)
address_health [] d = d
address_health (e ∷ es) d = address_health es (add_address_health (address_of e) (is_healthy e) d)

pub record IsIndexed (s : EndpointSnapshot) : Type 0 where
  pub healthy_eq : s.healthy ≡ keep is_healthy s.all
  pub endpoint_by_id_eq : s.endpoint_by_id ≡ entries (λ e. e) s.all
  pub healthy_endpoint_by_id_eq : s.healthy_endpoint_by_id ≡ entries (λ e. e) s.healthy
  pub address_by_id_eq : s.address_by_id ≡ entries address_of s.all
  pub healthy_by_id_eq : s.healthy_by_id ≡ entries is_healthy s.all
  pub healthy_by_address_eq : s.healthy_by_address ≡ address_health s.all []
  pub distinct : Distinct (map id_of s.all)

pub lookup-entries {ℓ} :
    {A : Type ℓ} (f : Ref → A) (es : List Ref) (id : Text)
    → member id (map id_of es) ≡ false
    → lookup id (entries f es) ≡ none
lookup-entries f [] id h = refl
lookup-entries f (e ∷ es) id h = ground (arith, lookup-entries f es id)

pub member-keep :
    (p : Ref → Bool) (es : List Ref) (id : Text)
    → member id (map id_of es) ≡ false
    → member id (map id_of (keep p es)) ≡ false
member-keep p [] id h = refl
member-keep p (e ∷ es) id h = ground (arith, member-keep p es id)

address_health-append_one :
    (es : List Ref) (e : Ref) (d : List (Text × Bool))
    → address_health (es ++ e ∷ []) d
      ≡ add_address_health (address_of e) (is_healthy e) (address_health es d)
address_health-append_one [] e d = refl
address_health-append_one (x ∷ es) e d = address_health-append_one es e _

member-append_one :
    (id : Text) (ids : List Text) (x : Text)
    → member id (ids ++ x ∷ []) ≡ member id ids || text_eq id x
member-append_one id [] x = ground arith
member-append_one id (y ∷ ids) x = ground (arith, member-append_one id ids x)

Distinct-append_one :
    (ids : List Text) (x : Text) → member x ids ≡ false → Distinct ids → Distinct (ids ++ x ∷ [])
Distinct-append_one [] x fresh d = (refl, tt)
Distinct-append_one (y ∷ ids) x fresh (new, d) = (
  ground (arith, member-append_one y ids x, text_eq_iff x y, text_eq_iff y x),
  Distinct-append_one ids x (ground arith) d,
)

store-entries {ℓ} :
    {A : Type ℓ} (f : Ref → A) (es : List Ref) (e : Ref)
    → member (id_of e) (map id_of es) ≡ false
    → store (id_of e) (f e) (entries f es) ≡ entries f (es ++ e ∷ [])
store-entries f es e fresh =
    store-new (id_of e) (f e) (entries f es) (lookup-entries f es (id_of e) fresh)
    ∙ sym (map-append_one (λ x. (id_of x, f x)) es e)

pub empty-IsIndexed :
    (policy : Text) (config : ConsistentHash)
    → IsIndexed (new_endpoint_snapshot_index policy config)
unfolding new_endpoint_snapshot_index
empty-IsIndexed policy config = record {
  healthy_eq = refl;
  endpoint_by_id_eq = refl;
  healthy_endpoint_by_id_eq = refl;
  address_by_id_eq = refl;
  healthy_by_id_eq = refl;
  healthy_by_address_eq = refl;
  distinct = tt;
}

append_if-eq :
    (e : Ref) (es : List Ref)
    → append_if (is_healthy e) e (keep is_healthy es) ≡ keep is_healthy (es ++ e ∷ [])
append_if-eq e es = elim (Bool-cases (is_healthy e)) [
  | inl t ↦ rw t (sym (rw t at (keep-append_one is_healthy es e)))
  | inr f ↦ rw f (sym (rw f at (keep-append_one is_healthy es e)))
]

store_if-eq :
    (e : Ref) (es : List Ref)
    → member (id_of e) (map id_of es) ≡ false
    → store_if (is_healthy e) (id_of e) e (entries (λ x. x) (keep is_healthy es))
      ≡ entries (λ x. x) (append_if (is_healthy e) e (keep is_healthy es))
store_if-eq e es fresh = elim (Bool-cases (is_healthy e)) [
  | inl t ↦
      rw t
        (store-entries (λ x. x) (keep is_healthy es) e (member-keep is_healthy es (id_of e) fresh))
  | inr f ↦ rw f refl
]

pub index_endpoint-IsIndexed :
    (e : Ref) (s : EndpointSnapshot)
    → member (id_of e) (map id_of s.all) ≡ false
    → IsIndexed s
    → IsIndexed (index_endpoint e (address_of e) (is_healthy e) s)
unfolding index_endpoint
index_endpoint-IsIndexed e s fresh x = record {
  healthy_eq = rw x.healthy_eq (append_if-eq e s.all);
  endpoint_by_id_eq = rw x.endpoint_by_id_eq (store-entries (λ y. y) s.all e fresh);
  healthy_endpoint_by_id_eq =
      rw (x.healthy_endpoint_by_id_eq, x.healthy_eq) (store_if-eq e s.all fresh);
  address_by_id_eq = rw x.address_by_id_eq (store-entries address_of s.all e fresh);
  healthy_by_id_eq = rw x.healthy_by_id_eq (store-entries is_healthy s.all e fresh);
  healthy_by_address_eq = rw x.healthy_by_address_eq (sym (address_health-append_one s.all e []));
  distinct =
      rw (map-append_one id_of s.all e)
        (Distinct-append_one (map id_of s.all) (id_of e) fresh x.distinct);
}

not-not : (b : Bool) → not (not b) ≡ b
not-not true = refl
not-not false = refl

module _ (digest : Text → Text) (cluster_name : Text) (previous : Option EndpointSnapshot)
    (inherit : Bool) where
  add_endpoint-IsIndexed :
      (e : Ref) (healthy : Bool) (s : EndpointSnapshot)
      → member (id_of e) (map id_of s.all) ≡ false
      → IsIndexed s
      → IsIndexed (add_endpoint e (address_of e) healthy s)
  unfolding add_endpoint
  add_endpoint-IsIndexed e healthy s fresh x =
      rw (not-not healthy) at (index_endpoint-IsIndexed (set_un_healthy (not healthy) e) s fresh x)

  add_endpoints-IsIndexed :
      (es : List (Option Endpoint)) (taken : List Text) (heap : ℕ) (s : EndpointSnapshot)
      → ((id : Text) → member id taken ≡ member id (map id_of s.all))
      → IsIndexed s
      → (next : EndpointSnapshot) × (add_endpoints digest cluster_name previous inherit es taken
            heap s
          ≡ some next)
        × IsIndexed next
  unfolding add_endpoints add_endpoint index_endpoint
  add_endpoints-IsIndexed [] taken heap s same x = (s, refl, x)
  add_endpoints-IsIndexed (none ∷ es) taken heap s same x =
      add_endpoints-IsIndexed es taken heap s same x
  add_endpoints-IsIndexed (some e ∷ es) taken heap s same x =
      let (id, found, fresh) = stable_unique_endpoint_id_fresh digest cluster_name e taken in
      let r = with_id digest cluster_name previous inherit id heap e in
      let health = endpoint_snapshot_health r.value (get_address e.address) previous inherit in
      rw (found, add_endpoints)
        (add_endpoints-IsIndexed es (id ∷ taken) (heap + 1)
          (add_endpoint r (get_address e.address) health s) (all_ids r health same)
          (add_endpoint-IsIndexed r health s (sym (same id) ∙ fresh) x))
    where
      all_ids :
          (r : Ref) (health : Bool)
          → ((id : Text) → member id taken ≡ member id (map id_of s.all))
          → (id : Text)
          → member id (id_of r ∷ taken)
            ≡ member id (map id_of (add_endpoint r (get_address e.address) health s).all)
      all_ids r health same id =
          rw (map-append_one id_of s.all (set_un_healthy (not health) r))
            (ground (arith, same id, member-append_one id (map id_of s.all) (id_of r)))

-- A snapshot is made of every configuration, whatever it inherits from, and it is the index of its
-- endpoints: the healthy endpoints, the maps by ID and by address are those of the list of all endpoints,
-- and no two endpoints share an ID.
pub new_endpoint_snapshot-IsIndexed :
    (digest : Text → Text) (heap : ℕ) (config : ClusterConfig) (previous : Option EndpointSnapshot)
    (inherit : Bool)
    → (s : EndpointSnapshot) × (new_endpoint_snapshot digest heap config previous inherit ≡ some s)
      × IsIndexed s
unfolding new_endpoint_snapshot new_endpoint_snapshot_index
new_endpoint_snapshot-IsIndexed digest heap config previous inherit =
    add_endpoints-IsIndexed digest config.name previous inherit config.endpoints [] heap
      (new_endpoint_snapshot_index config.lb_str config.consistent_hash) (λ id. refl)
      (empty-IsIndexed config.lb_str config.consistent_hash)
