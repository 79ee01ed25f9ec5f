-- ===== src/Cluster/Snapshot/Updates.antt =====
-- A change of health, against the list of endpoints with their marks.
use mathlib.Core.List.{Memᴰ}
use dubbo_go_pixiu.Prelude.{
  ℕ, ◌+◌, Bool, true, false, not, ◌≡◌, refl, none, some, List, [], ◌∷◌, ◌++◌, map, keep, arith,
  if◌then◌else◌, Bool-cases, inl, inr, ap, ap₂, sym, ◌∙◌, append_assoc, append-nil,
}
use dubbo_go_pixiu.Prelude.Text.{Text, text_eq, text_eq_iff, text_eq_refl}
use dubbo_go_pixiu.Prelude.Dict.{lookup, store, store-new}
use dubbo_go_pixiu.Cluster.Endpoint.{Ref, Endpoint, member}
use dubbo_go_pixiu.Cluster.Snapshot.{
  EndpointSnapshot, add_address_health, append_if, store_if, health_in, next_health, carry_health,
  next_endpoint, carry_endpoints, rebuilt,
}
use dubbo_go_pixiu.Cluster.Snapshot.Index.{
  id_of, address_of, is_healthy, entries, Distinct, address_health, IsIndexed,
}

abbrev pub value_of : Ref → Endpoint
value_of e = e.value

-- The marks of the endpoints with the given IDs.
abbrev pub mark : List Text → Bool → Endpoint → Endpoint
mark ids healthy e = if member e.id ids then record e { un_healthy = not healthy } else e

pub member-mem : (es : List Ref) (e : Ref) → Memᴰ e es → member (id_of e) (map id_of es) ≡ true
member-mem [] e m = elim m [ ]
member-mem (x ∷ es) e (Memᴰ.head same) = rw (same, text_eq_refl (id_of x)) refl
member-mem (x ∷ es) e (Memᴰ.tail m) = ground (arith, member-mem es e m)

pub lookup-entries_mem {ℓ} :
    {A : Type ℓ} (f : Ref → A) (es : List Ref) (e : Ref)
    → Distinct (map id_of es)
    → Memᴰ e es
    → lookup (id_of e) (entries f es) ≡ some (f e)
lookup-entries_mem f [] e d m = elim m [ ]
lookup-entries_mem f (x ∷ es) e (fresh, d) (Memᴰ.head same) = rw (same, text_eq_refl (id_of x)) refl
lookup-entries_mem f (x ∷ es) e (fresh, d) (Memᴰ.tail m) =
    let rest = lookup-entries_mem f es e d m in
    let apart : text_eq (id_of e) (id_of x) ≡ false =
      grind (arith, fresh, member-mem es e m, text_eq_iff (id_of e) (id_of x)) in
    rw apart rest

-- No entry of a map has the ID of an endpoint of the list.
abbrev Fresh {ℓ} : {A : Type ℓ} → List Ref → List (Text × A) → Type ℓ
Fresh es d = (id : Text) → member id (map id_of es) ≡ true → lookup id d ≡ none

lookup-append_one {ℓ} :
    {A : Type ℓ} (id k : Text) (v : A) (d : List (Text × A))
    → lookup id d ≡ none
    → text_eq id k ≡ false
    → lookup id (d ++ (k, v) ∷ []) ≡ none
lookup-append_one id k v [] h apart = rw apart refl
lookup-append_one id k v ((j, w) ∷ d) h apart = elim (Bool-cases (text_eq id j)) [
  | inl t ↦ cc (rw t at h)
  | inr f ↦ rw f (lookup-append_one id k v d (rw f at h) apart)
]

Fresh-append {ℓ} :
    {A : Type ℓ} (e : Ref) (es : List Ref) (v : A) (d : List (Text × A))
    → member (id_of e) (map id_of es) ≡ false
    → Fresh (e ∷ es) d
    → Fresh es (d ++ (id_of e, v) ∷ [])
Fresh-append e es v d new fresh id m =
    lookup-append_one id (id_of e) v d (fresh id (ground (arith, m)))
      (grind (arith, new, m, text_eq_iff id (id_of e)))

module _ (ids : List Text) (healthy : Bool) where
  -- The references of the next snapshot, from a place on.
  abbrev nexts : ℕ → List Ref → List Ref
  nexts heap [] = []
  nexts heap (e ∷ es) = next_endpoint ids healthy heap e ∷ nexts (heap + 1) es

  is_healthy-next :
      (heap : ℕ) (e : Ref)
      → is_healthy (next_endpoint ids healthy heap e)
        ≡ next_health ids healthy (id_of e) (is_healthy e)
  is_healthy-next heap e = ground arith

  id_of-next : (heap : ℕ) (e : Ref) → id_of (next_endpoint ids healthy heap e) ≡ id_of e
  id_of-next heap e = ground arith

  address_of-next :
      (heap : ℕ) (e : Ref) → address_of (next_endpoint ids healthy heap e) ≡ address_of e
  address_of-next heap e = elim (Bool-cases (member (id_of e) ids)) [
    | inl t ↦ rw t refl
    | inr f ↦ rw f refl
  ]

  value-next :
      (heap : ℕ) (e : Ref) → (next_endpoint ids healthy heap e).value ≡ mark ids healthy e.value
  value-next heap e = elim (Bool-cases (member (id_of e) ids)) [
    | inl t ↦ rw t refl
    | inr f ↦ rw f refl
  ]

  carry_health-eq :
      (es : List Ref) (heap : ℕ) (addresses : List (Text × Text))
      (by_id by_address : List (Text × Bool))
      → Distinct (map id_of es)
      → Fresh es by_id
      → ((e : Ref) → Memᴰ e es → lookup (id_of e) addresses ≡ some (address_of e))
      → carry_health ids healthy (entries is_healthy es) addresses (by_id, by_address)
        ≡ (by_id ++ entries is_healthy (nexts heap es), address_health (nexts heap es) by_address)
  unfolding carry_health
  carry_health-eq [] heap addresses by_id by_address d fresh known =
      ap₂ (λ x y. (x, y)) (sym (append-nil by_id)) refl
  carry_health-eq (e ∷ es) heap addresses by_id by_address (new, d) fresh known =
      let h = next_health ids healthy (id_of e) (is_healthy e) in
      let added =
        store-new (id_of e) h by_id (fresh (id_of e) (rw (text_eq_refl (id_of e)) refl)) in
      let rest =
        carry_health-eq es (heap + 1) addresses (by_id ++ (id_of e, h) ∷ [])
          (add_address_health (address_of e) h by_address) d (Fresh-append e es h by_id new fresh)
          (λ x m. known x (Memᴰ.tail m)) in
      rw
        (
          known e (Memᴰ.head refl),
          added,
          id_of-next heap e,
          address_of-next heap e,
          is_healthy-next heap e,
          carry_health,
          address_health,
        )
        (rest ∙ ap₂ (λ x y. (x, y)) (append_assoc by_id _ _) refl)

  -- The next snapshot while its endpoints are added, from its four lists.
  abbrev extended : List Ref → EndpointSnapshot → EndpointSnapshot
  extended es next = record next {
    all = next.all ++ es;
    endpoint_by_id = next.endpoint_by_id ++ entries (λ e. e) es;
    healthy = next.healthy ++ keep is_healthy es;
    healthy_endpoint_by_id = next.healthy_endpoint_by_id ++ entries (λ e. e) (keep is_healthy es);
  }

  -- One round of the loop.
  extended_one :
      (e : Ref) (id : Text) (next : EndpointSnapshot) (b : Bool)
      → id_of e ≡ id
      → lookup id next.endpoint_by_id ≡ none
      → lookup id next.healthy_endpoint_by_id ≡ none
      → b ≡ is_healthy e
      → Path EndpointSnapshot
          (record next {
            all = next.all ++ e ∷ [];
            endpoint_by_id = store id e next.endpoint_by_id;
            healthy = append_if b e next.healthy;
            healthy_endpoint_by_id = store_if b id e next.healthy_endpoint_by_id;
          })
          (extended (e ∷ []) next)
  extended_one e id next b named fresh fresh_healthy same =
      rw (same, store-new id e next.endpoint_by_id fresh)
        (elim (Bool-cases (is_healthy e)) [
          | inl t ↦ rw (t, store-new id e next.healthy_endpoint_by_id fresh_healthy, named) refl
          | inr f ↦
              rw (f, append-nil next.healthy, append-nil next.healthy_endpoint_by_id, named) refl
        ])

  extended-extended :
      (e : Ref) (es : List Ref) (next : EndpointSnapshot)
      → extended es (extended (e ∷ []) next) ≡ extended (e ∷ es) next
  extended-extended e es next = elim (Bool-cases (is_healthy e)) [
    | inl t ↦ rw t (simp append_assoc)
    | inr f ↦ rw f (simp (append_assoc, append-nil))
  ]

  carry_endpoints-eq :
      (es : List Ref) (heap : ℕ) (next : EndpointSnapshot)
      → Distinct (map id_of es)
      → Fresh es next.endpoint_by_id
      → Fresh es next.healthy_endpoint_by_id
      → ((e : Ref)
          → Memᴰ e es
          → health_in (id_of e) next.healthy_by_id
            ≡ next_health ids healthy (id_of e) (is_healthy e))
      → carry_endpoints ids healthy es heap next ≡ extended (nexts heap es) next
  unfolding carry_endpoints
  carry_endpoints-eq [] heap next d fresh fresh_healthy known =
      rw
        (
          append-nil next.all,
          append-nil next.endpoint_by_id,
          append-nil next.healthy,
          append-nil next.healthy_endpoint_by_id,
        )
        refl
  carry_endpoints-eq (e ∷ es) heap next (new, d) fresh fresh_healthy known =
      let ne = next_endpoint ids healthy heap e in
      let here : member (id_of e) (map id_of (e ∷ es)) ≡ true = rw (text_eq_refl (id_of e)) refl in
      let step =
        extended_one ne (id_of e) next (health_in (id_of e) next.healthy_by_id) (id_of-next heap e)
          (fresh (id_of e) here) (fresh_healthy (id_of e) here)
          (known e (Memᴰ.head refl) ∙ sym (is_healthy-next heap e)) in
      ap (carry_endpoints ids healthy es (heap + 1)) step
      ∙ carry_endpoints-eq es (heap + 1) (extended (ne ∷ []) next) d
          (rw (id_of-next heap e) (Fresh-append e es ne next.endpoint_by_id new fresh))
          (elim (Bool-cases (is_healthy ne)) [
            | inl t ↦
                rw (t, id_of-next heap e)
                  (Fresh-append e es ne next.healthy_endpoint_by_id new fresh_healthy)
            | inr f ↦
                rw (f, append-nil next.healthy_endpoint_by_id)
                  (λ id m. fresh_healthy id (ground (arith, m)))
          ])
          (λ x m. known x (Memᴰ.tail m))
      ∙ extended-extended ne (nexts (heap + 1) es) next

  entries-nexts {ℓ} :
      {A : Type ℓ} (f g : Ref → A)
      → ((heap : ℕ) (e : Ref) → f (next_endpoint ids healthy heap e) ≡ g e)
      → (heap : ℕ) (es : List Ref) → entries f (nexts heap es) ≡ entries g es
  entries-nexts f g same heap [] = refl
  entries-nexts f g same heap (e ∷ es) =
      rw (id_of-next heap e, same heap e, entries-nexts f g same (heap + 1) es) refl

  ids-nexts : (heap : ℕ) (es : List Ref) → map id_of (nexts heap es) ≡ map id_of es
  ids-nexts heap [] = refl
  ids-nexts heap (e ∷ es) = rw (id_of-next heap e, ids-nexts (heap + 1) es) refl

  values-nexts :
      (heap : ℕ) (es : List Ref)
      → map value_of (nexts heap es) ≡ map (mark ids healthy) (map value_of es)
  values-nexts heap [] = refl
  values-nexts heap (e ∷ es) = rw (value-next heap e, values-nexts (heap + 1) es) refl

  -- What `rebuilt` makes of the endpoints `es`.
  abbrev indexed : List Ref → EndpointSnapshot → EndpointSnapshot
  indexed es s = record s {
    all = es;
    healthy = keep is_healthy es;
    endpoint_by_id = entries (λ e. e) es;
    healthy_endpoint_by_id = entries (λ e. e) (keep is_healthy es);
    healthy_by_id = entries is_healthy es;
    healthy_by_address = address_health es [];
  }

  rebuilt-eq :
      (heap : ℕ) (s : EndpointSnapshot)
      → IsIndexed s
      → rebuilt ids healthy heap s ≡ indexed (nexts heap s.all) s
  rebuilt-eq heap s x =
      let maps =
        carry_health-eq s.all heap s.address_by_id [] [] x.distinct (λ id m. refl)
          (λ e m. rw x.address_by_id_eq (lookup-entries_mem address_of s.all e x.distinct m)) in
      let health =
        entries-nexts is_healthy (λ e. next_health ids healthy (id_of e) (is_healthy e))
          is_healthy-next heap s.all in
      rw (x.healthy_by_id_eq, maps)
        (carry_endpoints-eq s.all heap _ x.distinct (λ id m. refl) (λ id m. refl)
          (λ e m.
            rw
              (
                health,
                lookup-entries_mem (λ e. next_health ids healthy (id_of e) (is_healthy e)) s.all e
                    x.distinct m,
              )
              refl))

  -- The snapshot that is rebuilt is the index of the endpoints with their new marks.
  pub rebuilt-IsIndexed :
      (heap : ℕ) (s : EndpointSnapshot)
      → IsIndexed s
      → IsIndexed (rebuilt ids healthy heap s)
        × (map value_of (rebuilt ids healthy heap s).all
            ≡ map (mark ids healthy) (map value_of s.all))
  rebuilt-IsIndexed heap s x = rw (rebuilt-eq heap s x) (
    record {
      healthy_eq = refl;
      endpoint_by_id_eq = refl;
      healthy_endpoint_by_id_eq = refl;
      address_by_id_eq =
          x.address_by_id_eq ∙ sym (entries-nexts address_of address_of address_of-next heap s.all);
      healthy_by_id_eq = refl;
      healthy_by_address_eq = refl;
      distinct = rw (ids-nexts heap s.all) x.distinct;
    },
    values-nexts heap s.all,
  )
