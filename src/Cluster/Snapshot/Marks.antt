-- ===== src/Cluster/Snapshot/Marks.antt =====
-- What a change of health does to the endpoints that requests see.
use mathlib.Core.List.{Memᴰ}
use dubbo_go_pixiu.Prelude.{
  ℕ, Bool, true, false, not, ◌&&◌, ◌≡◌, refl, Option, none, some, List, [], ◌∷◌, map, any, arith,
  if◌then◌else◌, Bool-cases, Option-cases, inl, inr, ap, ap₂, sym, ◌∙◌,
}
use dubbo_go_pixiu.Prelude.Text.{Text, text_eq, text_eq_iff, text_eq_refl}
use dubbo_go_pixiu.Prelude.Dict.{lookup, is_some}
use dubbo_go_pixiu.Cluster.Address.{get_address}
use dubbo_go_pixiu.Cluster.Endpoint.{Ref, Endpoint, member}
use dubbo_go_pixiu.Cluster.Snapshot.{
  EndpointSnapshot, health_in, is_at, any_changed, rebuilt, with_endpoint_health_for_ids,
  with_endpoint_health, ids_at, with_endpoint_address_health,
}
use dubbo_go_pixiu.Cluster.Snapshot.Index.{
  id_of, address_of, is_healthy, entries, Distinct, IsIndexed,
}
use dubbo_go_pixiu.Cluster.Snapshot.Updates.{
  value_of, mark, member-mem, lookup-entries_mem, rebuilt-IsIndexed,
}

-- The endpoints of a snapshot.
abbrev pub view : EndpointSnapshot → List Endpoint
view s = map value_of s.all

-- The marks of the endpoints that pass a test.
abbrev pub mark_where : (Endpoint → Bool) → Bool → List Endpoint → List Endpoint
mark_where p healthy = map (λ e. if p e then record e { un_healthy = not healthy } else e)

map-values :
    (f g : Endpoint → Endpoint) (es : List Ref)
    → ((e : Ref) → Memᴰ e es → f e.value ≡ g e.value)
    → map f (map value_of es) ≡ map g (map value_of es)
map-values f g [] h = refl
map-values f g (e ∷ es) h =
    ap₂ (λ x y. x ∷ y) (h e (Memᴰ.head refl)) (map-values f g es (λ x m. h x (Memᴰ.tail m)))

map-id : (es : List Endpoint) → map (λ e. e) es ≡ es
map-id [] = refl
map-id (e ∷ es) = ap (λ t. e ∷ t) (map-id es)

not_changed :
    (healthy : Bool) (ids : List Text) (s : EndpointSnapshot) (id : Text)
    → any_changed healthy ids s ≡ false
    → member id ids ≡ true
    → health_in id s.healthy_by_id ≡ healthy
unfolding any_changed
not_changed healthy [] s id h m = cc
not_changed healthy (x ∷ ids) s id h m = elim (Bool-cases (text_eq id x)) [
  | inl t ↦ let same : id ≡ x = (text_eq_iff id x).0 t in rw same (ground (arith, h))
  | inr f ↦ not_changed healthy ids s id (ground (arith, h)) (rw f at m)
]

mark-same :
    (healthy : Bool) (ids : List Text) (s : EndpointSnapshot)
    → IsIndexed s
    → any_changed healthy ids s ≡ false
    → (e : Ref) → Memᴰ e s.all
    → mark ids healthy e.value ≡ e.value
mark-same healthy ids s x h e m = elim (Bool-cases (member (id_of e) ids)) [
  | inl t ↦
      let known : health_in (id_of e) s.healthy_by_id ≡ is_healthy e =
        rw (x.healthy_by_id_eq, lookup-entries_mem is_healthy s.all e x.distinct m) refl in
      let agrees : not healthy ≡ e.value.un_healthy =
        ground (arith, not_changed healthy ids s (id_of e) h t, known) in
      rw (t, agrees) refl
  | inr f ↦ rw f refl
]

pub with_endpoint_health_for_ids-view :
    (ids : List Text) (healthy : Bool) (heap : ℕ) (s next : EndpointSnapshot)
    → IsIndexed s
    → with_endpoint_health_for_ids ids healthy heap s ≡ some next
    → IsIndexed next × (view next ≡ map (mark ids healthy) (view s))
unfolding with_endpoint_health_for_ids
with_endpoint_health_for_ids-view [] healthy heap s next x h = cc
with_endpoint_health_for_ids-view (id ∷ ids) healthy heap s next x h =
    elim (Bool-cases (any_changed healthy (id ∷ ids) s)) [
      | inl t ↦
          let made : some (rebuilt (id ∷ ids) healthy heap s) ≡ some next = rw t at h in
          let same : rebuilt (id ∷ ids) healthy heap s ≡ next = cc in
          rw same at (rebuilt-IsIndexed (id ∷ ids) healthy heap s x)
      | inr f ↦
          let made : some s ≡ some next = rw f at h in
          let same : s ≡ next = cc in
          rw (← same) (
            x,
            sym (
                map-values (mark (id ∷ ids) healthy) (λ e. e) s.all
                  (mark-same healthy (id ∷ ids) s x f)
                ∙ map-id (view s)),
          )
    ]

member-ids_at :
    (address : Text) (es : List Ref) (id : Text)
    → member id (map id_of es) ≡ false
    → member id (ids_at address (entries address_of es)) ≡ false
unfolding ids_at
member-ids_at address [] id h = refl
member-ids_at address (e ∷ es) id h = ground (arith, member-ids_at address es id)

member-ids_at_mem :
    (address : Text) (es : List Ref) (e : Ref)
    → Distinct (map id_of es)
    → Memᴰ e es
    → member (id_of e) (ids_at address (entries address_of es)) ≡ text_eq (address_of e) address
unfolding ids_at
member-ids_at_mem address [] e d m = elim m [ ]
member-ids_at_mem address (x ∷ es) e (fresh, d) (Memᴰ.head same) =
    rw same (ground (arith, text_eq_refl (id_of x), member-ids_at address es (id_of x) fresh))
member-ids_at_mem address (x ∷ es) e (fresh, d) (Memᴰ.tail m) =
    let apart : text_eq (id_of e) (id_of x) ≡ false =
      grind (arith, fresh, member-mem es e m, text_eq_iff (id_of e) (id_of x)) in
    ground (arith, apart, member-ids_at_mem address es e d m)

abbrev pub at_address : Text → Endpoint → Bool
at_address address e = text_eq (get_address e.address) address

-- A check of an address that ends in a verdict marks exactly the endpoints at the address, all of them,
-- and the new snapshot is the index of its endpoints again.
pub with_endpoint_address_health-view :
    (address : Text) (healthy : Bool) (heap : ℕ) (s next : EndpointSnapshot)
    → IsIndexed s
    → with_endpoint_address_health address healthy heap s ≡ some next
    → IsIndexed next × (view next ≡ mark_where (at_address address) healthy (view s))
unfolding with_endpoint_address_health
with_endpoint_address_health-view address healthy heap s next x h =
    let ids = ids_at address s.address_by_id in
    let (y, marks) = with_endpoint_health_for_ids-view ids healthy heap s next x h in
    (
      y,
      marks
          ∙ map-values (mark ids healthy)
              (λ e. if at_address address e then record e { un_healthy = not healthy } else e) s.all
              (λ e m. rw (x.address_by_id_eq, member-ids_at_mem address s.all e x.distinct m) refl),
    )

for_ids-is_some :
    (ids : List Text) (healthy : Bool) (heap : ℕ) (s : EndpointSnapshot)
    → is_some (with_endpoint_health_for_ids ids healthy heap s) ≡ any (λ _. true) ids
unfolding with_endpoint_health_for_ids
for_ids-is_some [] healthy heap s = refl
for_ids-is_some (id ∷ ids) healthy heap s = ground arith

any-ids_at :
    (address : Text) (es : List Ref)
    → any (λ _. true) (ids_at address (entries address_of es))
      ≡ any (at_address address) (map value_of es)
unfolding ids_at
any-ids_at address [] = refl
any-ids_at address (e ∷ es) = ground (arith, any-ids_at address es)

-- The update finds something to do exactly if some endpoint is at the address.
pub with_endpoint_address_health-is_some :
    (address : Text) (healthy : Bool) (heap : ℕ) (s : EndpointSnapshot)
    → IsIndexed s
    → is_some (with_endpoint_address_health address healthy heap s)
      ≡ any (at_address address) (view s)
unfolding with_endpoint_address_health
with_endpoint_address_health-is_some address healthy heap s x =
    for_ids-is_some (ids_at address s.address_by_id) healthy heap s
    ∙ rw x.address_by_id_eq (any-ids_at address s.all)

-- The health of one endpoint, given with its address, is taken only if the snapshot has the endpoint at
-- that address, and then it marks the endpoints of that ID.
pub with_endpoint_health-view :
    (id address : Text) (healthy : Bool) (heap : ℕ) (s next : EndpointSnapshot)
    → IsIndexed s
    → with_endpoint_health id address healthy heap s ≡ some next
    → IsIndexed next
      × (view next ≡ map (mark (id ∷ []) healthy) (view s))
      × (is_at address (lookup id s.address_by_id) ≡ true)
unfolding with_endpoint_health
with_endpoint_health-view id address healthy heap s next x h =
    elim (Bool-cases (is_at address (lookup id s.address_by_id))) [
      | inl t ↦
          let (y, marks) =
            with_endpoint_health_for_ids-view (id ∷ []) healthy heap s next x (rw t at h) in
          (y, marks, t)
      | inr f ↦ cc (rw f at h)
    ]

-- The endpoint of an ID, if it is at the address.
abbrev pub is_endpoint : Text → Text → Endpoint → Bool
is_endpoint id address e = text_eq e.id id && text_eq (get_address e.address) address

-- The endpoints that requests see after an update: those of before if there was nothing to do.
abbrev pub view_after : EndpointSnapshot → Option EndpointSnapshot → List Endpoint
view_after s none = view s
view_after s (some next) = view next

mark_where-none :
    (p : Endpoint → Bool) (healthy : Bool) (es : List Endpoint)
    → any p es ≡ false
    → mark_where p healthy es ≡ es
mark_where-none p healthy [] h = refl
mark_where-none p healthy (e ∷ es) h = elim (Bool-cases (p e)) [
  | inl t ↦ cc (rw t at h)
  | inr f ↦ rw f (ap (λ l. e ∷ l) (mark_where-none p healthy es (rw f at h)))
]

any-is_endpoint :
    (id address : Text) (es : List Ref)
    → member id (map id_of es) ≡ false
    → any (is_endpoint id address) (map value_of es) ≡ false
any-is_endpoint id address [] h = refl
any-is_endpoint id address (e ∷ es) h =
    grind
      (arith, any-is_endpoint id address es, h, text_eq_iff id (id_of e), text_eq_iff (id_of e) id)

is_at-lookup :
    (id address : Text) (es : List Ref)
    → Distinct (map id_of es)
    → is_at address (lookup id (entries address_of es))
      ≡ any (is_endpoint id address) (map value_of es)
is_at-lookup id address [] d = refl
is_at-lookup id address (e ∷ es) (new, d) = elim (Bool-cases (text_eq id (id_of e))) [
  | inl t ↦
      let same : id ≡ id_of e = (text_eq_iff id (id_of e)).0 t in
      let absent = any-is_endpoint id address es (rw same new) in
      rw (t, (text_eq_iff (id_of e) id).1 (sym same), absent) (ground arith)
  | inr f ↦
      let apart : text_eq (id_of e) id ≡ false =
        grind (arith, f, text_eq_iff id (id_of e), text_eq_iff (id_of e) id) in
      rw (f, apart) (is_at-lookup id address es d)
]

for_ids-total :
    (ids : List Text) (healthy : Bool) (heap : ℕ) (s : EndpointSnapshot)
    → IsIndexed s
    → view_after s (with_endpoint_health_for_ids ids healthy heap s)
      ≡ map (mark ids healthy) (view s)
unfolding with_endpoint_health_for_ids
for_ids-total [] healthy heap s x = sym (map-id (view s))
for_ids-total (id ∷ ids) healthy heap s x =
    elim (Option-cases (with_endpoint_health_for_ids (id ∷ ids) healthy heap s)) [
      | inl nothing ↦ cc (for_ids-is_some (id ∷ ids) healthy heap s, nothing)
      | inr (next, found) ↦
          ap (view_after s) found
          ∙ (with_endpoint_health_for_ids-view (id ∷ ids) healthy heap s next x found).1
    ]

-- What an update by ID and address does and answers, whether or not there is such an endpoint.
pub with_endpoint_health-total :
    (id address : Text) (healthy : Bool) (heap : ℕ) (s : EndpointSnapshot)
    → IsIndexed s
    → (view_after s (with_endpoint_health id address healthy heap s)
        ≡ mark_where (is_endpoint id address) healthy (view s))
      × (is_some (with_endpoint_health id address healthy heap s)
          ≡ any (is_endpoint id address) (view s))
unfolding with_endpoint_health
with_endpoint_health-total id address healthy heap s x =
    let found : is_at address (lookup id s.address_by_id) ≡ any (is_endpoint id address) (view s) =
      rw x.address_by_id_eq (is_at-lookup id address s.all x.distinct) in
    elim (Bool-cases (is_at address (lookup id s.address_by_id))) [
      | inl t ↦
          rw (t, with_endpoint_health)
            (
              for_ids-total (id ∷ []) healthy heap s x
                  ∙ map-values (mark (id ∷ []) healthy)
                      (λ e.
                        if is_endpoint id address e
                        then record e { un_healthy = not healthy }
                        else e)
                      s.all (λ e m. mark-found e m t),
              for_ids-is_some (id ∷ []) healthy heap s ∙ sym t ∙ found,
            )
      | inr f ↦
          rw (f, with_endpoint_health)
            (
              sym (mark_where-none (is_endpoint id address) healthy (view s) (sym found ∙ f)),
              sym f ∙ found,
            )
    ]
  where
    mark-found :
        (e : Ref)
        → Memᴰ e s.all
        → is_at address (lookup id s.address_by_id) ≡ true
        → mark (id ∷ []) healthy e.value ≡ (
            if is_endpoint id address e.value
            then record e.value { un_healthy = not healthy }
            else e.value)
    mark-found e m t = elim (Bool-cases (text_eq (id_of e) id)) [
      | inl t' ↦
          let same : id_of e ≡ id = (text_eq_iff (id_of e) id).0 t' in
          let known : lookup id s.address_by_id ≡ some (address_of e) =
            rw (x.address_by_id_eq, ← same) (lookup-entries_mem address_of s.all e x.distinct m) in
          let there : text_eq (address_of e) address ≡ true = rw known at t in rw (t', there) refl
      | inr f ↦ rw f refl
    ]

-- What an update by address does and answers.
pub with_endpoint_address_health-total :
    (address : Text) (healthy : Bool) (heap : ℕ) (s : EndpointSnapshot)
    → IsIndexed s
    → (view_after s (with_endpoint_address_health address healthy heap s)
        ≡ mark_where (at_address address) healthy (view s))
      × (is_some (with_endpoint_address_health address healthy heap s)
          ≡ any (at_address address) (view s))
unfolding with_endpoint_address_health
with_endpoint_address_health-total address healthy heap s x = (
  for_ids-total (ids_at address s.address_by_id) healthy heap s x
      ∙ map-values (mark (ids_at address s.address_by_id) healthy)
          (λ e. if at_address address e then record e { un_healthy = not healthy } else e) s.all
          (λ e m. rw (x.address_by_id_eq, member-ids_at_mem address s.all e x.distinct m) refl),
  with_endpoint_address_health-is_some address healthy heap s x,
)
