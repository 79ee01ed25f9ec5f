-- ===== src/Cluster/Runtime/Picks.antt =====
-- pkg/server/cluster_manager.go: the operations of a request on the runtime of a cluster. The copy that
-- `DeepCopy` makes, the balancer and the cursor and the consistent hash that it reads are parameters.
use mathlib.Core.List.{Memᴰ}
use dubbo_go_pixiu.Prelude.{
  Bool, true, false, ◌≡◌, refl, Option, none, some, List, [], ◌∷◌, map, find?, keep, any, arith,
  if◌then◌else◌, Bool-cases, inl, inr, ap, sym, ◌∙◌, subst,
}
use dubbo_go_pixiu.Prelude.Text.{Text, text_eq, text_eq_iff}
use dubbo_go_pixiu.Prelude.Dict.{lookup, or_default}
use dubbo_go_pixiu.Cluster.Address.{get_address}
use dubbo_go_pixiu.Cluster.Endpoint.{Ref, Endpoint, member}
use dubbo_go_pixiu.Cluster.Snapshot.{
  EndpointSnapshot, endpoint_by_id_of, healthy_endpoint_by_id_for_pick,
}
use dubbo_go_pixiu.Cluster.Snapshot.Index.{
  Distinct, member-keep, lookup-entries, id_of, is_healthy, entries, IsIndexed,
}
use dubbo_go_pixiu.Cluster.Snapshot.Updates.{value_of, member-mem, lookup-entries_mem}
use dubbo_go_pixiu.Cluster.Snapshot.Marks.{view}
use dubbo_go_pixiu.Cluster.Runtime.{RuntimeCluster}
use dubbo_go_pixiu.Cluster.Runtime.Invariant.{current-IsIndexed, Reach, Reach-IsRunning}
use dubbo_go_pixiu.Balancer.Recheck.{PickContext, clone, pick_endpoint}
use dubbo_go_pixiu.Balancer.RecheckLaws
use dubbo_go_pixiu.Balancer.RecheckLaws.{has_id, pick_endpoint_healthy}

-- The context of `pickOneEndpoint`. The flag is `NeedsAllEndpoints` of the balancer.
unfoldable pub pick_context : Bool → RuntimeCluster → EndpointSnapshot → PickContext
pick_context needs_all c s = record {
  config = some c.config;
  all_endpoints = if needs_all then some s.all else none;
  healthy_endpoints = s.healthy;
  healthy_by_id = some (λ id. healthy_endpoint_by_id_for_pick id s);
}

-- The early return where no endpoint is healthy.
abbrev pub if_any : List Ref → Option Endpoint → Option Endpoint
if_any [] o = none
if_any (_ ∷ _) o = o

-- `pickOneEndpoint`, with the snapshot that the runtime has published.
unfoldable pub pick_one_endpoint :
    (Ref → Ref) → Bool → Bool → (PickContext → Option Ref) → RuntimeCluster → Option Endpoint
pick_one_endpoint copy zero_copy needs_all handler c = elim c.endpoints [
  | none ↦ none
  | some s ↦
      if_any s.healthy (pick_endpoint copy zero_copy (some handler) (pick_context needs_all c s))
]

-- `GetAnyEndpointByID` and `GetHealthyEndpointByID`, of a runtime that is there.
unfoldable pub get_any_endpoint_by_id : Text → RuntimeCluster → Option Endpoint
get_any_endpoint_by_id id c = elim c.endpoints [
  | none ↦ none
  | some s ↦ clone (endpoint_by_id_of id s)
]

unfoldable pub get_healthy_endpoint_by_id : Text → RuntimeCluster → Option Endpoint
get_healthy_endpoint_by_id id c = elim c.endpoints [
  | none ↦ none
  | some s ↦ clone (healthy_endpoint_by_id_for_pick id s)
]

-- `HasEndpointAddress`.
unfoldable pub has_endpoint_address : Text → RuntimeCluster → Bool
has_endpoint_address address c = elim c.endpoints [
  | none ↦ false
  | some s ↦ any (λ e. text_eq (get_address e.value.address) address) s.all
]

lookup-find : (id : Text) (es : List Ref) → lookup id (entries (λ e. e) es) ≡ find? (has_id id) es
lookup-find id [] = refl
lookup-find id (e ∷ es) = elim (Bool-cases (text_eq id (id_of e))) [
  | inl t ↦ rw (t, (text_eq_iff (id_of e) id).1 (sym ((text_eq_iff id (id_of e)).0 t))) refl
  | inr f ↦
      let apart : text_eq (id_of e) id ≡ false =
        grind (arith, f, text_eq_iff id (id_of e), text_eq_iff (id_of e) id) in
      rw (f, apart) (lookup-find id es)
]

Memᴰ-keep_cons :
    (p : Ref → Bool) (x e : Ref) (es : List Ref)
    → p x ≡ true
    → (Memᴰ e (keep p es) → Memᴰ e es × (p e ≡ true))
    → Memᴰ e (x ∷ keep p es)
    → Memᴰ e (x ∷ es) × (p e ≡ true)
Memᴰ-keep_cons p x e es t ih (Memᴰ.head same) = (Memᴰ.head same, rw same t)
Memᴰ-keep_cons p x e es t ih (Memᴰ.tail m) = let (old, h) = ih m in (Memᴰ.tail old, h)

Memᴰ-keep :
    (p : Ref → Bool) (es : List Ref) (e : Ref) → Memᴰ e (keep p es) → Memᴰ e es × (p e ≡ true)
Memᴰ-keep p [] e m = elim m [ ]
Memᴰ-keep p (x ∷ es) e m = elim (Bool-cases (p x)) [
  | inl t ↦ Memᴰ-keep_cons p x e es t (Memᴰ-keep p es e) (rw t at m)
  | inr f ↦ let (old, h) = Memᴰ-keep p es e (rw f at m) in (Memᴰ.tail old, h)
]

Memᴰ-value : (es : List Ref) (r : Ref) → Memᴰ r es → Memᴰ r.value (map value_of es)
Memᴰ-value [] r m = elim m [ ]
Memᴰ-value (x ∷ es) r (Memᴰ.head same) = Memᴰ.head (ap value_of same)
Memᴰ-value (x ∷ es) r (Memᴰ.tail m) = Memᴰ.tail (Memᴰ-value es r m)

not_un_healthy : (r : Ref) → is_healthy r ≡ true → r.value.un_healthy ≡ false
not_un_healthy r h = ground (arith, h)

if_any-some :
    (es : List Ref) (o : Option Endpoint) {e : Endpoint} → if_any es o ≡ some e → o ≡ some e
if_any-some [] o h = cc
if_any-some (_ ∷ _) o h = h

-- The index by ID that a pick gets from a snapshot is that of the healthy endpoints it gets.
pick_context-IsIndexed :
    (needs_all : Bool) (c : RuntimeCluster) (s : EndpointSnapshot)
    → IsIndexed s
    → RecheckLaws.IsIndexed (pick_context needs_all c s)
unfolding pick_context healthy_endpoint_by_id_for_pick
pick_context-IsIndexed needs_all c s x index given id =
    ap (λ (o : Option (Text → Option Ref)). or_default {A = Text → Option Ref} (λ _. none) o id)
      (sym given)
    ∙ rw x.healthy_endpoint_by_id_eq (lookup-find id s.healthy)

-- Whatever the balancer does, an endpoint that a runtime that can be reached gives to a request is one of
-- its endpoints, and it is marked healthy.
pub pick_one_endpoint_healthy :
    (digest : Text → Text) (copy : Ref → Ref) (zero_copy needs_all : Bool)
    (handler : PickContext → Option Ref) (c : RuntimeCluster) (e : Endpoint)
    → Reach digest c
    → pick_one_endpoint copy zero_copy needs_all handler c ≡ some e
    → (s : EndpointSnapshot) × (c.endpoints ≡ some s) × Memᴰ e (view s) × (e.un_healthy ≡ false)
unfolding pick_one_endpoint pick_context
pick_one_endpoint_healthy digest copy zero_copy needs_all handler c e reached h =
    let (s, current, x) = Reach-IsRunning digest c reached in
    let context = pick_context needs_all c s in
    let picked : pick_endpoint copy zero_copy (some handler) context ≡ some e =
      if_any-some s.healthy _ (rw (current, pick_one_endpoint) at h) in
    let (r, m, same) =
      pick_endpoint_healthy copy zero_copy (some handler) context e
        (pick_context-IsIndexed needs_all c s x) picked in
    let (old, healthy) = Memᴰ-keep is_healthy s.all r (from_context s x m) in
    (
      s,
      current,
      subst (λ v. Memᴰ v (view s)) same (Memᴰ-value s.all r old),
      ap (λ (v : Endpoint). v.un_healthy) (sym same) ∙ not_un_healthy r healthy,
    )
  where
    from_context :
        {r : Ref} (s : EndpointSnapshot)
        → IsIndexed s
        → Memᴰ r (pick_context needs_all c s).healthy_endpoints
        → Memᴰ r (keep is_healthy s.all)
    from_context s x m = rw x.healthy_eq at m

Distinct-keep :
    (p : Ref → Bool) (es : List Ref) → Distinct (map id_of es) → Distinct (map id_of (keep p es))
Distinct-keep p [] d = tt
Distinct-keep p (e ∷ es) (new, d) = elim (Bool-cases (p e)) [
  | inl t ↦ rw t (member-keep p es (id_of e) new, Distinct-keep p es d)
  | inr f ↦ rw f (Distinct-keep p es d)
]

Memᴰ-kept : (p : Ref → Bool) (es : List Ref) (e : Ref) → Memᴰ e es → p e ≡ true → Memᴰ e (keep p es)
Memᴰ-kept p [] e m t = elim m [ ]
Memᴰ-kept p (x ∷ es) e (Memᴰ.head same) t = rw (← same, t) (Memᴰ.head refl)
Memᴰ-kept p (x ∷ es) e (Memᴰ.tail m) t = elim (Bool-cases (p x)) [
  | inl u ↦ rw u (Memᴰ.tail (Memᴰ-kept p es e m t))
  | inr v ↦ rw v (Memᴰ-kept p es e m t)
]

-- An endpoint that is dropped takes its ID with it.
member-dropped :
    (p : Ref → Bool) (es : List Ref) (e : Ref)
    → Distinct (map id_of es)
    → Memᴰ e es
    → p e ≡ false
    → member (id_of e) (map id_of (keep p es)) ≡ false
member-dropped p [] e d m f = elim m [ ]
member-dropped p (x ∷ es) e (new, d) (Memᴰ.head same) f =
    rw (same, rw same at f) (member-keep p es (id_of x) new)
member-dropped p (x ∷ es) e (new, d) (Memᴰ.tail m) f =
    let apart : text_eq (id_of e) (id_of x) ≡ false =
      grind (arith, new, member-mem es e m, text_eq_iff (id_of e) (id_of x)) in
    ground (arith, apart, member-dropped p es e d m f)

unless : (b : Bool) (o : Option Endpoint) → b ≡ false → (if b then none else o) ≡ o
unless b o f = rw f refl

-- In a runtime that can be reached, each endpoint is found by its ID, and by its ID among the healthy ones
-- exactly if it is not marked unhealthy.
pub get_endpoint_by_id_found :
    (digest : Text → Text) (c : RuntimeCluster) (s : EndpointSnapshot) (r : Ref)
    → Reach digest c
    → c.endpoints ≡ some s
    → Memᴰ r s.all
    → (get_any_endpoint_by_id r.value.id c ≡ some r.value)
      × (get_healthy_endpoint_by_id r.value.id c
          ≡ (if r.value.un_healthy then none else some r.value))
unfolding get_any_endpoint_by_id get_healthy_endpoint_by_id endpoint_by_id_of
    healthy_endpoint_by_id_for_pick
get_endpoint_by_id_found digest c s r reached current m =
    let x = current-IsIndexed c s (Reach-IsRunning digest c reached) current in
    (
      rw (current, x.endpoint_by_id_eq, lookup-entries_mem (λ e. e) s.all r x.distinct m) refl,
      rw (current, x.healthy_endpoint_by_id_eq, x.healthy_eq)
          (elim (Bool-cases r.value.un_healthy) [
            | inl t ↦
                let gone = member-dropped is_healthy s.all r x.distinct m (rw t refl) in
                rw (t, lookup-entries (λ e. e) (keep is_healthy s.all) (id_of r) gone) refl
            | inr f ↦
                let kept = Memᴰ-kept is_healthy s.all r m (rw f refl) in
                ap clone (
                  lookup-entries_mem (λ e. e) (keep is_healthy s.all) r
                    (Distinct-keep is_healthy s.all x.distinct) kept)
                ∙ sym (unless r.value.un_healthy (some r.value) f)
          ]),
    )
