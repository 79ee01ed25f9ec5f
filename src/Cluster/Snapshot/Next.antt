-- ===== src/Cluster/Snapshot/Next.antt =====
-- `NextHealthyEndpoint` as a caller that falls back from endpoint to endpoint uses it.
use mathlib.Core.List.{Memᴰ}
use dubbo_go_pixiu.Prelude.{
  ℕ, zero, suc, ◌≤◌, Bool, true, false, ◌≡◌, refl, Option, none, some, List, [], ◌∷◌, ◌++◌, map,
  find?, keep, length, arith, Bool-cases, Option-cases, inl, inr, ap, sym, ◌∙◌, append_assoc,
}
use dubbo_go_pixiu.Prelude.Text.{Text, text_eq, text_eq_iff, text_eq_refl}
use dubbo_go_pixiu.Cluster.Endpoint.{Ref, Endpoint, member}
use dubbo_go_pixiu.Cluster.Snapshot.{
  EndpointSnapshot, health_in, endpoints_behind, next_healthy_endpoint,
}
use dubbo_go_pixiu.Cluster.Snapshot.Index.{id_of, is_healthy, Distinct, IsIndexed}
use dubbo_go_pixiu.Cluster.Snapshot.Updates.{value_of, lookup-entries_mem}

-- The endpoints that a caller meets which asks for the next healthy endpoint of the one it has, `fuel`
-- times at most.
unfoldable pub tour : ℕ → Text → EndpointSnapshot → List Endpoint
tour zero id s = []
tour (suc fuel) id s = elim (next_healthy_endpoint id s) [
  | none ↦ []
  | some e ↦ e ∷ tour fuel e.id s
]

-- The test of `NextHealthyEndpoint`.
abbrev healthy_in : EndpointSnapshot → Ref → Bool
healthy_in s e = health_in e.value.id s.healthy_by_id

Memᴰ-after : (es : List Ref) (e : Ref) (rest : List Ref) → Memᴰ e (es ++ e ∷ rest)
Memᴰ-after [] e rest = Memᴰ.head refl
Memᴰ-after (x ∷ es) e rest = Memᴰ.tail (Memᴰ-after es e rest)

member-after :
    (es : List Ref) (e : Ref) (rest : List Ref)
    → member (id_of e) (map id_of (es ++ e ∷ rest)) ≡ true
member-after [] e rest = rw (text_eq_refl (id_of e)) refl
member-after (x ∷ es) e rest = ground (arith, member-after es e rest)

endpoints_behind-split :
    (es : List Ref) (e : Ref) (rest : List Ref)
    → Distinct (map id_of (es ++ e ∷ rest))
    → endpoints_behind (id_of e) (es ++ e ∷ rest) ≡ rest
unfolding endpoints_behind
endpoints_behind-split [] e rest d = rw (text_eq_refl (id_of e)) refl
endpoints_behind-split (x ∷ es) e rest (new, d) =
    let apart : text_eq (id_of x) (id_of e) ≡ false =
      grind (arith, new, member-after es e rest, text_eq_iff (id_of x) (id_of e)) in
    rw apart (endpoints_behind-split es e rest d)

health-known :
    (s : EndpointSnapshot) (e : Ref) → IsIndexed s → Memᴰ e s.all → healthy_in s e ≡ is_healthy e
health-known s e x m =
    rw (x.healthy_by_id_eq, lookup-entries_mem is_healthy s.all e x.distinct m) refl

abbrev from_found : ℕ → EndpointSnapshot → Option Ref → List Endpoint
from_found fuel s none = []
from_found fuel s (some e) = e.value ∷ tour fuel e.value.id s

tour-suc :
    (fuel : ℕ) (id : Text) (s : EndpointSnapshot)
    → tour (suc fuel) id s ≡ from_found fuel s (find? (healthy_in s) (endpoints_behind id s.all))
unfolding tour next_healthy_endpoint
tour-suc fuel id s = elim (Option-cases (find? (healthy_in s) (endpoints_behind id s.all))) [
  | inl missing ↦ rw (missing, tour, next_healthy_endpoint) refl
  | inr (e, found) ↦ rw (found, tour, next_healthy_endpoint) refl
]

-- What the tour does from the endpoints `rest` on, which end the list of all endpoints.
from_rest :
    (s : EndpointSnapshot) (before rest : List Ref) (fuel : ℕ)
    → IsIndexed s
    → s.all ≡ before ++ rest
    → length rest ≤ fuel
    → from_found fuel s (find? (healthy_in s) rest) ≡ map value_of (keep is_healthy rest)
from_rest s before [] fuel x split enough = refl
from_rest s before (e ∷ rest) zero x split enough = ground (arith, enough)
from_rest s before (e ∷ rest) (suc fuel) x split enough =
    let longer : s.all ≡ (before ++ e ∷ []) ++ rest =
      split ∙ sym (append_assoc before (e ∷ []) rest) in
    let known = health-known s e x (rw split (Memᴰ-after before e rest)) in
    elim (Bool-cases (is_healthy e)) [
      | inl t ↦
          let behind : endpoints_behind (id_of e) s.all ≡ rest =
            rw split (endpoints_behind-split before e rest (rw split at x.distinct)) in
          let goes_on =
            rw behind at (tour-suc fuel (id_of e) s)
            ∙ from_rest s (before ++ e ∷ []) rest fuel x longer (omega (arith, enough)) in
          rw (known, t) (ap (λ l. e.value ∷ l) goes_on)
      | inr f ↦
          rw (known, f)
            (from_rest s (before ++ e ∷ []) rest (suc fuel) x longer (omega (arith, enough)))
    ]

endpoints_behind-IsSuffix :
    (id : Text) (es : List Ref)
    → (before : List Ref) × (es ≡ before ++ endpoints_behind id es)
      × (length (endpoints_behind id es) ≤ length es)
unfolding endpoints_behind
endpoints_behind-IsSuffix id [] = ([], refl, omega arith)
endpoints_behind-IsSuffix id (e ∷ es) = elim (Bool-cases (text_eq (id_of e) id)) [
  | inl t ↦ rw t (e ∷ [], refl, omega arith)
  | inr f ↦
      let (before, split, short) = endpoints_behind-IsSuffix id es in
      rw f (e ∷ before, ap (λ l. e ∷ l) split, omega (arith, short))
]

-- A caller that has an endpoint and asks again and again for the next healthy one meets every healthy
-- endpoint behind it exactly once, in the order of the configuration, and then none; it asks once more
-- than the cluster has endpoints at most.
pub tour_eq :
    (s : EndpointSnapshot) (id : Text)
    → IsIndexed s
    → tour (suc (length s.all)) id s ≡ map value_of (keep is_healthy (endpoints_behind id s.all))
tour_eq s id x =
    let (before, split, short) = endpoints_behind-IsSuffix id s.all in
    tour-suc (length s.all) id s
    ∙ from_rest s before (endpoints_behind id s.all) (length s.all) x split short
