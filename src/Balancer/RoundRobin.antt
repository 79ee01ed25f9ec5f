-- ===== src/Balancer/RoundRobin.antt =====
-- The turns of the round robin.
use dubbo_go_pixiu.Prelude.{
  ℕ, zero, suc, ◌+◌, ◌-◌, ◌*◌, ◌/◌, ◌%◌, ◌≤◌, ◌<◌, ◌≡◌, refl, inl, inr, Option, some, List, [], ◌∷◌,
  arith, length, get_elem?, ◌∙◌, leb, Bool-cases,
}
use native.Mathlib.Nat.{div-add-mod, mul-add-mod_self_left, mod-eq_of_lt, mod-lt, add-mod_right}
use dubbo_go_pixiu.Cluster.Endpoint.{Ref}
use dubbo_go_pixiu.Balancer.Strategies.{Cursors, advance, round_robin_handler}

-- The cursors after `k` requests.
unfoldable pub after_turns : ℕ → List Ref → Cursors → Cursors
after_turns zero endpoints c = c
after_turns (suc k) endpoints c = (round_robin_handler endpoints (after_turns k endpoints c)).1

-- What the request after `k` others is given.
unfoldable pub turn : ℕ → List Ref → Cursors → Option Ref
turn k endpoints c = (round_robin_handler endpoints (after_turns k endpoints c)).0

-- The cursor that is read.
unfoldable pub cursor : Cursors → ℕ
unfolding advance
cursor c = (advance c).0

get_elem?-lt {ℓ} :
    {A : Type ℓ} (xs : List A) (i : ℕ) → i < length xs → (x : A) × (get_elem? xs i ≡ some x)
get_elem?-lt [] i h = elim h [ ]
get_elem?-lt (x ∷ xs) zero h = (x, refl)
get_elem?-lt (x ∷ xs) (suc i) h = get_elem?-lt xs i (omega arith)

cursor-advance : (c : Cursors) → cursor (advance c).1 ≡ (cursor c + 1) % 4294967296
unfolding advance cursor
cursor-advance c = ground arith

cursor-after_turns :
    (k : ℕ) (e : Ref) (es : List Ref) (c : Cursors)
    → cursor c < 4294967296
    → cursor (after_turns k (e ∷ es) c) ≡ (cursor c + k) % 4294967296
unfolding after_turns round_robin_handler cursor
cursor-after_turns zero e es c h = omega arith
cursor-after_turns (suc k) e es c h =
    omega (arith, cursor-advance (after_turns k (e ∷ es) c), cursor-after_turns k e es c h)

-- Position `i` has its turn within the next `n` steps of a cursor.
turn_comes : (n s i : ℕ) → i < n → (k : ℕ) × (k < n) × ((s + k) % n ≡ i)
turn_comes n s i h =
    let parts = div-add-mod s n in
    let below = mod-lt s (let p : 0 < n = omega arith in p) in
    let shifted = mul-add-mod_self_left n (s / n) i in
    let small = mod-eq_of_lt h in
    elim (Bool-cases (leb (s % n) i)) [
      | inl le ↦
          let e : s + (i - s % n) ≡ n * (s / n) + i = ground arith in
          (i - s % n, ground arith, rw e (shifted ∙ small))
      | inr gt ↦
          let e : s + (i + n - s % n) ≡ n * (s / n) + i + n = ground arith in
          (i + n - s % n, ground arith, rw e (add-mod_right (n * (s / n) + i) n ∙ shifted ∙ small))
    ]

-- No request is left without an endpoint while there is one, wherever the cursor is.
pub turn-some :
    (k : ℕ) (e : Ref) (es : List Ref) (c : Cursors) → (r : Ref) × (turn k (e ∷ es) c ≡ some r)
unfolding turn round_robin_handler
turn-some k e es c =
    get_elem?-lt (e ∷ es) ((advance (after_turns k (e ∷ es) c)).0 % length (e ∷ es))
      (mod-lt _ (omega arith))

-- Over as many requests as there are endpoints, each endpoint has its turn, as long as the cursor does
-- not wrap at 2^32 meanwhile.
pub turn-each :
    (e : Ref) (es : List Ref) (c : Cursors) (i : ℕ)
    → i < length (e ∷ es)
    → cursor c + length (e ∷ es) ≤ 4294967296
    → (k : ℕ) × (k < length (e ∷ es)) × (turn k (e ∷ es) c ≡ get_elem? (e ∷ es) i)
unfolding turn round_robin_handler cursor
turn-each e es c i lt room =
    let (k, below, comes) = turn_comes (length (e ∷ es)) (cursor c) i lt in
    let read = cursor-after_turns k e es c (omega arith) in
    let same : cursor (after_turns k (e ∷ es) c) ≡ cursor c + k = omega arith in
    (k, below, rw (same, comes))
