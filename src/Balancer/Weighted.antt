-- ===== src/Balancer/Weighted.antt =====
-- The share of the random numbers that each endpoint has by its weight.
use dubbo_go_pixiu.Prelude.{
  ℕ, zero, suc, ◌+◌, ◌≤◌, ◌<◌, false, ◌≡◌, Option, some, List, [], ◌∷◌, arith, get_elem?, ◌||◌,
  ◌==◌,
}
use dubbo_go_pixiu.Prelude.Int.{ℤ}
use dubbo_go_pixiu.Prelude.Text.{Text}
use dubbo_go_pixiu.Cluster.Endpoint.{Ref}
use dubbo_go_pixiu.Balancer.Strategies.{
  weight_of, total_weight, find_weighted, pick_weighted, weight_random_handler, int_max, add64,
  is_negative64,
}

module _ (atoi : Text → Option ℤ) where
  -- The weights of the endpoints before position `i`, with nothing wrapped.
  abbrev pub weight_before : ℕ → List Ref → ℕ
  weight_before i [] = 0
  weight_before zero (r ∷ rs) = 0
  weight_before (suc i) (r ∷ rs) = weight_of atoi r + weight_before i rs

  abbrev pub weights : List Ref → ℕ
  weights [] = 0
  weights (r ∷ rs) = weight_of atoi r + weights rs

  total_weight-eq :
      (total : ℕ) (rs : List Ref)
      → total + weights rs < int_max
      → total_weight atoi total rs ≡ total + weights rs
  unfolding total_weight
  total_weight-eq total [] h = omega arith
  total_weight-eq total (r ∷ rs) h =
      let same : add64 total (weight_of atoi r) ≡ total + weight_of atoi r = omega arith in
      rw same (omega (arith, total_weight-eq (total + weight_of atoi r) rs (omega arith)))

  find_weighted-at :
      (first : Option Ref) (number current : ℕ) (rs : List Ref) (i : ℕ) {r : Ref}
      → current + weights rs < int_max
      → get_elem? rs i ≡ some r
      → current + weight_before i rs ≤ number
      → number < current + weight_before i rs + weight_of atoi r
      → find_weighted atoi first number current rs ≡ some r
  unfolding find_weighted
  find_weighted-at first number current [] i bound found low high = cc
  find_weighted-at first number current (x ∷ rs) zero bound found low high = ground arith
  find_weighted-at first number current (x ∷ rs) (suc i) bound found low high =
      let same : add64 current (weight_of atoi x) ≡ current + weight_of atoi x = omega arith in
      let rest =
        find_weighted-at first number (current + weight_of atoi x) rs i (omega arith) found
          (omega arith) (omega arith) in
      ground arith

  weight_before-le :
      (rs : List Ref) (i : ℕ) {r : Ref}
      → get_elem? rs i ≡ some r
      → weight_before i rs + weight_of atoi r ≤ weights rs
  weight_before-le [] i found = cc
  weight_before-le (x ∷ rs) zero found = ground arith
  weight_before-le (x ∷ rs) (suc i) found = omega (arith, weight_before-le rs i found)

  pick_weighted-at :
      (intn : ℕ → ℕ) (x : Ref) (rs : List Ref) (i : ℕ) {r : Ref}
      → weights (x ∷ rs) < int_max
      → get_elem? (x ∷ rs) i ≡ some r
      → weight_before i (x ∷ rs) ≤ intn (weights (x ∷ rs))
      → intn (weights (x ∷ rs)) < weight_before i (x ∷ rs) + weight_of atoi r
      → pick_weighted atoi intn (weights (x ∷ rs)) x rs ≡ some r
  unfolding pick_weighted
  pick_weighted-at intn x rs i bound found low high =
      let room = weight_before-le (x ∷ rs) i found in
      let positive : ((weights (x ∷ rs) == 0) || is_negative64 (weights (x ∷ rs))) ≡ false =
        ground arith in
      rw positive (
        find_weighted-at (some x) (intn (weights (x ∷ rs))) 0 (x ∷ rs) i (omega arith) found
          (omega arith) (omega arith))

  -- An endpoint is picked for as many of the random numbers below the total as its weight says: those
  -- from the sum of the weights before it on. The weights must not overflow an int.
  pub weight_random_handler_share :
      (intn : ℕ → ℕ) (rs : List Ref) (i : ℕ) (r : Ref)
      → weights rs < int_max
      → get_elem? rs i ≡ some r
      → weight_before i rs ≤ intn (weights rs)
      → intn (weights rs) < weight_before i rs + weight_of atoi r
      → weight_random_handler atoi intn rs ≡ some r
  unfolding weight_random_handler
  weight_random_handler_share intn [] i r bound found low high = cc
  weight_random_handler_share intn (x ∷ rs) i r bound found low high =
      let total : total_weight atoi 0 (x ∷ rs) ≡ weights (x ∷ rs) =
        omega (arith, total_weight-eq 0 (x ∷ rs) (omega arith)) in
      rw total (pick_weighted-at intn x rs i bound found low high)
