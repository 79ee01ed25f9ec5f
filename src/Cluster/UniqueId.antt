-- ===== src/Cluster/UniqueId.antt =====
-- `StableUniqueEndpointID` always finds an ID, and a fresh one.
use dubbo_go_pixiu.Prelude.{
  ℕ, zero, suc, ◌+◌, ◌<◌, ◌≤◌, true, false, ◌≡◌, ◌≢◌, List, [], ◌∷◌, length, if◌then◌else◌, arith,
  Option, none, some, Bool-cases, inl, inr, Option-cases,
}
use dubbo_go_pixiu.Prelude.Text.{Text, text_eq, text_eq_iff}
use dubbo_go_pixiu.Prelude.Decimal.{itoa, itoa-injective}
use dubbo_go_pixiu.Cluster.Endpoint.{
  Endpoint, member, candidate_id, unique_from, base_id, stable_unique_endpoint_id,
}
use dubbo_go_pixiu.Cluster.Identity.{prefix-injective}
use native.Mathlib.Nat.{add-zero}

candidate_id-injective : (base : Text) (i j : ℕ) → candidate_id base i ≡ candidate_id base j → i ≡ j
unfolding candidate_id
candidate_id-injective base i j e =
    itoa-injective i j (cc (prefix-injective base {u = b'-' ∷ itoa i} {v = b'-' ∷ itoa j} e))

-- A set without one of its entries.
without : Text → List Text → List Text
without x [] = []
without x (y ∷ ys) = if text_eq x y then without x ys else y ∷ without x ys

length-without-le : (x : Text) (ys : List Text) → length (without x ys) ≤ length ys
unfolding without
length-without-le x [] = omega arith
length-without-le x (y ∷ ys) = ground (arith, length-without-le x ys)

length-without-lt :
    (x : Text) (ys : List Text) → member x ys ≡ true → length (without x ys) < length ys
unfolding without
length-without-lt x [] h = cc
length-without-lt x (y ∷ ys) h = ground (arith, length-without-le x ys, length-without-lt x ys)

member-without :
    (x z : Text) (ys : List Text) → x ≢ z → member z ys ≡ true → member z (without x ys) ≡ true
unfolding without
member-without x z [] ne h = cc
member-without x z (y ∷ ys) ne h =
    ground (arith, text_eq_iff x y, text_eq_iff z y, member-without x z ys ne)

-- As many different candidates as there are rounds cannot all be taken by fewer entries.
pigeonhole :
    (rounds : ℕ) (base : Text) (suffix : ℕ) (taken : List Text)
    → ((i : ℕ) → i < rounds → member (candidate_id base (suffix + i)) taken ≡ true)
    → rounds ≤ length taken
pigeonhole zero base suffix taken h = omega arith
pigeonhole (suc rounds) base suffix taken h =
    let first : member (candidate_id base suffix) taken ≡ true =
      rw (add-zero suffix) at (h 0 (omega arith)) in
    let others =
      pigeonhole rounds base (suffix + 1) (without (candidate_id base suffix) taken) (λ i hi.
        member-without (candidate_id base suffix) (candidate_id base (suffix + 1 + i)) taken
          (λ same.
            let eq : suffix ≡ suffix + 1 + i =
              candidate_id-injective base suffix (suffix + 1 + i) same in
            absurd (omega arith))
          (let e : suffix + suc i ≡ suffix + 1 + i = omega arith in
            rw e at (h (suc i) (omega arith)))) in
    omega (arith, length-without-lt (candidate_id base suffix) taken first)

unique_from-eq-none :
    (fuel : ℕ) (base : Text) (suffix : ℕ) (taken : List Text) (i : ℕ)
    → unique_from fuel base suffix taken ≡ none
    → i < fuel
    → member (candidate_id base (suffix + i)) taken ≡ true
unfolding unique_from
unique_from-eq-none zero base suffix taken i h lt = elim lt [ ]
unique_from-eq-none (suc fuel) base suffix taken zero h lt = rw (add-zero suffix) (ground arith)
unique_from-eq-none (suc fuel) base suffix taken (suc i) h lt =
    let e : suffix + suc i ≡ suffix + 1 + i = omega arith in
    rw e (unique_from-eq-none fuel base (suffix + 1) taken i (ground arith) (omega arith))

unique_from-fresh :
    (fuel : ℕ) (base : Text) (suffix : ℕ) (taken : List Text) {id : Text}
    → unique_from fuel base suffix taken ≡ some id
    → member id taken ≡ false
unfolding unique_from
unique_from-fresh zero base suffix taken h = cc
unique_from-fresh (suc fuel) base suffix taken {id} h =
    elim (Bool-cases (member (candidate_id base suffix) taken)) [
      | inl t ↦ unique_from-fresh fuel base (suffix + 1) taken (rw t at h)
      | inr f ↦
          let same : ◌≡◌ {A = Option Text} (some (candidate_id base suffix)) (some id) =
            rw f at h in
          let e : candidate_id base suffix ≡ id = cc in rw (← e) f
    ]

-- The loop over suffixes ends within its fuel: every call returns an ID, and one that is not taken.
pub stable_unique_endpoint_id_fresh :
    (digest : Text → Text) (cluster : Text) (e : Endpoint) (taken : List Text)
    → (id : Text) × (stable_unique_endpoint_id digest cluster e taken ≡ some id)
      × (member id taken ≡ false)
unfolding stable_unique_endpoint_id
stable_unique_endpoint_id_fresh digest cluster e taken =
    elim (Bool-cases (member (base_id digest cluster e) taken)) [
      | inl t ↦ rw t search_ends
      | inr f ↦ (base_id digest cluster e, rw f, f)
    ]
  where
    search_ends :
        (id : Text) × (unique_from (length taken + 1) (base_id digest cluster e) 2 taken ≡ some id)
        × (member id taken ≡ false)
    search_ends =
        elim (Option-cases (unique_from (length taken + 1) (base_id digest cluster e) 2 taken)) [
          | inl nothing ↦ absurd (
              omega (
                arith,
                pigeonhole (length taken + 1) (base_id digest cluster e) 2 taken (λ i lt.
                    unique_from-eq-none (length taken + 1) (base_id digest cluster e) 2 taken i
                      nothing lt),
              ))
          | inr (id, found) ↦ (
            id,
            found,
            unique_from-fresh (length taken + 1) (base_id digest cluster e) 2 taken found,
          )
        ]
