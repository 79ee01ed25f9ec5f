-- ===== src/Prelude/Lists.antt =====
-- Lists measured and indexed by native numbers, under the library's names.
use Prim.Native.Nat.{ℕ, zero, suc, ◌+◌}
use mathlib.Core.Path.{◌≡◌, refl, sym, ap}
use mathlib.Core.Logic.{◌⊎◌, inl, inr}
use mathlib.Core.Bool.{Bool, true, false, ◌||◌}
use mathlib.Core.List.{Memᴰ, List, [], ◌∷◌, ◌++◌, map}
use mathlib.Core.Option.{Option, none, some}
use native.Mathlib.Omega.{arith}
use dubbo_go_pixiu.Prelude.Tests.{if◌then◌else◌, Bool-cases}

module _ {ℓ} {A : Type ℓ} where
  abbrev pub length : List A → ℕ
  length [] = 0
  length (x ∷ xs) = suc (length xs)

  abbrev pub get_elem? : List A → ℕ → Option A
  get_elem? [] i = none
  get_elem? (x ∷ xs) zero = some x
  get_elem? (x ∷ xs) (suc i) = get_elem? xs i

  -- The first item that passes the test.
  abbrev pub find? : (A → Bool) → List A → Option A
  find? p [] = none
  find? p (x ∷ xs) = if p x then some x else find? p xs

  abbrev pub any : (A → Bool) → List A → Bool
  any p [] = false
  any p (x ∷ xs) = p x || any p xs

  -- The items that pass the test, in order.
  abbrev pub keep : (A → Bool) → List A → List A
  keep p [] = []
  keep p (x ∷ xs) = if p x then x ∷ keep p xs else keep p xs

module _ {ℓ} {A : Type ℓ} where
  pub length-append : (xs ys : List A) → length (xs ++ ys) ≡ length xs + length ys
  length-append [] ys = omega arith
  length-append (x ∷ xs) ys = omega (arith, length-append xs ys)

  pub find?-some :
      (p : A → Bool) (xs : List A) {x : A} → find? p xs ≡ some x → Memᴰ x xs × (p x ≡ true)
  find?-some p [] h = cc
  find?-some p (y ∷ ys) {x} h = elim (Bool-cases (p y)) [
    | inl t ↦
        let e : some y ≡ some x = rw t at h in
        let same : y ≡ x = cc in (Memᴰ.head (sym same), rw (← same) t)
    | inr f ↦ let (m, q) = find?-some p ys (rw f at h) in (Memᴰ.tail m, q)
  ]

pub Memᴰ-append {ℓ} :
    {A : Type ℓ} (xs : List A) (y : A) {x : A} → Memᴰ x (xs ++ y ∷ []) → Memᴰ x xs ⊎ (x ≡ y)
Memᴰ-append [] y (Memᴰ.head e) = inr e
Memᴰ-append [] y (Memᴰ.tail m) = elim m [ ]
Memᴰ-append (z ∷ xs) y (Memᴰ.head e) = inl (Memᴰ.head e)
Memᴰ-append (z ∷ xs) y (Memᴰ.tail m) = elim (Memᴰ-append xs y m) [
  | inl m' ↦ inl (Memᴰ.tail m')
  | inr e ↦ inr e
]

pub map-append_one {ℓ κ} :
    {A : Type ℓ} {B : Type κ} (f : A → B) (xs : List A) (y : A)
    → map f (xs ++ y ∷ []) ≡ map f xs ++ f y ∷ []
map-append_one f [] y = refl
map-append_one f (x ∷ xs) y = ap (λ t. f x ∷ t) (map-append_one f xs y)

pub keep-append_one {ℓ} :
    {A : Type ℓ} (p : A → Bool) (xs : List A) (y : A)
    → keep p (xs ++ y ∷ []) ≡ (if p y then keep p xs ++ y ∷ [] else keep p xs)
keep-append_one p [] y = refl
keep-append_one p (x ∷ xs) y = elim (Bool-cases (p x)) [
  | inl t ↦
      rw (t, keep-append_one p xs y)
        (elim (Bool-cases (p y)) [ inl u ↦ rw u refl | inr v ↦ rw v refl ])
  | inr f ↦ rw (f, keep-append_one p xs y) refl
]
