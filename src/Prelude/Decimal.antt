-- ===== src/Prelude/Decimal.antt =====
-- The decimal form of a number, as `%d` and `%v` print it, and what makes it readable.
use mathlib.Core.List.{[], ◌∷◌, ◌++◌}
use mathlib.Core.Path.{◌≡◌, refl, sym, ap, ◌∙◌}
use Prim.Native.Nat.{ℕ, zero, suc, ◌+◌, ◌-◌, ◌*◌, ◌/◌, ◌%◌, ◌<◌}
use native.Mathlib.Omega.{arith}
use mathlib.Core.Logic.{inl, inr, ◌≢◌}
use dubbo_go_pixiu.Prelude.Tests.{ltb, if◌then◌else◌, Bool-cases}
use dubbo_go_pixiu.Prelude.Text.{Text, codes}

-- The digits on fuel.
digits : ℕ → ℕ → Text
digits zero n = []
digits (suc fuel) n =
    let rest = digits fuel (n / 10) ++ (48 + n % 10) ∷ [] in
    if ltb n 10 then (48 + n) ∷ [] else rest

unfoldable pub itoa : ℕ → Text
unfolding digits
itoa n = digits (suc n) n

read : ℕ → Text → ℕ
read acc [] = acc
read acc (d ∷ s) = read (acc * 10 + (d - 48)) s

read-append : (acc d : ℕ) (s : Text) → read acc (s ++ d ∷ []) ≡ read acc s * 10 + (d - 48)
unfolding read
read-append acc d [] = refl
read-append acc d (c ∷ s) = read-append (acc * 10 + (c - 48)) d s

read-digits : (fuel n : ℕ) → n < fuel → read 0 (digits fuel n) ≡ n
unfolding digits
read-digits zero n h = elim h [ ]
read-digits (suc fuel) n h = elim (Bool-cases (ltb n 10)) [
  | inl small ↦ rw small (unfold read in ground arith)
  | inr large ↦
      rw (large, read-append 0 (48 + n % 10) (digits fuel (n / 10)))
        (ground (arith, read-digits fuel (n / 10)))
]

-- Different numbers have different forms.
pub itoa-injective : (m n : ℕ) → itoa m ≡ itoa n → m ≡ n
unfolding itoa
itoa-injective m n e =
    sym (read-digits (suc m) m (omega arith)) ∙ ap (read 0) e ∙ read-digits (suc n) n (omega arith)

-- No byte of the text is `c`.
abbrev pub Without : ℕ → Text → Type 0
Without c [] = Unit {0}
Without c (d ∷ s) = (d ≢ c) × Without c s

Without-append : (c : ℕ) (s t : Text) → Without c s → Without c t → Without c (s ++ t)
Without-append c [] t hs ht = ht
Without-append c (d ∷ s) t (hd, hs) ht = (hd, Without-append c s t hs ht)

digits-Without : (c fuel n : ℕ) → 57 < c → Without c (digits fuel n)
unfolding digits
digits-Without c zero n h = tt
digits-Without c (suc fuel) n h = elim (Bool-cases (ltb n 10)) [
  | inl small ↦ rw small (ground arith, tt)
  | inr large ↦ rw large (
      Without-append c (digits fuel (n / 10)) ((48 + n % 10) ∷ [])
        (digits-Without c fuel (n / 10) h) (omega arith, tt))
]

-- A digit is none of the bytes behind `9`.
pub itoa-Without : (c n : ℕ) → 57 < c → Without c (itoa n)
unfolding itoa
itoa-Without c n h = digits-Without c (suc n) n h

tests : (itoa 0 ≡ codes "0") × (itoa 1207 ≡ codes "1207")
unfolding itoa
tests = (refl, refl)
