-- ===== src/Prelude/Text.antt =====
-- Go strings as lists of bytes: comparison, prefixes and suffixes, `strings.Split` on one byte and
-- `strings.TrimLeft` of one byte.
use Prim.Native.Char.{code}
use Prim.Native.String.{String}
use dubbo_go_pixiu.Prelude.Tests.{◌==◌, if◌then◌else◌}
use Prim.Native.Nat.{ℕ}
use mathlib.Core.Path.{◌≡◌, refl}
use mathlib.Core.Logic.{◌↔◌}
use mathlib.Core.Bool.{Bool, true, false, ◌&&◌}
use mathlib.Core.List.{List, [], ◌∷◌, ◌++◌}
use native.Mathlib.Omega.{arith}

abbrev pub Text : Type 0
Text = List ℕ

-- The bytes of an ASCII literal.
abbrev pub codes : String → Text
codes String.[] = []
codes (String.◌∷◌ c s) = code c ∷ codes s

unfoldable pub text_eq : Text → Text → Bool
text_eq [] [] = true
text_eq [] (_ ∷ _) = false
text_eq (_ ∷ _) [] = false
text_eq (a ∷ s) (b ∷ t) = a == b && text_eq s t

pub text_eq_iff : (s t : Text) → (text_eq s t ≡ true) ↔ (s ≡ t)
unfolding text_eq
text_eq_iff [] [] = ground arith
text_eq_iff [] (b ∷ t) = ground arith
text_eq_iff (a ∷ s) [] = ground arith
text_eq_iff (a ∷ s) (b ∷ t) = ground (arith, text_eq_iff s t)

pub text_eq_refl : (s : Text) → text_eq s s ≡ true
text_eq_refl s = (text_eq_iff s s).1 refl

-- `strings.Split(s, sep)` for a separator of one byte: `cur` is the piece that is being read.
pub split_from : ℕ → Text → Text → List Text
split_from sep cur [] = cur ∷ []
split_from sep cur (c ∷ s) =
    let closed = cur ∷ split_from sep [] s in
    let longer = split_from sep (cur ++ c ∷ []) s in if c == sep then closed else longer

unfoldable pub split_on : ℕ → Text → List Text
unfolding split_from
split_on sep s = split_from sep [] s

-- `strings.TrimLeft(s, cutset)` for a cutset of one byte.
unfoldable pub trim_left : ℕ → Text → Text
trim_left cut [] = []
trim_left cut (c ∷ s) = if c == cut then trim_left cut s else c ∷ s

-- `strings.HasPrefix(s, prefix)`.
unfoldable pub has_prefix : Text → Text → Bool
has_prefix s [] = true
has_prefix [] (_ ∷ _) = false
has_prefix (a ∷ s) (b ∷ p) = a == b && has_prefix s p

-- `split_on` never returns an empty slice.
split_from-ne-nil :
    (sep : ℕ) (cur s : Text)
    → (head : Text) × (rest : List Text) × (split_from sep cur s ≡ head ∷ rest)
unfolding split_from
split_from-ne-nil sep cur [] = (cur, [], refl)
split_from-ne-nil sep cur (c ∷ s) =
    elim (c == sep)
      as (λ b.
        (head : Text) × (rest : List Text) × ((if b
            then cur ∷ split_from sep [] s
            else split_from sep (cur ++ c ∷ []) s)
          ≡ head ∷ rest)) [
            | true ↦ (cur, split_from sep [] s, refl)
            | false ↦ split_from-ne-nil sep (cur ++ c ∷ []) s
          ]

pub split_on-ne-nil :
    (sep : ℕ) (s : Text) → (head : Text) × (rest : List Text) × (split_on sep s ≡ head ∷ rest)
unfolding split_on
split_on-ne-nil sep s = split_from-ne-nil sep [] s
