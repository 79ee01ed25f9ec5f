-- ===== src/Prelude/Dict.antt =====
-- Go maps with string keys, as lists of entries. A new key goes to the end, so a map that is iterated has
-- some order, on which nothing that is modelled depends.
use mathlib.Core.Path.{◌≡◌, refl}
use mathlib.Core.Logic.{◌⊎◌, inl, inr}
use mathlib.Core.Bool.{Bool, true, false}
use mathlib.Core.List.{List, [], ◌∷◌, ◌++◌}
use mathlib.Core.Option.{Option, none, some}
use native.Mathlib.Omega.{arith}
use dubbo_go_pixiu.Prelude.Tests.{if◌then◌else◌, Bool-cases}
use dubbo_go_pixiu.Prelude.Text.{Text, text_eq, text_eq_iff}

module _ {ℓ} {A : Type ℓ} where
  abbrev pub lookup : Text → List (Text × A) → Option A
  lookup key [] = none
  lookup key ((k, v) ∷ rest) = if text_eq key k then some v else lookup key rest

  abbrev pub store : Text → A → List (Text × A) → List (Text × A)
  store key v [] = (key, v) ∷ []
  store key v ((k, w) ∷ rest) = if text_eq key k then (k, v) ∷ rest else (k, w) ∷ store key v rest

  -- `delete`.
  abbrev pub erase : Text → List (Text × A) → List (Text × A)
  erase key [] = []
  erase key ((k, w) ∷ rest) = if text_eq key k then erase key rest else (k, w) ∷ erase key rest

  abbrev pub or_default : A → Option A → A
  or_default a none = a
  or_default a (some b) = b

  -- `_, ok := d[key]`.
  abbrev pub is_some : Option A → Bool
  is_some none = false
  is_some (some _) = true

  -- The value of an option that is known to have one.
  abbrev pub from_some : (o : Option A) → is_some o ≡ true → A
  from_some none h = absurd (cc)
  from_some (some a) h = a

  pub from_some-eq : (o : Option A) (h : is_some o ≡ true) {a : A} → o ≡ some a → from_some o h ≡ a
  from_some-eq none h e = cc
  from_some-eq (some b) h e = cc

  pub store-new :
      (k : Text) (v : A) (d : List (Text × A)) → lookup k d ≡ none → store k v d ≡ d ++ (k, v) ∷ []
  store-new k v [] h = refl
  store-new k v ((j, w) ∷ d) h = elim (Bool-cases (text_eq k j)) [
    | inl t ↦ cc (rw t at h)
    | inr f ↦ rw (f, store-new k v d (rw f at h)) refl
  ]

  -- No key comes twice.
  abbrev pub Keyed : List (Text × A) → Type ℓ
  Keyed [] = Unit {ℓ}
  Keyed ((k, _) ∷ d) = (lookup k d ≡ none) × Keyed d

  pub lookup-erase :
      (j k : Text) (d : List (Text × A))
      → lookup j (erase k d) ≡ (if text_eq j k then none else lookup j d)
  lookup-erase j k [] = ground arith
  lookup-erase j k ((i, w) ∷ d) =
      grind (arith, lookup-erase j k d, text_eq_iff j k, text_eq_iff k i, text_eq_iff j i)

  pub lookup-store_eq :
      (j k : Text) (v : A) (d : List (Text × A))
      → lookup j (store k v d) ≡ (if text_eq j k then some v else lookup j d)
  lookup-store_eq j k v [] = refl
  lookup-store_eq j k v ((i, w) ∷ d) =
      grind (arith, lookup-store_eq j k v d, text_eq_iff j k, text_eq_iff k i, text_eq_iff j i)

pub Keyed-store {ℓ} :
    {A : Type ℓ} (k : Text) (v : A) (d : List (Text × A)) → Keyed d → Keyed (store k v d)
Keyed-store k v [] h = (refl, tt)
Keyed-store k v ((j, w) ∷ d) (new, h) = elim (Bool-cases (text_eq k j)) [
  | inl t ↦ rw t (new, h)
  | inr f ↦
      let apart : text_eq j k ≡ false = grind (arith, f, text_eq_iff j k, text_eq_iff k j) in
      rw f (rw (lookup-store_eq j k v d, apart) new, Keyed-store k v d h)
]

pub lookup-store {ℓ} :
    {A : Type ℓ} (k m : Text) (v : A) (l : List (Text × A)) {w : A}
    → lookup k (store m v l) ≡ some w
    → (w ≡ v) ⊎ (lookup k l ≡ some w)
lookup-store k m v [] {w} h = elim (Bool-cases (text_eq k m)) [
  | inl t ↦ let e : some v ≡ some w = rw t at h in inl (cc)
  | inr f ↦ cc (rw f at h)
]
lookup-store k m v ((n, x) ∷ l) {w} h = elim (Bool-cases (text_eq m n)) [
  | inl t ↦
      let h' : (if text_eq k n then some v else lookup k l) ≡ some w = rw t at h in
      elim (Bool-cases (text_eq k n)) [
        | inl t' ↦ let e : some v ≡ some w = rw t' at h' in inl (cc)
        | inr f' ↦ inr (rw f' (rw f' at h'))
      ]
  | inr f ↦ elim (Bool-cases (text_eq k n)) [
    | inl t' ↦ inr (rw t' (rw t' at (to_tail f)))
    | inr f' ↦ rw f' (lookup-store k m v l (rw f' at (to_tail f)))
  ]
]
  where
    to_tail :
        text_eq m n ≡ false → (if text_eq k n then some x else lookup k (store m v l)) ≡ some w
    to_tail f = rw f at h
