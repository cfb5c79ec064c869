-- ===== src/Prelude/Order.antt =====
-- `sort` of a vector by a test that says which element may stand first, and the largest and the
-- smallest of some integers.
use mathlib.Core.Path.{◌≡◌, refl}
use mathlib.Core.Bool.{Bool, ◌||◌}
use mathlib.Core.List.{List, [], ◌∷◌}
use mathlib.Core.Option.{Option, none, some}
use native.Mathlib.Omega.{arith}
use the_membrane.Prelude.Tests.{if◌then◌else◌}
use the_membrane.Prelude.Lists.{any}
use the_membrane.Prelude.Int.{ℤ, leb_ℤ}

module _ {ℓ} {A : Type ℓ} where
  abbrev pub place : (A → A → Bool) → A → List A → List A
  place first a [] = a ∷ []
  place first a (b ∷ rest) =
      let later = place first a rest in if first a b then a ∷ b ∷ rest else b ∷ later

  abbrev pub sort_by : (A → A → Bool) → List A → List A
  sort_by first [] = []
  sort_by first (a ∷ rest) = place first a (sort_by first rest)

  any-place :
      (first : A → A → Bool) (p : A → Bool) (a : A) (xs : List A)
      → any p (place first a xs) ≡ (p a || any p xs)
  any-place first p a [] = refl
  any-place first p a (b ∷ rest) = ground (arith, any-place first p a rest)

  -- Sorting keeps the elements.
  pub any-sort_by :
      (first : A → A → Bool) (p : A → Bool) (xs : List A) → any p (sort_by first xs) ≡ any p xs
  any-sort_by first p [] = refl
  any-sort_by first p (a ∷ rest) =
      ground (arith, any-place first p a (sort_by first rest), any-sort_by first p rest)

-- `iter().max()` and `iter().min()`
abbrev pub max_ℤ : ℤ → ℤ → ℤ
max_ℤ a b = if leb_ℤ a b then b else a

abbrev pub min_ℤ : ℤ → ℤ → ℤ
min_ℤ a b = if leb_ℤ a b then a else b

abbrev pub largest : List ℤ → Option ℤ
largest [] = none
largest (a ∷ rest) = elim (largest rest) [ none ↦ some a | some b ↦ some (max_ℤ a b) ]

abbrev pub smallest : List ℤ → Option ℤ
smallest [] = none
smallest (a ∷ rest) = elim (smallest rest) [ none ↦ some a | some b ↦ some (min_ℤ a b) ]
