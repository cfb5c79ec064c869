-- ===== src/Core/Merkle/Root.antt =====
-- The loops of `compute_root` end with a root, and what the root does not tell apart.
use the_membrane.Prelude.{
  ℕ, zero, suc, ◌+◌, ◌-◌, ◌%◌, ◌⊎◌, inl, inr, ◌≤◌, ◌≡◌, refl, ◌≢◌, none, some, List, [], ◌∷◌, ◌++◌,
  length, arith, ◌∙◌, ap, sym,
}
use native.Mathlib.Nat.{suc-add, le_refl}
use the_membrane.Core.External.{External, Bytes}
use the_membrane.Core.Merkle.{next_level, climb, compute_root, parent_hash}

module _ (x : External) where
  length-next_level :
      (level : List Bytes)
      → (length (next_level x level) ≤ length level)
        × (length level ≤ length (next_level x level) + length (next_level x level))
        × (length (next_level x level) + length (next_level x level) ≤ length level + 1)
  unfolding next_level
  length-next_level [] = omega arith
  length-next_level (a ∷ []) = omega arith
  length-next_level (a ∷ b ∷ rest) = omega (arith, length-next_level rest)

  -- Enough fuel gives a root, and more of it gives the same one.
  climb_total :
      (fuel : ℕ) (a : Bytes) (rest : List Bytes)
      → length (a ∷ rest) ≤ fuel
      → (root : Bytes) × (climb x fuel (a ∷ rest) ≡ some root)
  unfolding climb next_level
  climb_total fuel a [] h = (a, refl)
  climb_total zero a (b ∷ rest) h = absurd (omega arith)
  climb_total (suc fuel) a (b ∷ rest) h =
      climb_total fuel (parent_hash x a b) (next_level x rest)
        (omega (arith, length-next_level rest))

  climb-fuel :
      (fuel more : ℕ) (level : List Bytes)
      → length level ≤ fuel
      → climb x (fuel + more) level ≡ climb x fuel level
  unfolding climb next_level
  climb-fuel fuel more [] h = refl
  climb-fuel fuel more (a ∷ []) h = refl
  climb-fuel zero more (a ∷ b ∷ rest) h = absurd (omega arith)
  climb-fuel (suc fuel) more (a ∷ b ∷ rest) h =
      rw suc-add
        (climb-fuel fuel more (next_level x (a ∷ b ∷ rest)) (omega (arith, length-next_level rest)))

  climb_enough :
      (fuel : ℕ) (level : List Bytes)
      → length level ≤ fuel
      → climb x fuel level ≡ climb x (length level) level
  climb_enough fuel level h =
      let more = fuel - length level in
      let whole : fuel ≡ length level + more = omega arith in
      ap (λ f. climb x f level) whole
      ∙ climb-fuel (length level) more level (le_refl (length level))

  -- The root is that of the next level, with no fuel in sight.
  pub compute_root-next_level :
      (a b : Bytes) (rest : List Bytes)
      → compute_root x (a ∷ b ∷ rest) ≡ compute_root x (next_level x (a ∷ b ∷ rest))
  unfolding compute_root climb next_level
  compute_root-next_level a b rest =
      climb_enough (suc (length rest)) (next_level x (a ∷ b ∷ rest))
        (omega (arith, length-next_level rest))

  -- The loops end: leaves have a root exactly if there is one leaf at least.
  pub compute_root_total :
      (level : List Bytes)
      → (level ≡ []) × (compute_root x level ≡ none)
        ⊎ (level ≢ []) × ((root : Bytes) × (compute_root x level ≡ some root))
  unfolding compute_root climb
  compute_root_total [] = inl (refl, refl)
  compute_root_total (a ∷ rest) =
      inr ((λ e. cc), climb_total (length (a ∷ rest)) a rest (le_refl (length (a ∷ rest))))

  next_level-repeat :
      (level : List Bytes) (a : Bytes)
      → length level % 2 ≡ 0
      → next_level x (level ++ a ∷ []) ≡ next_level x (level ++ a ∷ a ∷ [])
  unfolding next_level
  next_level-repeat [] a even = refl
  next_level-repeat (b ∷ []) a even = absurd (omega arith)
  next_level-repeat (b ∷ c ∷ level) a even =
      ap (λ rest. parent_hash x b c ∷ rest) (next_level-repeat level a (omega arith))

  -- The root does not count its leaves: of an odd number of leaves, three at least, the last one may
  -- be repeated and the root stays the same.
  pub compute_root-repeat :
      (b c : Bytes) (level : List Bytes) (a : Bytes)
      → length level % 2 ≡ 0
      → compute_root x ((b ∷ c ∷ level) ++ a ∷ []) ≡ compute_root x ((b ∷ c ∷ level) ++ a ∷ a ∷ [])
  compute_root-repeat b c level a even =
      compute_root-next_level b c (level ++ a ∷ [])
      ∙ ap (compute_root x) (next_level-repeat (b ∷ c ∷ level) a (omega arith))
      ∙ sym (compute_root-next_level b c (level ++ a ∷ a ∷ []))
