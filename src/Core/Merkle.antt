-- ===== src/Core/Merkle.antt =====
-- membrane-core/src/merkle.rs. A hash is the list of its bytes; a leaf list is a vector of hashes.
pub mod Order
pub mod Root
use the_membrane.Prelude.{
  ℕ, zero, suc, String, Bool, true, false, ◌&&◌, ◌||◌, Option, none, some, List, [], ◌∷◌, ◌++◌, map,
  length, leb, ltb, eqb, if◌then◌else◌,
}
use the_membrane.Core.External.{External, Bytes}

pub data Domain : Type 0 where
  feature_chunk bus_event cp_hash witness_key : Domain

unfoldable pub prefix : Domain → ℕ
prefix feature_chunk = 0
prefix bus_event = 1
prefix cp_hash = 2
prefix witness_key = 3

pub record MerkleTree : Type 0 where
  pub leaves : List Bytes
  pub root : Option Bytes

-- `left <= right` on byte arrays
unfoldable pub bytes_le : Bytes → Bytes → Bool
bytes_le [] ys = true
bytes_le (x ∷ xs) [] = false
bytes_le (x ∷ xs) (y ∷ ys) = ltb x y || (eqb x y && bytes_le xs ys)

unfoldable pub place : Bytes → List Bytes → List Bytes
place h [] = h ∷ []
place h (k ∷ rest) = let later = k ∷ place h rest in if bytes_le h k then h ∷ k ∷ rest else later

-- `leaves.sort()`
unfoldable pub sort : List Bytes → List Bytes
unfolding place bytes_le
sort [] = []
sort (h ∷ rest) = place h (sort rest)

module _ (x : External) where
  unfoldable pub prefixed_hash : Domain → Bytes → Bytes
  unfolding prefix
  prefixed_hash domain bytes = x.sha256 (prefix domain ∷ bytes)

  unfoldable pub parent_hash : Bytes → Bytes → Bytes
  unfolding bytes_le
  parent_hash left right =
      if bytes_le left right then x.sha256 (left ++ right) else x.sha256 (right ++ left)

  -- The inner loop of `compute_root`: two hashes a round, the last one twice if it stands alone.
  unfoldable pub next_level : List Bytes → List Bytes
  unfolding parent_hash
  next_level [] = []
  next_level (left ∷ []) = parent_hash left left ∷ []
  next_level (left ∷ right ∷ rest) = parent_hash left right ∷ next_level rest

  -- The outer loop. A level has fewer hashes than the one below it, so as many rounds as the first
  -- level has hashes are enough; `none` at no fuel is never met (`Root`).
  unfoldable pub climb : ℕ → List Bytes → Option Bytes
  unfolding next_level
  climb fuel [] = none
  climb fuel (root ∷ []) = some root
  climb zero (a ∷ b ∷ rest) = none
  climb (suc fuel) (a ∷ b ∷ rest) = climb fuel (next_level (a ∷ b ∷ rest))

  unfoldable pub compute_root : List Bytes → Option Bytes
  unfolding climb
  compute_root level = climb (length level) level

  unfoldable pub from_domain_leaves : Domain → List Bytes → MerkleTree
  unfolding prefixed_hash compute_root
  from_domain_leaves domain raw_leaves =
      let leaves = map (prefixed_hash domain) raw_leaves in
      record { leaves = leaves; root = compute_root leaves }

  unfoldable pub from_prefixed_leaves : List Bytes → MerkleTree
  unfolding sort compute_root
  from_prefixed_leaves leaves =
      let sorted = sort leaves in record { leaves = sorted; root = compute_root sorted }

  abbrev encoded : Option Bytes → Option String
  encoded none = none
  encoded (some root) = some (x.hex_encode root)

  unfoldable pub root_hex : MerkleTree → Option String
  root_hex tree = encoded tree.root

unfoldable pub leaf_count : MerkleTree → ℕ
leaf_count tree = length tree.leaves
