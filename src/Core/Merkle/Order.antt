-- ===== src/Core/Merkle/Order.antt =====
-- Sorted leaves: the root of `from_prefixed_leaves` forgets the order of its leaves.
use the_membrane.Prelude.{◌≡◌, refl, true, false, List, [], ◌∷◌, arith}
use mathlib.Core.Path.{ap₂, ◌∙◌}
use mathlib.Core.Logic.{∥∥₁_elim}
use mathlib.Core.List.{Perm, Permᴰ}
use the_membrane.Core.External.{External, Bytes}
use the_membrane.Core.Merkle.{bytes_le, place, sort, parent_hash, from_prefixed_leaves}

bytes_le_refl : (a : Bytes) → bytes_le a a ≡ true
unfolding bytes_le
bytes_le_refl [] = refl
bytes_le_refl (x ∷ xs) = ground (arith, bytes_le_refl xs)

bytes_le_total : (a b : Bytes) → bytes_le a b ≡ false → bytes_le b a ≡ true
unfolding bytes_le
bytes_le_total [] b h = cc
bytes_le_total (x ∷ xs) [] h = refl
bytes_le_total (x ∷ xs) (y ∷ ys) h = ground (arith, bytes_le_total xs ys)

bytes_le_antisymm : (a b : Bytes) → bytes_le a b ≡ true → bytes_le b a ≡ true → a ≡ b
unfolding bytes_le
bytes_le_antisymm [] [] h k = refl
bytes_le_antisymm [] (y ∷ ys) h k = cc
bytes_le_antisymm (x ∷ xs) [] h k = cc
bytes_le_antisymm (x ∷ xs) (y ∷ ys) h k = ground (arith, bytes_le_antisymm xs ys)

bytes_le_trans : (a b c : Bytes) → bytes_le a b ≡ true → bytes_le b c ≡ true → bytes_le a c ≡ true
unfolding bytes_le
bytes_le_trans [] b c h k = refl
bytes_le_trans (x ∷ xs) [] c h k = cc
bytes_le_trans (x ∷ xs) (y ∷ ys) [] h k = cc
bytes_le_trans (x ∷ xs) (y ∷ ys) (z ∷ zs) h k = ground (arith, bytes_le_trans xs ys zs)

place_comm : (a b : Bytes) (l : List Bytes) → place a (place b l) ≡ place b (place a l)
unfolding place
place_comm a b [] = ground (arith, bytes_le_total a b, bytes_le_antisymm a b)
place_comm a b (c ∷ l) = ground (
  arith,
  place_comm a b l,
  bytes_le_total a b,
  bytes_le_antisymm a b,
  bytes_le_total a c,
  bytes_le_total b c,
  bytes_le_trans a b c,
  bytes_le_trans b a c,
)

-- The order of its two children does not change a parent.
pub parent_hash_comm : (x : External) (a b : Bytes) → parent_hash x a b ≡ parent_hash x b a
unfolding parent_hash
parent_hash_comm x a b = ground (arith, bytes_le_total a b, bytes_le_antisymm a b)

sort-Permᴰ : {l m : List Bytes} → Permᴰ l m → sort l ≡ sort m
unfolding sort
sort-Permᴰ Permᴰ.nil = refl
sort-Permᴰ (Permᴰ.cons e p) = ap₂ place e (sort-Permᴰ p)
sort-Permᴰ (Permᴰ.swap {a = a} {b = b} {l = l} e f) =
    place_comm a b (sort l) ∙ ap₂ (λ u v. place u (place v (sort l))) f e
sort-Permᴰ (Permᴰ.trans p q) = sort-Permᴰ p ∙ sort-Permᴰ q

leaves_set : IsSet (List Bytes)
leaves_set = hlevel

sort-perm : {l m : List Bytes} → Perm l m → sort l ≡ sort m
sort-perm p = ∥∥₁_elim p (leaves_set _ _) sort-Permᴰ

-- The tree, its root included, does not depend on the order in which the leaves are given.
pub from_prefixed_leaves-perm :
    (x : External) {l m : List Bytes}
    → Perm l m
    → from_prefixed_leaves x l ≡ from_prefixed_leaves x m
unfolding from_prefixed_leaves
from_prefixed_leaves-perm x p = rw (sort-perm p)
