-- ===== src/Prelude/Int.antt =====
-- Rust's `i64` and `u64`. An `i64` is an integer; each operation brings its result back into the
-- range the way the source asks for: by saturation, by a check, or by wrapping.
use Prim.Native.Nat.{ℕ, suc, ◌+◌, ◌-◌, ◌*◌, ◌/◌, ◌^◌, ◌≤◌, ◌<◌}
use mathlib.Core.Path.{◌≡◌}
use mathlib.Core.Bool.{Bool, ◌&&◌}
use mathlib.Core.Option.{Option, none, some}
use native.Mathlib.Omega.{arith}
use the_membrane.Prelude.Tests.{ltb, leb, eqb, if◌then◌else◌}

-- `negsuc n` is -(n + 1).
pub data ℤ : Type 0 where
  pos : ℕ → ℤ
  negsuc : ℕ → ℤ

abbrev pub pos_part : ℤ → ℕ
pos_part (pos n) = n
pos_part (negsuc n) = 0

abbrev pub neg_part : ℤ → ℕ
neg_part (pos n) = 0
neg_part (negsuc n) = suc n

-- a - b, as an integer.
abbrev pub sub_ℕ : ℕ → ℕ → ℤ
sub_ℕ a b = if leb b a then pos (a - b) else negsuc (b - a - 1)

infixl 65 ◌+ℤ◌ ◌-ℤ◌
infix 50 ◌≤ℤ◌ ◌<ℤ◌
unfoldable pub ◌+ℤ◌ : ℤ → ℤ → ℤ
a +ℤ b = sub_ℕ (pos_part a + pos_part b) (neg_part a + neg_part b)

unfoldable pub ◌-ℤ◌ : ℤ → ℤ → ℤ
a -ℤ b = sub_ℕ (pos_part a + neg_part b) (neg_part a + pos_part b)

abbrev pub ◌≤ℤ◌ : ℤ → ℤ → Type 0
a ≤ℤ b = pos_part a + neg_part b ≤ pos_part b + neg_part a

abbrev pub ◌<ℤ◌ : ℤ → ℤ → Type 0
a <ℤ b = pos_part a + neg_part b < pos_part b + neg_part a

abbrev pub ltb_ℤ : ℤ → ℤ → Bool
ltb_ℤ a b = ltb (pos_part a + neg_part b) (pos_part b + neg_part a)

abbrev pub leb_ℤ : ℤ → ℤ → Bool
leb_ℤ a b = leb (pos_part a + neg_part b) (pos_part b + neg_part a)

abbrev pub eqb_ℤ : ℤ → ℤ → Bool
eqb_ℤ a b = eqb (pos_part a + neg_part b) (pos_part b + neg_part a)

abbrev pub i64_max : ℤ
i64_max = pos (2 ^ 63 - 1)

abbrev pub i64_min : ℤ
i64_min = negsuc (2 ^ 63 - 1)

abbrev pub u64_max : ℕ
u64_max = 2 ^ 64 - 1

-- The integer is a value of type `i64`.
abbrev pub IsI64 : ℤ → Type 0
IsI64 a = (pos_part a < 2 ^ 63) × (neg_part a ≤ 2 ^ 63)

unfoldable pub in_i64 : ℤ → Bool
in_i64 a = ltb (pos_part a) (2 ^ 63) && leb (neg_part a) (2 ^ 63)

unfoldable pub saturate : ℤ → ℤ
saturate a =
    if ltb (pos_part a) (2 ^ 63)
    then (if leb (neg_part a) (2 ^ 63) then a else i64_min)
    else i64_max

-- `a.saturating_sub(b)`
unfoldable pub saturating_sub : ℤ → ℤ → ℤ
unfolding saturate
saturating_sub a b = saturate (a -ℤ b)

-- `a.checked_add(b)`
unfoldable pub checked_add : ℤ → ℤ → Option ℤ
unfolding in_i64
checked_add a b = let c = a +ℤ b in if in_i64 c then some c else none

-- `a + b` in a release build, which wraps.
unfoldable pub wrapping_add : ℤ → ℤ → ℤ
wrapping_add a b =
    let c = a +ℤ b in
    if ltb (pos_part c) (2 ^ 63)
    then (if leb (neg_part c) (2 ^ 63) then c else c +ℤ pos (2 ^ 64))
    else c -ℤ pos (2 ^ 64)

-- `a - b` in a release build.
unfoldable pub wrapping_sub : ℤ → ℤ → ℤ
wrapping_sub a b =
    let c = a -ℤ b in
    if ltb (pos_part c) (2 ^ 63)
    then (if leb (neg_part c) (2 ^ 63) then c else c +ℤ pos (2 ^ 64))
    else c -ℤ pos (2 ^ 64)

-- `a.checked_mul(b)` of two numbers that are not negative
unfoldable pub checked_mul_ℕ : ℕ → ℕ → Option ℕ
checked_mul_ℕ a b = if ltb (a * b) (2 ^ 63) then some (a * b) else none

-- `n as i64` for a `u64`
unfoldable pub as_i64 : ℕ → ℤ
as_i64 n = if ltb n (2 ^ 63) then pos n else negsuc (2 ^ 64 - 1 - n)

-- `n.saturating_add(1)` for a `u64`
abbrev pub saturating_suc : ℕ → ℕ
saturating_suc n = if ltb n u64_max then n + 1 else u64_max

-- `a / m` on integers, towards zero, for `m` not zero
abbrev pub div_ℤ : ℤ → ℕ → ℤ
div_ℤ (pos n) m = pos (n / m)
div_ℤ (negsuc n) m = sub_ℕ 0 ((n + 1) / m)

-- `n.checked_add(1)` for a `u64`
abbrev pub checked_suc : ℕ → Option ℕ
checked_suc n = if ltb n u64_max then some (n + 1) else none

pub +ℤ_parts :
    (a b : ℤ)
    → pos_part (a +ℤ b) + neg_part a + neg_part b ≡ neg_part (a +ℤ b) + pos_part a + pos_part b
unfolding ◌+ℤ◌
+ℤ_parts a b = ground arith

pub -ℤ_parts :
    (a b : ℤ)
    → pos_part (a -ℤ b) + neg_part a + pos_part b ≡ neg_part (a -ℤ b) + pos_part a + neg_part b
unfolding ◌-ℤ◌
-ℤ_parts a b = ground arith

pub eq_of_parts : (a b : ℤ) → pos_part a + neg_part b ≡ pos_part b + neg_part a → a ≡ b
eq_of_parts a b h = ground arith

pub ruleset int_laws = (arith, +ℤ_parts, -ℤ_parts, eq_of_parts)

-- Where the difference is an `i64` the saturation changes nothing.
pub saturate_lem : (a : ℤ) → IsI64 a → saturate a ≡ a
unfolding saturate
saturate_lem a h = ground arith

pub saturate-IsI64 : (a : ℤ) → IsI64 (saturate a)
unfolding saturate
saturate-IsI64 (pos n) = ground arith
saturate-IsI64 (negsuc n) = ground arith

-- Cast and back: below 2^63 the cast is the identity.
pub as_i64-lt : (n : ℕ) → n < 2 ^ 63 → as_i64 n ≡ pos n
unfolding as_i64
as_i64-lt n h = ground arith

pub wrapping_add_lem : (a b : ℤ) → IsI64 (a +ℤ b) → wrapping_add a b ≡ a +ℤ b
unfolding wrapping_add
wrapping_add_lem a b h = ground arith

pub wrapping_sub_lem : (a b : ℤ) → IsI64 (a -ℤ b) → wrapping_sub a b ≡ a -ℤ b
unfolding wrapping_sub
wrapping_sub_lem a b h = ground arith

sub_mono : (a b c d : ℤ) → b ≤ℤ a → c ≤ℤ d → b -ℤ d ≤ℤ a -ℤ c
unfolding ◌-ℤ◌
sub_mono a b c d h k = ground arith

pub saturate_mono : (a b : ℤ) → a ≤ℤ b → saturate a ≤ℤ saturate b
unfolding saturate
saturate_mono a b h = ground arith

-- Saturating subtraction keeps the order.
pub saturating_sub_mono : (a b c d : ℤ) → b ≤ℤ a → c ≤ℤ d → saturating_sub b d ≤ℤ saturating_sub a c
unfolding saturating_sub
saturating_sub_mono a b c d h k = saturate_mono (b -ℤ d) (a -ℤ c) (sub_mono a b c d h k)
