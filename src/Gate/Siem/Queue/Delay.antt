-- ===== src/Gate/Siem/Queue/Delay.antt =====
-- The wait before another try to send.
use native.Mathlib.Nat.{mul-le-mul_left}
use the_membrane.Prelude.{ℕ, ◌+◌, ◌*◌, ◌/◌, ◌%◌, ◌≤◌, arith}
use the_membrane.Gate.Siem.{ExportConfig}
use the_membrane.Gate.Siem.Queue.{backoff, min_ℕ}

min_le : (a b : ℕ) → min_ℕ a b ≤ b
min_le a b = ground arith

jittered :
    (capped limit nanos : ℕ)
    → capped ≤ limit
    → 5 * (capped + capped / 1000 * (nanos % 200)) ≤ 6 * limit
jittered capped limit nanos h =
    let whole : 1000 * (capped / 1000) ≤ capped = omega arith in
    let small : nanos % 200 ≤ 199 = omega arith in
    let product : capped / 1000 * (nanos % 200) ≤ capped / 1000 * 199 =
      mul-le-mul_left (capped / 1000) small in
    omega (arith, whole, product, h)

-- A wait is at most a fifth longer than the configured maximum.
pub backoff_bounds :
    (cfg : ExportConfig) (failures nanos : ℕ)
    → 5 * backoff cfg failures nanos ≤ 6 * (cfg.backoff_max_secs * 1000000000)
unfolding backoff
backoff_bounds cfg failures nanos = jittered _ _ nanos (min_le _ _)
