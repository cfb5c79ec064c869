-- ===== src/Gate/Identity/Window.antt =====
-- The time window of a grant: `parse_duration_secs`, `effective_expiry` and `check_window` of
-- membrane-gate/src/identity.rs.
use the_membrane.Prelude.{
  ℕ, ℤ, pos, negsuc, >>=-eq-ok, >>-eq-ok, ◌^◌, ◌≤ℤ◌, ltb_ℤ, leb_ℤ, ltb, leb, eqb, ◌*◌, checked_add,
  IsI64, String, ◌==◌, Bool, false, ◌&&◌, ◌||◌, not, Option, none, some, is_some, [], ◌∷◌, Result,
  ok, err, is_ok, ◌>>=◌, ◌>>◌, deny_if, map_err, ok_or, format, if◌then◌else◌, some_and, trim,
  split_last, parse_digits, all_chars, is_ascii_digit, ◌≡◌, arith,
}
use the_membrane.Gate.Error.{GateError, grant_window}
use the_membrane.Gate.Registry.{IdentityGrant}

unfoldable pub unit_secs : ℕ → Option ℕ
unit_secs c =
    if eqb c b's'
    then some 1
    else if eqb c b'm'
    then some 60
    else if eqb c b'h'
    then some 3600
    else if eqb c b'd'
    then some 86400
    else none

-- A product of an `i64` that is not negative.
unfoldable pub checked_mul : ℤ → ℕ → Option ℤ
checked_mul (pos n) m = if leb (2 ^ 63) (n * m) then none else some (pos (n * m))
checked_mul n m = none

-- The last byte of the text starts a character exactly if the last character is an ASCII one.
unfoldable pub split_unit : String → Result String (String × ℕ)
split_unit raw = do
  (num, unit) ← ok_or (split_last raw) "expected a number followed by s, m, h or d"
  deny_if (not (ltb unit 0x80) || num == "") "expected a number followed by s, m, h or d"
  ok (num, unit)

unfoldable pub parse_duration_secs : String → Result String ℤ
unfolding split_unit unit_secs checked_mul
parse_duration_secs text = do
  (num, unit) ← split_unit (trim text)
  secs_of_unit ← ok_or (unit_secs unit) "unit must be s, m, h or d"
  deny_if (not (all_chars is_ascii_digit num)) "expected a whole number"
  n ← ok_or (parse_digits num) "number out of range"
  secs ← ok_or (checked_mul n secs_of_unit) "duration out of range"
  deny_if (leb_ℤ secs (pos 0)) "duration must be positive"
  ok secs

unfoldable pub effective_expiry : IdentityGrant → Result GateError (Option ℤ)
effective_expiry grant = elim grant.valid_for [
  | none ↦ ok grant.expires_at
  | some raw ↦ do
    deny_if (is_some grant.expires_at)
        (grant_window "invalid window: set expires_at or valid_for, not both")
    from ← ok_or grant.not_before (grant_window "invalid window: valid_for requires not_before")
    secs ←
        map_err (λ e. grant_window (format ("invalid valid_for: " ∷ e ∷ [])))
          (parse_duration_secs raw)
    until ← ok_or (checked_add from secs) (grant_window "invalid window: out of range")
    ok (some until)
]

-- `if let (Some(from), Some(until))` and `until <= from`
abbrev not_after : Option ℤ → Option ℤ → Bool
not_after (some from) (some until) = leb_ℤ until from
not_after none until = false
not_after (some from) none = false

unfoldable pub check_window : IdentityGrant → ℤ → Result GateError (Unit {0})
check_window grant now = do
  expiry ← effective_expiry grant
  deny_if (not_after grant.not_before expiry)
      (grant_window "invalid window: expires_at is not after not_before")
  deny_if (some_and grant.not_before (λ from. ltb_ℤ now from)) (grant_window "grant not yet valid")
  deny_if (some_and expiry (λ until. leb_ℤ until now)) (grant_window "grant expired")

checked_mul-IsI64 : (n : ℤ) (m : ℕ) {secs : ℤ} → checked_mul n m ≡ some secs → IsI64 secs
unfolding checked_mul
checked_mul-IsI64 (pos n) m h = ground arith
checked_mul-IsI64 (negsuc n) m h = cc

-- A duration that parses is at least a second and fits in an `i64`.
pub parse_duration_secs_bounds :
    (text : String) {secs : ℤ} → parse_duration_secs text ≡ ok secs → (pos 1 ≤ℤ secs) × IsI64 secs
unfolding parse_duration_secs
parse_duration_secs_bounds text {secs} h =
    let ((num, unit), split, h1) = >>=-eq-ok (split_unit (trim text)) _ h in
    let (m, known, h2) = >>=-eq-ok (ok_or (unit_secs unit) "unit must be s, m, h or d") _ h1 in
    let (n, parsed, h3) =
      >>=-eq-ok (ok_or (parse_digits num) "number out of range") _
        (>>-eq-ok (deny_if (not (all_chars is_ascii_digit num)) "expected a whole number") _
          h2).1 in
    ground (arith, checked_mul-IsI64 n m)

abbrev pub inside : IdentityGrant → ℤ → Bool
inside grant now = elim (effective_expiry grant) [
  | err e ↦ false
  | ok expiry ↦
      not (some_and grant.not_before (λ from. ltb_ℤ now from))
      && not (some_and expiry (λ until. leb_ℤ until now))
]

-- A grant is usable at a time exactly if its settings give an expiry and the time is not before
-- its start and is before its expiry, as far as it has them. An empty window is never usable.
pub check_window_exact :
    (grant : IdentityGrant) (now : ℤ) → is_ok (check_window grant now) ≡ inside grant now
unfolding check_window
check_window_exact grant now = ground arith
