-- ===== src/Prelude/Texts.antt =====
-- What the program uses of `str` and `String` beyond `==` and `<`.
use Prim.Native.Nat.{◌^◌, ℕ, ◌-◌, ◌*◌, zero, suc, ◌/◌, ◌%◌, ◌+◌, ◌≤◌, compare, Ordering}
use mathlib.Core.Path.{◌≡◌, refl}
use the_membrane.Prelude.Int.{ℤ, pos, negsuc}
use mathlib.Core.Logic.{dite}
use native.Mathlib.Decide.{dec_le}
use native.Mathlib.Omega.{arith}
use text.Mathlib.Text.{◌==◌}
use Prim.Native.Char.{Char, char, code, IsScalar}
use Prim.Native.String.{String, ◌++◌, slice}
use mathlib.Core.List
use mathlib.Core.List.{List, [], ◌∷◌}
use mathlib.Core.Option.{Option, none, some}
use mathlib.Core.Bool.{Bool, true, false, ◌&&◌, ◌||◌}
use the_membrane.Prelude.Tests.{eqb, ltb, if◌then◌else◌, leb}

-- `format!` of parts that are texts already
unfoldable pub format : List String → String
format [] = ""
format (s ∷ rest) = s ++ format rest

-- `chars().all(p)`, on code points
unfoldable pub all_chars : (ℕ → Bool) → String → Bool
all_chars p String.[] = true
all_chars p (String.◌∷◌ c s) = p (code c) && all_chars p s

abbrev pub is_ascii_digit : ℕ → Bool
is_ascii_digit c = leb b'0' c && leb c b'9'

abbrev pub is_ascii_alphanumeric : ℕ → Bool
is_ascii_alphanumeric c =
    is_ascii_digit c || (leb b'a' c && leb c b'z') || (leb b'A' c && leb c b'Z')

abbrev pub is_ascii_hexdigit : ℕ → Bool
is_ascii_hexdigit c = is_ascii_digit c || (leb b'a' c && leb c b'f') || (leb b'A' c && leb c b'F')

pub small : (n : ℕ) → n ≤ 90 → compare (n + 32) 55296 ≡ Ordering.lt
small n h = ground arith

pub lower-IsScalar : (n : ℕ) → n ≤ 90 → IsScalar (n + 32)
lower-IsScalar n h = rw (small n h) tt

lower_char : Char → Char
unfolding dec_le
lower_char (char n p) =
    dite (dec_le 65 n)
      (λ _. dite (dec_le n 90) (λ h. char (n + 32) (lower-IsScalar n h)) (λ _. char n p))
      (λ _. char n p)

-- `to_ascii_lowercase`
unfoldable pub to_ascii_lowercase : String → String
unfolding lower_char
to_ascii_lowercase String.[] = ""
to_ascii_lowercase (String.◌∷◌ c s) = String.◌∷◌ (lower_char c) (to_ascii_lowercase s)

-- `eq_ignore_ascii_case`
unfoldable pub eq_ignore_ascii_case : String → String → Bool
unfolding to_ascii_lowercase
eq_ignore_ascii_case s t = to_ascii_lowercase s == to_ascii_lowercase t

lowered : eq_ignore_ascii_case "aBZ@[é1" "Abz@[é1" ≡ true
unfolding eq_ignore_ascii_case
lowered = refl

-- The decimal digits of a number below `10 ^ fuel`.
decimal_digits : ℕ → ℕ → String
decimal_digits zero n = ""
decimal_digits (suc fuel) n =
    let digit = slice "0123456789" (n % 10) (n % 10 + 1) in
    let rest = decimal_digits fuel (n / 10) in if ltb n 10 then digit else rest ++ digit

-- `n.to_string()`; a number has fewer digits than `n + 1`.
unfoldable pub decimal : ℕ → String
unfolding decimal_digits
decimal n = decimal_digits (n + 1) n

unfoldable pub decimal_ℤ : ℤ → String
unfolding decimal
decimal_ℤ (pos n) = decimal n
decimal_ℤ (negsuc n) = "-" ++ decimal (n + 1)

printed : decimal_ℤ (negsuc 1234) ≡ "-1235"
unfolding decimal_ℤ
printed = refl

-- `chars().take(n)`
unfoldable pub take_chars : ℕ → String → String
take_chars zero s = ""
take_chars (suc n) String.[] = ""
take_chars (suc n) (String.◌∷◌ c s) = String.◌∷◌ c (take_chars n s)

-- `char::is_whitespace`, the Unicode property White_Space
unfoldable pub is_whitespace : ℕ → Bool
is_whitespace c =
    (leb 9 c && leb c 13)
    || eqb c 32
    || eqb c 0x85
    || eqb c 0xa0
    || eqb c 0x1680
    || (leb 0x2000 c && leb c 0x200a)
    || eqb c 0x2028
    || eqb c 0x2029
    || eqb c 0x202f
    || eqb c 0x205f
    || eqb c 0x3000

trim_start : String → String
unfolding is_whitespace
trim_start String.[] = ""
trim_start (String.◌∷◌ c s) =
    let rest = trim_start s in if is_whitespace (code c) then rest else String.◌∷◌ c s

trim_end : String → String
unfolding is_whitespace
trim_end String.[] = ""
trim_end (String.◌∷◌ c s) =
    let rest = trim_end s in if is_whitespace (code c) && rest == "" then "" else String.◌∷◌ c rest

-- `trim`
unfoldable pub trim : String → String
unfolding trim_start trim_end
trim s = trim_end (trim_start s)

trimmed : trim " \u{3000}a b\n " ≡ "a b"
unfolding trim
trimmed = refl

-- The number that decimal digits stand for, after the digits of `n`.
unfoldable pub digits_value : ℕ → String → ℕ
digits_value n String.[] = n
digits_value n (String.◌∷◌ c s) = digits_value (10 * n + (code c - b'0')) s

-- The bytes of a character in UTF-8.
abbrev pub utf8_width : ℕ → ℕ
utf8_width c = if ltb c 0x80 then 1 else if ltb c 0x800 then 2 else if ltb c 0x10000 then 3 else 4

-- `str::len`, in bytes
unfoldable pub len : String → ℕ
len String.[] = 0
len (String.◌∷◌ c s) = utf8_width (code c) + len s

-- The text before the last character, and that character.
unfoldable pub split_last : String → Option (String × ℕ)
split_last String.[] = none
split_last (String.◌∷◌ c s) = elim (split_last s) [
  | none ↦ some ("", code c)
  | some (before, last) ↦ some (String.◌∷◌ c before, last)
]

-- `n.parse::<i64>()` of a text of digits: the empty text and what is out of range are errors.
unfoldable pub parse_digits : String → Option ℤ
unfolding digits_value
parse_digits s =
    let n = digits_value 0 s in if s == "" || leb (2 ^ 63) n then none else some (pos n)

-- `chars().filter(p).collect()`, on code points
unfoldable pub filter_chars : (ℕ → Bool) → String → String
filter_chars p String.[] = ""
filter_chars p (String.◌∷◌ c s) =
    let rest = filter_chars p s in if p (code c) then String.◌∷◌ c rest else rest

-- `char::is_control`, the Unicode category Cc
abbrev pub is_control : ℕ → Bool
is_control c = ltb c 32 || (leb 127 c && leb c 159)

-- `as_bytes`
abbrev pub utf8_char : ℕ → List ℕ
utf8_char c =
    if ltb c 0x80
    then c ∷ []
    else if ltb c 0x800
    then (0xc0 + c / 64) ∷ (0x80 + c % 64) ∷ []
    else if ltb c 0x10000
    then (0xe0 + c / 4096) ∷ (0x80 + c / 64 % 64) ∷ (0x80 + c % 64) ∷ []
    else (0xf0 + c / 262144) ∷ (0x80 + c / 4096 % 64) ∷ (0x80 + c / 64 % 64) ∷ (0x80 + c % 64) ∷ []

unfoldable pub utf8_bytes : String → List ℕ
utf8_bytes String.[] = []
utf8_bytes (String.◌∷◌ c s) = List.◌++◌ (utf8_char (code c)) (utf8_bytes s)

-- `starts_with`
unfoldable pub starts_with : String → String → Bool
starts_with s String.[] = true
starts_with String.[] (String.◌∷◌ c t) = false
starts_with (String.◌∷◌ c s) (String.◌∷◌ d t) = eqb (code c) (code d) && starts_with s t

-- The number of characters.
unfoldable pub count_chars : String → ℕ
count_chars String.[] = 0
count_chars (String.◌∷◌ c s) = suc (count_chars s)

-- `replace` of a text that is not empty, from the left; the first `skip` characters belong to an
-- occurrence that was replaced.
unfoldable pub replace_from : ℕ → String → String → String → String
unfolding starts_with count_chars
replace_from skip needle new String.[] = ""
replace_from (suc skip) needle new (String.◌∷◌ c s) = replace_from skip needle new s
replace_from zero needle new (String.◌∷◌ c s) =
    let found = new ++ replace_from (count_chars needle - 1) needle new s in
    let kept = String.◌∷◌ c (replace_from zero needle new s) in
    if starts_with (String.◌∷◌ c s) needle then found else kept

unfoldable pub replace : String → String → String → String
unfolding replace_from
replace s needle new = replace_from zero needle new s

replaced : replace "a ghp_ghp_x" "ghp_" "[redacted]" ≡ "a [redacted][redacted]x"
unfolding replace
replaced = refl

-- `&s[..n]`, which is none (a panic) where byte `n` is inside a character or behind the text.
unfoldable pub slice_to : ℕ → String → Option String
slice_to zero s = some ""
slice_to (suc n) String.[] = none
slice_to (suc n) (String.◌∷◌ c s) = elim (slice_to (suc n - utf8_width (code c)) s) [
  | none ↦ none
  | some rest ↦ if leb (utf8_width (code c)) (suc n) then some (String.◌∷◌ c rest) else none
]

-- `trim_end_matches(c)`
unfoldable pub trim_end_matches : ℕ → String → String
trim_end_matches c String.[] = ""
trim_end_matches c (String.◌∷◌ d s) =
    let rest = trim_end_matches c s in
    if eqb (code d) c && rest == "" then "" else String.◌∷◌ d rest
