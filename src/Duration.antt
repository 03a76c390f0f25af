-- ===== src/Duration.antt =====
-- src/config/duration.rs and `format_duration` of src/spec.rs: durations as configurations write
-- them. A duration is its whole milliseconds, which is all that either of the two looks at.
mod Tests
pub mod Decimal
pub mod RoundTrip
use dekit.Prelude.{
  ℕ, zero, suc, ◌+◌, ◌-◌, ◌*◌, ◌/◌, ◌%◌, ◌^◌, min, Bool, true, false, not, ◌&&◌, ◌||◌, Option, none,
  some, List, [], ◌∷◌, ◌++◌, leb, ltb, ◌==◌, if◌then◌else◌,
}
use dekit.Prelude.Text.{Text, codes, text_eq}

abbrev pub is_ascii_digit : ℕ → Bool
is_ascii_digit c = leb b'0' c && leb c b'9'

-- A number in decimal; each step of the fuel writes a digit.
unfoldable pub digits : ℕ → ℕ → Text
digits zero n = []
digits (suc fuel) n =
    let rest = digits fuel (n / 10) in
    if ltb n 10 then (b'0' + n) ∷ [] else rest ++ (b'0' + n % 10) ∷ []

unfoldable pub show_decimal : ℕ → Text
show_decimal n = digits (suc n) n

-- The value of decimal digits.
unfoldable pub value_from : ℕ → Text → ℕ
value_from n [] = n
value_from n (c ∷ s) = value_from (n * 10 + (c - b'0')) s

abbrev pub max_u64 : ℕ
max_u64 = 18446744073709551615

-- `str::parse::<u64>` of digits: none if there are none, or too large a number.
unfoldable pub parse_u64 : Text → Option ℕ
parse_u64 [] = none
parse_u64 (c ∷ s) = let n = value_from 0 (c ∷ s) in if leb n max_u64 then some n else none

-- `split_at` the first character that is not a digit.
abbrev pub put_first : ℕ → Text × Text → Text × Text
put_first c (number, unit) = (c ∷ number, unit)

unfoldable pub split_digits : Text → Text × Text
split_digits [] = ([], [])
split_digits (c ∷ s) =
    let rest = split_digits s in if is_ascii_digit c then put_first c rest else ([], c ∷ s)

abbrev pub starts_with_zero : Text → Bool
starts_with_zero [] = false
starts_with_zero (c ∷ s) = c == b'0'

unfoldable pub saturating_mul : ℕ → ℕ → ℕ
saturating_mul a b = min (a * b) max_u64

abbrev pub max_duration : ℕ
max_duration = 86400000

-- The number, if it is positive and has no leading zero.
abbrev pub whole_number : Text → Option ℕ → Option ℕ
whole_number number none = none
whole_number number (some n) = if ltb 0 n && not (starts_with_zero number) then some n else none

unfoldable pub in_unit : ℕ → Text → Option ℕ
unfolding saturating_mul text_eq
in_unit n unit =
    if text_eq unit (codes "ms")
    then some n
    else if text_eq unit (codes "s")
    then some (n * 1000)
    else if text_eq unit (codes "m")
    then some (saturating_mul n 60 * 1000)
    else if text_eq unit (codes "h")
    then some (saturating_mul n 3600 * 1000)
    else none

abbrev pub within_max : Option ℕ → Option ℕ
within_max none = none
within_max (some d) = if ltb max_duration d then none else some d

abbrev pub read_unit : Option ℕ → Text → Option ℕ
read_unit none unit = none
read_unit (some n) unit = within_max (in_unit n unit)

-- `none` is either of the errors.
unfoldable pub parse_duration : Text → Option ℕ
unfolding split_digits parse_u64 in_unit
parse_duration text =
    let (number, unit) = split_digits text in
    read_unit (whole_number number (parse_u64 number)) unit

-- The largest unit that states it exactly.
unfoldable pub format_duration : ℕ → Text
unfolding show_decimal
format_duration ms =
    if ms == 0 || not (ms % 1000 == 0)
    then show_decimal ms ++ codes "ms"
    else (let s = ms / 1000 in
        if s % 3600 == 0
        then show_decimal (s / 3600) ++ codes "h"
        else if s % 60 == 0
        then show_decimal (s / 60) ++ codes "m"
        else show_decimal s ++ codes "s")
