-- ===== src/Duration/Tests.antt =====
-- The cases of the tests of src/config/duration.rs, and the theorems at concrete durations.
use dekit.Prelude.{ℕ, ◌≡◌, refl, true, false, none, some, ◌*◌, ◌<◌, ◌≤◌, ◌++◌, All, arith}
use dekit.Prelude.Text.{Text, codes, text_eq}
use dekit.Duration.{
  parse_duration, split_digits, parse_u64, value_from, in_unit, saturating_mul, format_duration,
  show_decimal, digits, max_duration, is_ascii_digit, starts_with_zero,
}
use dekit.Duration.RoundTrip.{parse_duration-format_duration, parse_duration_bounds, unit_ms}

parse_tests :
    (parse_duration (codes "500ms") ≡ some 500)
    × (parse_duration (codes "2m") ≡ some 120000)
    × (parse_duration (codes "24h") ≡ some 86400000)
    × (parse_duration (codes "05s") ≡ none)
    × (parse_duration (codes "1.5s") ≡ none)
    × (parse_duration (codes "25h") ≡ none)
    × (parse_duration (codes "18446744073709551615s") ≡ none)
unfolding parse_duration split_digits parse_u64 value_from in_unit saturating_mul text_eq
parse_tests = (refl, refl, refl, refl, refl, refl, refl)

format_tests :
    (format_duration 90000 ≡ codes "90s")
    × (format_duration 120000 ≡ codes "2m")
    × (format_duration 0 ≡ codes "0ms")
unfolding format_duration show_decimal digits
format_tests = (refl, refl, refl)

parse_duration-format_duration_example : parse_duration (format_duration 5400000) ≡ some 5400000
parse_duration-format_duration_example =
    parse_duration-format_duration 5400000 (omega arith) (omega arith)

parse_duration_bounds_example :
    (number : Text) × (unit : Text) × (n : ℕ) × (k : ℕ) × (codes "2m" ≡ number ++ unit)
    × All (λ c. is_ascii_digit c ≡ true) number
    × (starts_with_zero number ≡ false)
    × (value_from 0 number ≡ n)
    × (unit_ms unit ≡ some k)
    × (120000 ≡ n * k)
    × (0 < n)
    × (120000 ≤ max_duration)
parse_duration_bounds_example = parse_duration_bounds (codes "2m") 120000 parse_tests.1
