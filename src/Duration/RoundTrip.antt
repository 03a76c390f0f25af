-- ===== src/Duration/RoundTrip.antt =====
-- `parse_duration` reads back what `format_duration` writes, and nothing out of bounds.
use dekit.Prelude.{
  ℕ, suc, ◌*◌, ◌/◌, ◌%◌, ◌<◌, ◌≤◌, ◌≡◌, refl, sym, ap, ◌∙◌, true, false, not, ◌||◌, Option, none,
  some, [], ◌∷◌, ◌++◌, All, if_elim, arith, ◌==◌, Bool-cases, inl, inr, if◌then◌else◌,
}
use dekit.Prelude.Text.{Text, codes, text_eq}
use dekit.Duration.{
  is_ascii_digit, show_decimal, value_from, parse_u64, whole_number, split_digits, in_unit,
  saturating_mul, within_max, read_unit, max_duration, parse_duration, format_duration,
  starts_with_zero,
}
use dekit.Duration.Decimal.{value-digits, digits-All, digits-first, split_digits-append}

read_first :
    (n c : ℕ) (s : Text)
    → value_from 0 (c ∷ s) ≡ n
    → (c == b'0') ≡ false
    → 0 < n
    → n ≤ max_duration
    → whole_number (c ∷ s) (parse_u64 (c ∷ s)) ≡ some n
unfolding parse_u64
read_first n c s value no_zero p h = ground arith

-- A number that is written and read.
read_number :
    (n : ℕ)
    → 0 < n
    → n ≤ max_duration
    → whole_number (show_decimal n) (parse_u64 (show_decimal n)) ≡ some n
unfolding show_decimal parse_u64
read_number n p h =
    let (c, s, is, no_zero) = digits-first (suc n) n (omega arith) p in
    let value = sym (ap (value_from 0) is) ∙ value-digits (suc n) n (omega arith) in
    ap (λ w. whole_number w (parse_u64 w)) is ∙ read_first n c s value no_zero p h

shown : (n : ℕ) → All (λ c. is_ascii_digit c ≡ true) (show_decimal n)
unfolding show_decimal
shown n = digits-All (suc n) n

-- A written number and a unit.
parse-written :
    (n d c : ℕ) (unit : Text)
    → 0 < n
    → n ≤ max_duration
    → is_ascii_digit c ≡ false
    → in_unit n (c ∷ unit) ≡ some d
    → d ≤ max_duration
    → parse_duration (show_decimal n ++ c ∷ unit) ≡ some d
unfolding parse_duration
parse-written n d c unit p h u e b =
    ap (λ r. read_unit (whole_number r.0 (parse_u64 r.0)) r.1)
      (split_digits-append (show_decimal n) c unit (shown n) u)
    ∙ ap (λ o. read_unit o (c ∷ unit)) (read_number n p h)
    ∙ ap within_max e
    ∙ ground arith

in_minutes : (n ms : ℕ) → n * 60 * 1000 ≡ ms → ms ≤ max_duration → in_unit n (b'm' ∷ []) ≡ some ms
unfolding in_unit saturating_mul
in_minutes n ms e h = ap some (ground arith)

in_hours : (n ms : ℕ) → n * 3600 * 1000 ≡ ms → ms ≤ max_duration → in_unit n (b'h' ∷ []) ≡ some ms
unfolding in_unit saturating_mul
in_hours n ms e h = ap some (ground arith)

in_seconds : (n ms : ℕ) → n * 1000 ≡ ms → in_unit n (b's' ∷ []) ≡ some ms
unfolding in_unit
in_seconds n ms e = ap some e

-- What is written is read as the same duration: any of at most a day, in whole milliseconds, but
-- none at all, which configurations cannot set.
pub parse_duration-format_duration :
    (ms : ℕ) → 0 < ms → ms ≤ max_duration → parse_duration (format_duration ms) ≡ some ms
unfolding format_duration
parse_duration-format_duration ms p h =
    if_elim (λ w. parse_duration w ≡ some ms) (ms == 0 || not (ms % 1000 == 0))
      (λ odd. parse-written ms ms b'm' (codes "s") p h refl (unfold in_unit in refl) h)
      (λ whole.
        let exact : ms / 1000 * 1000 ≡ ms = ground arith in
        if_elim (λ w. parse_duration w ≡ some ms) (ms / 1000 % 3600 == 0)
          (λ hours.
            let n = ms / 1000 / 3600 in
            let again : n * 3600 * 1000 ≡ ms = ground (arith, exact) in
            parse-written n ms b'h' [] (omega (arith, again, p)) (omega (arith, again, h)) refl
              (in_hours n ms again h) h)
          (λ not_hours.
            if_elim (λ w. parse_duration w ≡ some ms) (ms / 1000 % 60 == 0)
              (λ minutes.
                let n = ms / 1000 / 60 in
                let again : n * 60 * 1000 ≡ ms = ground (arith, exact) in
                parse-written n ms b'm' [] (omega (arith, again, p)) (omega (arith, again, h)) refl
                  (in_minutes n ms again h) h)
              (λ seconds.
                parse-written (ms / 1000) ms b's' [] (omega (arith, exact, p))
                  (omega (arith, exact, h)) refl (in_seconds (ms / 1000) ms exact) h)))

-- The milliseconds of a unit, by its name.
unfoldable pub unit_ms : Text → Option ℕ
unit_ms unit =
    if text_eq unit (codes "ms")
    then some 1
    else if text_eq unit (codes "s")
    then some 1000
    else if text_eq unit (codes "m")
    then some 60000
    else if text_eq unit (codes "h")
    then some 3600000
    else none

whole_number_lem :
    (w : Text) (n : ℕ)
    → whole_number w (parse_u64 w) ≡ some n
    → (value_from 0 w ≡ n) × (0 < n) × (starts_with_zero w ≡ false)
unfolding parse_u64
whole_number_lem [] n e = absurd (cc)
whole_number_lem (c ∷ s) n e = (ground arith, ground arith, ground arith)

-- A duration of at most a day has not saturated.
in_unit_lem :
    (n : ℕ) (unit : Text) (d : ℕ)
    → in_unit n unit ≡ some d
    → d ≤ max_duration
    → (k : ℕ) × (unit_ms unit ≡ some k) × (d ≡ n * k)
unfolding in_unit saturating_mul unit_ms
in_unit_lem n unit d e short = elim (Bool-cases (text_eq unit (codes "ms"))) [
  | inl ms ↦ (1, ground arith, ground arith)
  | inr not_ms ↦ elim (Bool-cases (text_eq unit (codes "s"))) [
    | inl s ↦ (1000, ground arith, ground arith)
    | inr not_s ↦ elim (Bool-cases (text_eq unit (codes "m"))) [
      | inl m ↦ (60000, ground arith, ground arith)
      | inr not_m ↦ elim (Bool-cases (text_eq unit (codes "h"))) [
        | inl h ↦ (3600000, ground arith, ground arith)
        | inr not_h ↦ absurd (ground arith)
      ]
    ]
  ]
]

split_digits_lem :
    (text : Text)
    → (text ≡ (split_digits text).0 ++ (split_digits text).1)
      × All (λ c. is_ascii_digit c ≡ true) (split_digits text).0
unfolding split_digits
split_digits_lem [] = (refl, tt)
split_digits_lem (c ∷ s) =
    if_elim (λ (r : Text × Text). (c ∷ s ≡ r.0 ++ r.1) × All (λ c. is_ascii_digit c ≡ true) r.0)
      (is_ascii_digit c) {x = (c ∷ (split_digits s).0, (split_digits s).1)} {y = ([], c ∷ s)}
      (λ digit. (ap (λ u. c ∷ u) (split_digits_lem s).0, (digit, (split_digits_lem s).1)))
      (λ other. (refl, tt))

within_max_lem : (o : Option ℕ) (d : ℕ) → within_max o ≡ some d → (o ≡ some d) × (d ≤ max_duration)
within_max_lem none d e = absurd (cc)
within_max_lem (some m) d e = (ground arith, ground arith)

read_unit_lem :
    (o : Option ℕ) (unit : Text) (d : ℕ)
    → read_unit o unit ≡ some d
    → (n : ℕ) × (o ≡ some n) × (within_max (in_unit n unit) ≡ some d)
read_unit_lem none unit d e = absurd (cc)
read_unit_lem (some n) unit d e = (n, refl, e)

-- What is read is a positive whole number of a unit, written as digits that do not begin with zero
-- and the name of the unit, and is no longer than a day.
pub parse_duration_bounds :
    (text : Text) (d : ℕ)
    → parse_duration text ≡ some d
    → (number : Text) × (unit : Text) × (n : ℕ) × (k : ℕ) × (text ≡ number ++ unit)
      × All (λ c. is_ascii_digit c ≡ true) number
      × (starts_with_zero number ≡ false)
      × (value_from 0 number ≡ n)
      × (unit_ms unit ≡ some k)
      × (d ≡ n * k)
      × (0 < n)
      × (d ≤ max_duration)
unfolding parse_duration
parse_duration_bounds text d e =
    let (number, unit) = split_digits text in
    let (n, read, e') = read_unit_lem (whole_number number (parse_u64 number)) unit d e in
    let (value, p, no_zero) = whole_number_lem number n read in
    let (within, short) = within_max_lem (in_unit n unit) d e' in
    let (k, named, is) = in_unit_lem n unit d within short in
    (
      number,
      unit,
      n,
      k,
      (split_digits_lem text).0,
      (split_digits_lem text).1,
      no_zero,
      value,
      named,
      is,
      p,
      short,
    )
