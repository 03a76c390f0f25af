-- ===== src/Duration/Decimal.antt =====
-- Decimal numbers: what is written is digits, begins with no zero, and has the value it is of.
use dekit.Prelude.{
  ℕ, zero, suc, ◌+◌, ◌-◌, ◌*◌, ◌/◌, ◌%◌, ◌<◌, ◌≤◌, ◌≡◌, refl, ap, ◌∙◌, true, false, [], ◌∷◌, ◌++◌,
  All, All-append, ltb, if_elim, arith, ◌==◌,
}
use dekit.Prelude.Text.{Text}
use dekit.Duration.{is_ascii_digit, digits, value_from, split_digits, put_first}

value_from-snoc :
    (n : ℕ) (s : Text) (c : ℕ) → value_from n (s ++ c ∷ []) ≡ value_from n s * 10 + (c - b'0')
unfolding value_from
value_from-snoc n [] c = refl
value_from-snoc n (d ∷ s) c = value_from-snoc (n * 10 + (d - b'0')) s c

pub value-digits : (fuel n : ℕ) → n < fuel → value_from 0 (digits fuel n) ≡ n
unfolding digits
value-digits zero n h = absurd (omega arith)
value-digits (suc fuel) n h =
    if_elim (λ w. value_from 0 w ≡ n) (ltb n 10) (λ small. unfold value_from in omega arith)
      (λ large.
        let past : 10 ≤ n = ground arith in
        value_from-snoc 0 (digits fuel (n / 10)) (b'0' + n % 10)
        ∙ omega (arith, value-digits fuel (n / 10) (omega (arith, past, h))))

pub digits-All : (fuel n : ℕ) → All (λ c. is_ascii_digit c ≡ true) (digits fuel n)
unfolding digits
digits-All zero n = tt
digits-All (suc fuel) n =
    if_elim (λ w. All (λ c. is_ascii_digit c ≡ true) w) (ltb n 10) (λ small. (ground arith, tt))
      (λ large.
        All-append (λ c. is_ascii_digit c ≡ true) (digits fuel (n / 10)) ((b'0' + n % 10) ∷ [])
          (digits-All fuel (n / 10)) (ground arith, tt))

pub digits-first :
    (fuel n : ℕ)
    → n < fuel
    → 0 < n
    → (c : ℕ) × (s : Text) × (digits fuel n ≡ c ∷ s) × ((c == b'0') ≡ false)
unfolding digits
digits-first zero n h p = absurd (omega arith)
digits-first (suc fuel) n h p =
    if_elim (λ w. (c : ℕ) × (s : Text) × (w ≡ c ∷ s) × ((c == b'0') ≡ false)) (ltb n 10)
      (λ small. (b'0' + n, [], refl, ground arith))
      (λ large.
        let past : 10 ≤ n = ground arith in
        let (c, s, is, no_zero) =
          digits-first fuel (n / 10) (omega (arith, past, h)) (omega (arith, past)) in
        (c, s ++ (b'0' + n % 10) ∷ [], ap (λ l. l ++ (b'0' + n % 10) ∷ []) is, no_zero))

pub split_digits-append :
    (s : Text) (c : ℕ) (unit : Text)
    → All (λ c. is_ascii_digit c ≡ true) s
    → is_ascii_digit c ≡ false
    → split_digits (s ++ c ∷ unit) ≡ (s, c ∷ unit)
unfolding split_digits
split_digits-append [] c unit h n = rw n refl
split_digits-append (d ∷ s) c unit h n =
    rw h.0 (ap (put_first d) (split_digits-append s c unit h.1 n))
