-- ===== src/Graph/Backoff.antt =====
-- The delays between restarts, `backoff_delay` of src/kernel/kernel.rs.
use dekit.Prelude.{ℕ, zero, suc, ◌+◌, ◌*◌, ◌-◌, ◌^◌, ◌≤◌, min, ◌≡◌, ◌⊎◌, inl, inr, refl, arith}
use dekit.Graph.Driving.{backoff_delay, backoff_min, backoff_max}

-- The delay after `k` doublings.
abbrev delay_at : ℕ → ℕ
delay_at k = min (backoff_min * 2 ^ k) backoff_max

delay_at_doubles : (k : ℕ) → (delay_at k ≤ delay_at (suc k)) × (delay_at (suc k) ≤ 2 * delay_at k)
delay_at_doubles k = (omega arith, omega arith)

pow_pos : (k : ℕ) → 1 ≤ 2 ^ k
pow_pos zero = omega arith
pow_pos (suc k) = omega (arith, pow_pos k)

delay_at_bounds : (k : ℕ) → (backoff_min ≤ delay_at k) × (delay_at k ≤ backoff_max)
delay_at_bounds k = (omega (arith, pow_pos k), omega arith)

pow_nine : (k : ℕ) → 512 ≤ 2 ^ (k + 9)
pow_nine zero = omega arith
pow_nine (suc k) = let e : suc k + 9 ≡ suc (k + 9) = omega arith in rw e (omega (arith, pow_nine k))

delay_at_capped : (k : ℕ) → delay_at (k + 9) ≡ backoff_max
delay_at_capped k = omega (arith, pow_nine k)

next_step :
    (n : ℕ) → (min (suc n - 1) 16 ≡ suc (min (n - 1) 16)) ⊎ (min (suc n - 1) 16 ≡ min (n - 1) 16)
next_step n = ground arith

-- The first delay is the least one, each one is at most twice the one before and no shorter, every
-- one is within the bounds, and from the tenth attempt on it is the cap.
pub backoff_delay_lem :
    (n : ℕ)
    → (backoff_delay 1 ≡ backoff_min)
      × (backoff_min ≤ backoff_delay n)
      × (backoff_delay n ≤ backoff_max)
      × (backoff_delay n ≤ backoff_delay (suc n))
      × (backoff_delay (suc n) ≤ 2 * backoff_delay n)
      × (backoff_delay (n + 10) ≡ backoff_max)
unfolding backoff_delay
backoff_delay_lem n =
    let (low, high) = delay_at_bounds (min (n - 1) 16) in
    let (up, twice) = delay_at_doubles (min (n - 1) 16) in
    let last : min (n + 10 - 1) 16 ≡ min n 7 + 9 = omega arith in
    let cap : delay_at (min (n + 10 - 1) 16) ≡ backoff_max = rw last (delay_at_capped (min n 7)) in
    elim (next_step n) [
      | inl e ↦ (refl, low, high, rw e up, rw e twice, cap)
      | inr e ↦ (refl, low, high, rw e (omega arith), rw e (omega arith), cap)
    ]
