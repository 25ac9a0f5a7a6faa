-- ===== src/Shipper/Backoff.antt =====
-- The waiting times of `compute_backoff_seconds` (edge/pi-outbox-shipper/shipper/state.py).
use native.Mathlib.Nat.{pow-suc}
use ynab_receipt_analyzer.Prelude.{ℕ, zero, suc, ◌-◌, ◌*◌, ◌^◌, ◌≤◌, arith, min, max}
use ynab_receipt_analyzer.Shipper.{compute_backoff_seconds}

pow_pos : (n : ℕ) → 1 ≤ 2 ^ n
pow_pos zero = omega arith
pow_pos (suc n) = simp pow-suc (omega (arith, pow_pos n))

pow_mono : (m n : ℕ) → m ≤ n → 2 ^ m ≤ 2 ^ n
pow_mono zero n h = pow_pos n
pow_mono (suc m) zero h = omega arith
pow_mono (suc m) (suc n) h = simp pow-suc (omega (arith, pow_mono m n (omega arith)))

times_mono : (k a b : ℕ) → a ≤ b → k * a ≤ k * b
times_mono k a b h = grind arith

-- A wait is at most the maximum, at least the initial wait where the maximum allows that, and no
-- shorter for a later attempt than for an earlier one.
pub compute_backoff_seconds-bounded :
    (a b initial limit : ℕ)
    → a ≤ b
    → (compute_backoff_seconds a initial limit ≤ limit)
      × (min initial limit ≤ compute_backoff_seconds a initial limit)
      × (compute_backoff_seconds a initial limit ≤ compute_backoff_seconds b initial limit)
unfolding compute_backoff_seconds
compute_backoff_seconds-bounded a b initial limit h =
    let e = min (max 1 a - 1) 20 in
    let e' = min (max 1 b - 1) 20 in
    let one = times_mono initial 1 (2 ^ e) (pow_pos e) in
    let grows = times_mono initial (2 ^ e) (2 ^ e') (pow_mono e e' (omega arith)) in
    (omega arith, omega (arith, one), omega (arith, grows))
