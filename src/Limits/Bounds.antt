-- ===== src/Limits/Bounds.antt =====
-- The windows of time (apps/server/shared/receipt_shared/ai/windows.py).
use ynab_receipt_analyzer.Prelude.{ℕ, ◌+◌, ◌*◌, ◌%◌, ◌≤◌, ◌<◌, ◌≡◌, refl, arith}
use ynab_receipt_analyzer.Limits.Usage.{
  WindowName, hourly, daily, weekly, monthly, hour, day, weekday, window_start,
}

-- A window that starts at `start` and holds `now`, by its name.
abbrev pub Starts : (ℕ → ℕ) → ℕ → WindowName → ℕ → Type 0
Starts month_start now hourly start = (start % hour ≡ 0) × (start ≤ now) × (now < start + hour)
Starts month_start now daily start = (start % day ≡ 0) × (start ≤ now) × (now < start + day)
Starts month_start now weekly start =
    (start % day ≡ 0) × (weekday start ≡ 0) × (start ≤ now) × (now < start + 7 * day)
Starts month_start now monthly start = start ≡ month_start now

-- Each window starts at a whole hour, day or Monday, holds its time, and is no longer than an hour, a day or a week. The
-- start of a month is the calendar's. This holds from the first Monday of 1970.
pub window_start-Starts :
    (month_start : ℕ → ℕ) (now : ℕ) (w : WindowName)
    → 4 * day ≤ now
    → Starts month_start now w (window_start month_start now w)
unfolding window_start
window_start-Starts month_start now hourly le = (omega arith, omega arith, omega arith)
window_start-Starts month_start now daily le = (omega arith, omega arith, omega arith)
window_start-Starts month_start now weekly le = (omega arith, omega arith, omega arith, omega arith)
window_start-Starts month_start now monthly le = refl
