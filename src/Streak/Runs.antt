-- ===== src/Streak/Runs.antt =====
-- The streak as a function of the weeks that count
-- (`_derive_weekly_streak` of apps/server/backend/app/services/game.py).
use ynab_receipt_analyzer.Prelude.{
  ℕ, suc, ◌+◌, ◌≤◌, ◌≡◌, refl, Bool, true, false, Option, none, some, List, [], ◌∷◌, arith, ltb,
  max, length, if◌then◌else◌, Bool-cases, Option-cases, inl, inr,
}
use ynab_receipt_analyzer.Correctness.Tables.{WeekFire}
use ynab_receipt_analyzer.Streak.{
  ReceiptRow, sorted_weeks, judge, Streak, count_week, count_weeks, derive_weekly_streak,
}

-- The verdicts of the weeks that count, in order.
abbrev pub counted : (ℕ → Option Bool) → List ℕ → List Bool
counted verdict [] = []
counted verdict (w ∷ ws) = elim (verdict w) [
  | none ↦ counted verdict ws
  | some clean ↦ clean ∷ counted verdict ws
]

-- The clean weeks at the start of a list, at its end, and the longest run in it.
abbrev pub leading : List Bool → ℕ
leading [] = 0
leading (true ∷ bs) = suc (leading bs)
leading (false ∷ bs) = 0

abbrev pub trailing : List Bool → ℕ
trailing [] = 0
trailing (true ∷ bs) = if ltb (leading bs) (length bs) then trailing bs else suc (length bs)
trailing (false ∷ bs) = trailing bs

abbrev pub longest : List Bool → ℕ
longest [] = 0
longest (b ∷ bs) = max (leading (b ∷ bs)) (longest bs)

-- The loop over verdicts alone.
abbrev count_verdicts : List Bool → Streak → Streak
count_verdicts [] s = s
count_verdicts (b ∷ bs) s = count_verdicts bs (count_week (some b) s)

count_weeks-eq :
    (verdict : ℕ → Option Bool) (ws : List ℕ) (s : Streak)
    → count_weeks verdict ws s ≡ count_verdicts (counted verdict ws) s
unfolding count_weeks
count_weeks-eq verdict [] s = refl
count_weeks-eq verdict (w ∷ ws) s = elim (Option-cases (verdict w)) [
  | inl e ↦ rw (e, counted) (count_weeks-eq verdict ws s)
  | inr (b, e) ↦ rw (e, counted) (count_weeks-eq verdict ws (count_week (some b) s))
]

leading-le : (bs : List Bool) → leading bs ≤ length bs
leading-le [] = omega arith
leading-le (true ∷ bs) = omega (arith, leading-le bs)
leading-le (false ∷ bs) = omega arith

leading-le-longest : (bs : List Bool) → leading bs ≤ longest bs
leading-le-longest [] = omega arith
leading-le-longest (b ∷ bs) = omega arith

trailing_all : (bs : List Bool) → leading bs ≡ length bs → trailing bs ≡ length bs
trailing_all [] h = refl
trailing_all (true ∷ bs) h = ground arith
trailing_all (false ∷ bs) h = absurd (omega arith)

-- After a week that is not clean, the run is what is at the end.
trailing_from_zero :
    (bs : List Bool) (x : ℕ)
    → x ≡ (if ltb (leading bs) (length bs) then trailing bs else 0 + length bs)
    → x ≡ trailing bs
trailing_from_zero bs x h = elim (Bool-cases (ltb (leading bs) (length bs))) [
  | inl e ↦ rw e at h
  | inr e ↦
      let all_clean : trailing bs ≡ length bs = trailing_all bs (ground (arith, leading-le bs)) in
      let length_left : x ≡ 0 + length bs = rw e at h in omega arith
]

-- What the loop adds to a run and a maximum.
abbrev IsCounted : List Bool → Streak → Streak → Type 0
IsCounted bs s t =
    (t.run ≡ (if ltb (leading bs) (length bs) then trailing bs else s.run + length bs))
    × (t.max_streak ≡ max s.max_streak (max (s.run + leading bs) (longest bs)))

count_verdicts-IsCounted :
    (bs : List Bool) (s : Streak) → s.run ≤ s.max_streak → IsCounted bs s (count_verdicts bs s)
count_verdicts-IsCounted [] s h = ground arith
count_verdicts-IsCounted (true ∷ bs) s h =
    let s' = count_week (some true) s in
    let (run, most) = count_verdicts-IsCounted bs s' (ground arith) in
    (ground (arith, run, leading-le bs), ground (arith, most))
count_verdicts-IsCounted (false ∷ bs) s h =
    let (run, most) = count_verdicts-IsCounted bs (count_week (some false) s) (ground arith) in
    let first : ltb 0 (suc (length bs)) ≡ true = ground arith in
    (rw first (trailing_from_zero bs _ run), omega (arith, most, leading-le-longest bs))

-- Of the weeks that count, in order, the current streak is the number of clean green ones at the end,
-- and the maximal streak is the length of the longest run of clean green ones.
pub derive_weekly_streak-runs :
    (week_of : ℕ → ℕ) (rows : List ReceiptRow) (fires : List WeekFire) (now : ℕ)
    → let weeks = counted (judge week_of rows fires now) (sorted_weeks week_of rows) in
      ((derive_weekly_streak week_of rows fires now).run ≡ trailing weeks)
      × ((derive_weekly_streak week_of rows fires now).max_streak ≡ longest weeks)
unfolding derive_weekly_streak
derive_weekly_streak-runs week_of rows fires now =
    let weeks = counted (judge week_of rows fires now) (sorted_weeks week_of rows) in
    let start : Streak = record { run = 0; max_streak = 0 } in
    let (run, most) = count_verdicts-IsCounted weeks start (omega arith) in
    rw (count_weeks-eq (judge week_of rows fires now) (sorted_weeks week_of rows) start)
      (trailing_from_zero weeks _ run, omega (arith, most, leading-le-longest weeks))
