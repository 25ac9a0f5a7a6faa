-- ===== src/Tests/Weeks.antt =====
-- The weekly streak at concrete inputs.
use ynab_receipt_analyzer.Prelude.{ℕ, ◌≡◌, ◌/◌, false, List, [], ◌∷◌}
use ynab_receipt_analyzer.Streak.{
  green, yellow, ReceiptRow, sorted_weeks, judge, Tokens, derive_weekly_streak, evaluate_passes,
}
use ynab_receipt_analyzer.Streak.Runs.{counted, trailing, longest, derive_weekly_streak-runs}
use ynab_receipt_analyzer.Streak.Passes.{evaluate_passes-twice}

abbrev week_of : ℕ → ℕ
week_of t = t / 7

-- Two clean weeks, a week with a late receipt, and a clean one.
abbrev rows : List ReceiptRow
rows =
    record { validated_at = 3; state = green; is_shredded = false }
    ∷ record { validated_at = 9; state = green; is_shredded = false }
    ∷ record { validated_at = 16; state = yellow; is_shredded = false }
    ∷ record { validated_at = 22; state = green; is_shredded = false }
    ∷ []

derive_weekly_streak-runs_example :
    let weeks = counted (judge week_of rows [] 40) (sorted_weeks week_of rows) in
    ((derive_weekly_streak week_of rows [] 40).run ≡ trailing weeks)
    × ((derive_weekly_streak week_of rows [] 40).max_streak ≡ longest weeks)
derive_weekly_streak-runs_example = derive_weekly_streak-runs week_of rows [] 40

abbrev tokens : Tokens
tokens = record { earned_count = 0; balance = 0; passes = [] }

evaluate_passes-twice_example :
    evaluate_passes week_of 2 rows [] 40 (evaluate_passes week_of 2 rows [] 40 tokens)
    ≡ evaluate_passes week_of 2 rows [] 40 tokens
evaluate_passes-twice_example = evaluate_passes-twice week_of 2 rows [] 40 tokens
