-- ===== src/Streak.antt =====
-- The weekly streak and its passes (`_derive_weekly_streak` and `_evaluate_passes` of
-- apps/server/backend/app/services/game.py). The week in which an instant lies, which takes the time zone
-- database, is a parameter; the threshold of the settings is positive.
pub mod Runs
pub mod Passes
use ynab_receipt_analyzer.Prelude.{
  ℕ, suc, ◌+◌, ◌%◌, Bool, true, false, ◌&&◌, ◌||◌, not, Option, none, some, List, [], ◌∷◌, ◌==◌,
  ltb, leb, max, keep, map, contains, if◌then◌else◌,
}
use ynab_receipt_analyzer.Correctness.Tables.{WeekFire, row_at, has_row}

pub data ReceiptState : Type 0 where
  green yellow brown shredded : ReceiptState

-- `_classify_age`
unfoldable pub classify_age : ℕ → ℕ → ℕ → ReceiptState
classify_age green_threshold brown_threshold age =
    if leb age green_threshold then green else if ltb brown_threshold age then brown else yellow

pub record ReceiptRow : Type 0 where
  pub validated_at : ℕ
  pub state : ReceiptState
  pub is_shredded : Bool

-- `{"green": 0, "yellow": 1, "brown": 2}.get(state, 0)`
abbrev pub rank : ReceiptState → ℕ
rank green = 0
rank yellow = 1
rank brown = 2
rank shredded = 0

abbrev pub worst_rank : List ReceiptRow → ℕ
worst_rank [] = 0
worst_rank (r ∷ rs) = max (rank r.state) (worst_rank rs)

-- `sorted` of the set of the weeks.
abbrev pub insert_week : ℕ → List ℕ → List ℕ
insert_week w [] = w ∷ []
insert_week w (x ∷ xs) =
    if w == x then x ∷ xs else if ltb w x then w ∷ x ∷ xs else x ∷ insert_week w xs

abbrev pub sorted_weeks : (ℕ → ℕ) → List ReceiptRow → List ℕ
sorted_weeks week_of [] = []
sorted_weeks week_of (r ∷ rs) = insert_week (week_of r.validated_at) (sorted_weeks week_of rs)

abbrev pub scored_in : (ℕ → ℕ) → List ReceiptRow → ℕ → List ReceiptRow
scored_in week_of rows week =
    keep (λ r. not r.is_shredded) (keep (λ r. week_of r.validated_at == week) rows)

abbrev pub has_fire : List WeekFire → ℕ → Bool
has_fire fires week =
    let row = row_at week fires in has_row week fires && (ltb 0 row.flames_active || row.burnt)

-- What a week that has scored receipts counts as: clean green or not.
abbrev pub judge_scored : List WeekFire → ℕ → List ReceiptRow → Option Bool
judge_scored fires week [] = none
judge_scored fires week (r ∷ rs) = some ((worst_rank (r ∷ rs) == 0) && not (has_fire fires week))

-- `none` for a week that neither breaks nor counts: the current one, a later one and an empty one.
unfoldable pub judge : (ℕ → ℕ) → List ReceiptRow → List WeekFire → ℕ → ℕ → Option Bool
judge week_of rows fires now week =
    if leb (week_of now) week then none else judge_scored fires week (scored_in week_of rows week)

pub record Streak : Type 0 where
  pub run : ℕ
  pub max_streak : ℕ

abbrev pub count_week : Option Bool → Streak → Streak
count_week none s = s
count_week (some true) s = record {
  run = s.run + 1;
  max_streak = if ltb s.max_streak (s.run + 1) then s.run + 1 else s.max_streak;
}
count_week (some false) s = record { run = 0; max_streak = s.max_streak }

-- The loop over the weeks.
unfoldable pub count_weeks : (ℕ → Option Bool) → List ℕ → Streak → Streak
count_weeks verdict [] s = s
count_weeks verdict (w ∷ ws) s = count_weeks verdict ws (count_week (verdict w) s)

-- The current streak is the run at the end.
unfoldable pub derive_weekly_streak : (ℕ → ℕ) → List ReceiptRow → List WeekFire → ℕ → Streak
derive_weekly_streak week_of rows fires now =
    count_weeks (judge week_of rows fires now) (sorted_weeks week_of rows)
      (record { run = 0; max_streak = 0 })

-- The tokens, and the weeks whose `PASS_EARNED` event is recorded.
pub record Tokens : Type 0 where
  pub earned_count : ℕ
  pub balance : ℕ
  pub passes : List ℕ

unfoldable pub award_pass : ℕ → Tokens → Tokens
award_pass week t = if contains week t.passes then t else record {
  earned_count = t.earned_count + 1;
  balance = t.balance + 1;
  passes = week ∷ t.passes;
}

-- The loop of `_evaluate_passes`, with the run so far.
unfoldable pub award_weeks : (ℕ → Option Bool) → ℕ → List ℕ → ℕ → Tokens → Tokens
award_weeks verdict threshold [] run t = t
award_weeks verdict threshold (w ∷ ws) run t = elim (verdict w) [
  | none ↦ award_weeks verdict threshold ws run t
  | some clean ↦
      if clean
      then award_weeks verdict threshold ws (run + 1)
          (if (run + 1) % threshold == 0 then award_pass w t else t)
      else award_weeks verdict threshold ws 0 t
]

unfoldable pub evaluate_passes : (ℕ → ℕ) → ℕ → List ReceiptRow → List WeekFire → ℕ → Tokens → Tokens
evaluate_passes week_of threshold rows fires now t =
    award_weeks (judge week_of rows fires now) threshold (sorted_weeks week_of rows) 0 t
