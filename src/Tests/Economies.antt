-- ===== src/Tests/Economies.antt =====
-- The economy at concrete inputs.
use ynab_receipt_analyzer.Prelude.{◌≤◌, ◌≡◌, refl, none, some, List, [], ◌∷◌, arith}
use ynab_receipt_analyzer.Correctness.Store.{empty_db, given}
use ynab_receipt_analyzer.Correctness.Actions.{award_water, Spend, spend_water_to_extinguish}
use ynab_receipt_analyzer.Correctness.History.{replay_week_fire_events, recompute_correctness_state}
use ynab_receipt_analyzer.Correctness.Rows.{SameRows}
use ynab_receipt_analyzer.Correctness.Reservoir.{no_water}
use ynab_receipt_analyzer.Correctness.Play.{
  Operation, add_fire_call, award_water_call, spend_water_call, run, IsTimely, HasCapacity,
  replay_week_fire_events-run, recompute_correctness_state-run,
}
use ynab_receipt_analyzer.Correctness.Retry.{award_water-retry, spend_water_to_extinguish-retry}

abbrev spend_one : Spend
spend_one = record {
  units = 1;
  caller = 3;
  receipt_id = none;
  reason = given 9;
  week = some 100;
  now = 130;
}

-- Two droplets, one flame, a droplet spent on it, and three flames: one lands, one is smothered and the
-- last one burns the week.
abbrev calls : List Operation
calls =
    award_water_call 10 2 none 1 5 110
    ∷ add_fire_call (record { caller = 2; receipt_id = some 8; reason = 6; week = 100; now = 120 })
        1
    ∷ spend_water_call spend_one
    ∷ add_fire_call (record { caller = 4; receipt_id = none; reason = 6; week = 100; now = 140 }) 3
    ∷ []

calls-IsTimely : IsTimely 0 calls
calls-IsTimely =
    (omega arith, refl, (omega arith, refl, (omega arith, refl, (omega arith, refl, tt))))

calls-HasCapacity : HasCapacity 10 calls
calls-HasCapacity = (refl, tt)

replay_week_fire_events-run_example :
    SameRows (run calls empty_db).weeks (replay_week_fire_events 0 (run calls empty_db).events [])
replay_week_fire_events-run_example = replay_week_fire_events-run calls calls-IsTimely

recompute_correctness_state-run_example :
    (recompute_correctness_state 10 0 no_water (run calls empty_db) ≡ run calls empty_db)
    × ((run calls empty_db).water_units ≤ 10)
recompute_correctness_state-run_example =
    recompute_correctness_state-run 10 calls calls-IsTimely calls-HasCapacity

award_water-retry_example :
    award_water 10 2 none 1 5 110 (award_water 10 2 none 1 5 110 empty_db).0
    ≡ ((award_water 10 2 none 1 5 110 empty_db).0, 0)
award_water-retry_example = award_water-retry 10 2 none 1 5 110 empty_db

spend_water_to_extinguish-retry_example :
    spend_water_to_extinguish spend_one (spend_water_to_extinguish spend_one (run calls empty_db)).0
    ≡ ((spend_water_to_extinguish spend_one (run calls empty_db)).0, 0)
spend_water_to_extinguish-retry_example =
    spend_water_to_extinguish-retry spend_one (run calls empty_db)
