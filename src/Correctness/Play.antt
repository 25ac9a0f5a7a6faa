-- ===== src/Correctness/Play.antt =====
-- Any sequence of calls of the three operations of the economy
-- (apps/server/backend/app/services/correctness.py), and the reconstruction of its week rows.
use ynab_receipt_analyzer.Prelude.{
  ℕ, ◌≤◌, ◌≡◌, refl, Bool, true, false, Option, some, List, [], ◌∷◌, arith, if◌then◌else◌,
}
use ynab_receipt_analyzer.Correctness.Store.{Db, empty_db, event_exists}
use ynab_receipt_analyzer.Correctness.Actions.{
  Fire, add_fire, award_water, Spend, spend_water_to_extinguish,
}
use ynab_receipt_analyzer.Correctness.History.{
  is_forced, replay_week_fire_events, replay_events, recompute_correctness_state, water_from,
}
use ynab_receipt_analyzer.Correctness.Rows.{SameRows}
use ynab_receipt_analyzer.Correctness.Log.{by_time-eq}
use ynab_receipt_analyzer.Correctness.Replayed.{IsReplayed}
use ynab_receipt_analyzer.Correctness.Parity.{IsFaithfulAt, add_fire-IsFaithfulAt}
use ynab_receipt_analyzer.Correctness.Economy.{award_water-IsFaithfulAt, spend_water-IsFaithfulAt}
use ynab_receipt_analyzer.Correctness.Reservoir.{
  no_water, IsBalanced, add_fire-IsBalanced, award_water-IsBalanced, spend_water-IsBalanced,
}

-- A call of one of the three operations.
pub data Operation : Type 0 where
  add_fire_call : Fire → ℕ → Operation
  award_water_call : ℕ → ℕ → Option ℕ → ℕ → ℕ → ℕ → Operation
  spend_water_call : Spend → Operation

abbrev pub apply : Operation → Db → Db
apply (add_fire_call f units) db = (add_fire f units db).0
apply (award_water_call capacity units receipt caller reason now) db =
    (award_water capacity units receipt caller reason now db).0
apply (spend_water_call s) db = (spend_water_to_extinguish s db).0

-- The calls one after another, the first of the list first.
unfoldable pub run : List Operation → Db → Db
run [] db = db
run (o ∷ os) db = run os (apply o db)

-- When a call happens.
abbrev pub instant : Operation → ℕ
instant (add_fire_call f units) = f.now
instant (award_water_call capacity units receipt caller reason now) = now
instant (spend_water_call s) = s.now

-- A caller of `spend_water_to_extinguish` gives a reason of its own.
abbrev pub gives_reason : Operation → Bool
gives_reason (spend_water_call s) = if is_forced (some s.reason) then false else true
gives_reason o = true

-- The calls happen in order, from this instant on.
abbrev pub IsTimely : ℕ → List Operation → Type 0
IsTimely start [] = Unit
IsTimely start (o ∷ os) = (start ≤ instant o) × (gives_reason o ≡ true) × IsTimely (instant o) os

later-IsFaithfulAt :
    (start now : ℕ) (db : Db) → start ≤ now → IsFaithfulAt start db → IsFaithfulAt now db
later-IsFaithfulAt start now db le (h, late) = (h, omega arith)

apply-IsFaithfulAt :
    (o : Operation) (db : Db)
    → gives_reason o ≡ true
    → IsFaithfulAt (instant o) db
    → IsFaithfulAt (instant o) (apply o db)
apply-IsFaithfulAt (add_fire_call f units) db g h = add_fire-IsFaithfulAt f units db h
apply-IsFaithfulAt (award_water_call capacity units receipt caller reason now) db g h =
    award_water-IsFaithfulAt capacity units receipt caller reason now db h
apply-IsFaithfulAt (spend_water_call s) db g h = spend_water-IsFaithfulAt s db (ground arith) h

pub run-IsFaithful :
    (start : ℕ) (os : List Operation) (db : Db)
    → IsTimely start os
    → IsFaithfulAt start db
    → IsReplayed (run os db).weeks (run os db).events
unfolding run
run-IsFaithful start [] db t h = h.0
run-IsFaithful start (o ∷ os) db (le, g, t) h =
    run-IsFaithful (instant o) os (apply o db) t
      (apply-IsFaithfulAt o db g (later-IsFaithfulAt start (instant o) db le h))

pub empty_db-IsFaithfulAt : IsFaithfulAt 0 empty_db
unfolding replay_events event_exists
empty_db-IsFaithfulAt =
    (record { rows = λ w. refl; units = λ c i h. (refl, λ v. refl); order = tt }, omega arith)

-- After any calls of `add_fire`, `award_water` and `spend_water_to_extinguish` on an empty database,
-- made in the order of their instants and with no caller that gives the reason of a forced douse,
-- `_replay_week_fire_events` on the event log gives each week the row that live play left it
-- (active flames, burnt flag and last flame), a week without a row counting as a blank one.
pub replay_week_fire_events-run :
    (os : List Operation)
    → IsTimely 0 os
    → SameRows (run os empty_db).weeks (replay_week_fire_events 0 (run os empty_db).events [])
unfolding replay_week_fire_events
replay_week_fire_events-run os t w =
    let h = run-IsFaithful 0 os empty_db t empty_db-IsFaithfulAt in
    rw (by_time-eq (run os empty_db).events h.order) (h.rows w)

-- The capacity of the settings is the same in every award.
abbrev pub HasCapacity : ℕ → List Operation → Type 0
HasCapacity capacity [] = Unit
HasCapacity capacity (award_water_call c units receipt caller reason now ∷ os) =
    (c ≡ capacity) × HasCapacity capacity os
HasCapacity capacity (o ∷ os) = HasCapacity capacity os

run-IsBalanced :
    (capacity start : ℕ) (os : List Operation) (db : Db)
    → IsTimely start os
    → HasCapacity capacity os
    → IsFaithfulAt start db
    → IsBalanced capacity db
    → IsBalanced capacity (run os db)
unfolding run
run-IsBalanced capacity start [] db t c h b = b
run-IsBalanced capacity start (add_fire_call f units ∷ os) db (le, g, t) c h b =
    let h' = later-IsFaithfulAt start f.now db le h in
    run-IsBalanced capacity f.now os _ t c (apply-IsFaithfulAt (add_fire_call f units) db g h')
      (add_fire-IsBalanced capacity f units db b h')
run-IsBalanced capacity start (spend_water_call s ∷ os) db (le, g, t) c h b =
    run-IsBalanced capacity s.now os _ t c
      (apply-IsFaithfulAt (spend_water_call s) db g (later-IsFaithfulAt start s.now db le h))
      (spend_water-IsBalanced capacity s db b)
run-IsBalanced capacity start (award_water_call c units receipt caller reason now ∷ os) db
      (le, g, t) (same, cs) h b =
    run-IsBalanced capacity now os _ t cs
      (apply-IsFaithfulAt (award_water_call c units receipt caller reason now) db g
        (later-IsFaithfulAt start now db le h))
      (rw same (award_water-IsBalanced capacity units receipt caller reason now db b))

-- After any calls of `add_fire`, `award_water` and `spend_water_to_extinguish` on an empty database,
-- made in the order of their instants, with one capacity in every award and with no caller that gives
-- the reason of a forced douse, the water is within the capacity, and
-- `recompute_correctness_state_from_history` without a debug seed gives back the state as it is.
pub recompute_correctness_state-run :
    (capacity : ℕ) (os : List Operation)
    → IsTimely 0 os
    → HasCapacity capacity os
    → (recompute_correctness_state capacity 0 no_water (run os empty_db) ≡ run os empty_db)
      × ((run os empty_db).water_units ≤ capacity)
unfolding recompute_correctness_state water_from
recompute_correctness_state-run capacity os t c =
    let h = run-IsFaithful 0 os empty_db t empty_db-IsFaithfulAt in
    let (same, le) =
      run-IsBalanced capacity 0 os empty_db t c empty_db-IsFaithfulAt (refl, omega arith) in
    (rw (by_time-eq (run os empty_db).events h.order, same) refl, le)
