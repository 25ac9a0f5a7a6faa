-- ===== src/Correctness/History.antt =====
-- The reconstruction of the economy from the event log: `recompute_correctness_state_from_history`
-- (apps/server/backend/app/services/correctness.py) and `_replay_week_fire_events`
-- (apps/server/backend/app/services/game.py). A debug seed enters as its floor and its counters.
use ynab_receipt_analyzer.Prelude.{
  ℕ, ◌+◌, ◌-◌, Bool, true, false, Option, none, some, List, [], ◌∷◌, leb, ltb, min, if◌then◌else◌,
}
use ynab_receipt_analyzer.Correctness.Tables.{WeekFire, row_at, put_row, Form, Key}
use ynab_receipt_analyzer.Correctness.Store.{
  fire_added, week_burned, water_earned, water_spent, Reason, forced_prevent_week_burn, given,
  Payload, GameEvent, Db, event_exists,
}

-- `order_by(created_at.asc(), id.asc())`, kept newest first. The log is given newest first, so that an
-- event goes before those of the same instant that are older than it.
unfoldable pub insert_event : GameEvent → List GameEvent → List GameEvent
insert_event e [] = e ∷ []
insert_event e (x ∷ xs) =
    if leb x.created_at e.created_at then e ∷ x ∷ xs else x ∷ insert_event e xs

unfoldable pub by_time : List GameEvent → List GameEvent
by_time [] = []
by_time (e ∷ es) = insert_event e (by_time es)

-- `int(payload.get("units", 1))`
abbrev pub units_of : Payload → ℕ
units_of p = elim p.units [ none ↦ 1 | some n ↦ n ]

-- The key `event.idempotency_key + ":forced_douse:water"`. Only a unit's key has such a companion.
abbrev pub companion : Key → Option Key
companion k = elim k.form [ Form.unit ↦ some (record k { form = Form.douse_water }) | _ ↦ none ]

-- Whether the flame of this event was smothered by a forced douse.
unfoldable pub was_doused : List GameEvent → Key → Bool
was_doused log k = elim (companion k) [ none ↦ false | some c ↦ event_exists c log ]

abbrev pub is_forced : Option Reason → Bool
is_forced none = false
is_forced (some forced_prevent_week_burn) = true
is_forced (some (given n)) = false

-- The row of a `FIRE_ADDED` event, replayed. `doused` says whether it has a forced douse.
abbrev pub replay_flame : Bool → ℕ → WeekFire → WeekFire
replay_flame doused now row = if row.burnt then row else record row {
  flames_active = if doused then row.flames_active else row.flames_active + 1;
  last_flame_at = some now;
}

-- One event of the loop, for the week that it names; `log` is the whole log.
unfoldable pub replay_event : List GameEvent → GameEvent → ℕ → List WeekFire → List WeekFire
replay_event log e week rows =
    let row = row_at week rows in
    elim e.event_type [
      | fire_added ↦
          if e.payload.week_already_burnt
          then rows
          else put_row (replay_flame (was_doused log e.idempotency_key) e.created_at row) rows
      | week_burned ↦ put_row (record row { flames_active = 0; burnt = true }) rows
      | water_spent ↦
          if is_forced e.payload.reason
          then rows
          else put_row (record row { flames_active = row.flames_active - units_of e.payload }) rows
      | _ ↦ rows
    ]

-- One round of the loop. Events at or below the floor are masked, and events that name no week change
-- nothing.
unfoldable pub replay_round : List GameEvent → ℕ → GameEvent → List WeekFire → List WeekFire
replay_round log floor e rows =
    if ltb floor e.id
    then elim e.payload.week_start_at [ none ↦ rows | some w ↦ replay_event log e w rows ]
    else rows

-- The loop, over events that are newest first.
unfoldable pub replay_events : List GameEvent → ℕ → List GameEvent → List WeekFire → List WeekFire
replay_events log floor [] rows = rows
replay_events log floor (e ∷ es) rows = replay_round log floor e (replay_events log floor es rows)

-- `_replay_week_fire_events`, from the week rows that the rebuild starts with.
unfoldable pub replay_week_fire_events : ℕ → List GameEvent → List WeekFire → List WeekFire
replay_week_fire_events floor log rows = replay_events log floor (by_time log) rows

-- The water counters that the recomputation runs through.
pub record Water : Type 0 where
  pub water_units : ℕ
  pub water_earned_count : ℕ
  pub water_spent_count : ℕ

abbrev pub replay_water : ℕ → GameEvent → Water → Water
replay_water capacity e w =
    let units = units_of e.payload in
    elim e.event_type [
      | water_earned ↦ record {
        water_units = min (w.water_units + units) capacity;
        water_earned_count = w.water_earned_count + units;
        water_spent_count = w.water_spent_count;
      }
      | water_spent ↦ record {
        water_units = w.water_units - units;
        water_earned_count = w.water_earned_count;
        water_spent_count = w.water_spent_count + units;
      }
      | _ ↦ w
    ]

unfoldable pub water_from : ℕ → ℕ → Water → List GameEvent → Water
water_from capacity floor start [] = start
water_from capacity floor start (e ∷ es) =
    let before = water_from capacity floor start es in
    if ltb floor e.id then replay_water capacity e before else before

-- `recompute_correctness_state_from_history`, from the seed's counters (zero without a seed).
unfoldable pub recompute_correctness_state : ℕ → ℕ → Water → Db → Db
recompute_correctness_state capacity floor start db =
    let w = water_from capacity floor start (by_time db.events) in
    record db {
      water_units = w.water_units;
      water_earned_count = w.water_earned_count;
      water_spent_count = w.water_spent_count;
    }
