-- ===== src/Correctness/Actions.antt =====
-- `add_fire`, `award_water` and `spend_water_to_extinguish`
-- (apps/server/backend/app/services/correctness.py). The week of a receipt is resolved by the caller
-- (`_week_start_for_receipt`), which needs the time zone database; counts of units are not negative.
use ynab_receipt_analyzer.Prelude.{
  ℕ, zero, suc, ◌+◌, ◌-◌, true, Option, none, some, ◌==◌, leb, ltb, min, if◌then◌else◌,
}
use ynab_receipt_analyzer.Correctness.Tables.{
  WeekFire, row_at, has_row, put_row, ensure_row, total_active_flames, worst_week, Form, Key,
}
use ynab_receipt_analyzer.Correctness.Store.{
  fire_added, week_burned, water_earned, water_spent, fire_extinguished, Reason,
  forced_prevent_week_burn, given, Payload, no_payload, forced_week_douse, week_burned_incident, Db,
  event_exists, record_event, record_incident,
}

-- The arguments of one `add_fire` call, with the week already resolved and `created_at` set.
pub record Fire : Type 0 where
  pub caller : ℕ
  pub receipt_id : Option ℕ
  pub reason : ℕ
  pub week : ℕ
  pub now : ℕ

abbrev pub key_of : Form → ℕ → ℕ → ℕ → Key
key_of form caller index week = record { form = form; caller = caller; index = index; week = week }

abbrev pub unit_key : Fire → ℕ → Key
unit_key f i = key_of Form.unit f.caller i 0

abbrev pub fire_payload : Fire → ℕ → Payload
fire_payload f flames = record no_payload {
  units = some 1;
  reason = some (given f.reason);
  week_start_at = some f.week;
  flames_active = some flames;
}

abbrev pub log_fire : Fire → ℕ → ℕ → Db → Db
log_fire f i flames =
    record_event fire_added (unit_key f i) f.receipt_id (fire_payload f flames) f.now

-- The flame lands on its week.
abbrev pub land : Fire → Db → Db
land f db =
    let row = row_at f.week db.weeks in
    record db {
      weeks =
          put_row (record row { flames_active = row.flames_active + 1; last_flame_at = some f.now })
            db.weeks;
    }

-- One droplet smothers the flame, which does not land.
abbrev pub smother : Fire → Db → Db
smother f db =
    let row = row_at f.week db.weeks in
    record db {
      water_units = db.water_units - 1;
      water_spent_count = db.water_spent_count + 1;
      fire_extinguished_count = db.fire_extinguished_count + 1;
      weeks = put_row (record row { last_flame_at = some f.now }) db.weeks;
    }

abbrev pub forced_payload : Fire → Payload
forced_payload f = record no_payload {
  units = some 1;
  reason = some forced_prevent_week_burn;
  week_start_at = some f.week;
}

unfoldable pub log_douse : Fire → ℕ → Db → Db
log_douse f i db =
    let spent = record (forced_payload f) { water_units = some db.water_units } in
    let db₁ =
      record_event water_spent (key_of Form.douse_water f.caller i 0) f.receipt_id spent f.now db in
    let db₂ =
      record_event fire_extinguished (key_of Form.douse_extinguished f.caller i 0) f.receipt_id
        (forced_payload f) f.now db₁ in
    record_incident forced_week_douse (key_of Form.unit f.caller i 0) f.week f.now db₂

-- The week of this row burns: its flames are cleared and it is marked for good.
unfoldable pub burn_week : Fire → ℕ → WeekFire → Db → Db
burn_week f i victim db =
    let burnt_db = record db {
      weeks = put_row (record victim { flames_active = 0; burnt = true }) db.weeks;
    } in
    let week = victim.week_start_at in
    let payload = record no_payload {
      week_start_at = some week;
      flames_cleared = some victim.flames_active;
    } in
    let db₁ =
      record_event week_burned (key_of Form.week_burned f.caller i week) f.receipt_id payload f.now
        burnt_db in
    record_incident week_burned_incident (key_of Form.week_burned f.caller i week) week f.now db₁

-- The worst week burns to ash.
unfoldable pub burn_worst : Fire → ℕ → Db → Db
burn_worst f i db = elim (worst_week db.weeks) [
  | none ↦ db
  | some v ↦ burn_week f i (row_at v.week_start_at db.weeks) db
]

-- What a call of `add_fire` reports. (`fires_extinguished` and `waters_spent` of the dict are both
-- `forced_waters_spent`.)
pub record FireResult : Type 0 where
  pub fires_added : ℕ
  pub forced_waters_spent : ℕ
  pub burns_triggered : ℕ

abbrev pub nothing_done : FireResult
nothing_done = record { fires_added = 0; forced_waters_spent = 0; burns_triggered = 0 }

-- What happens to one incoming flame. The week has a row.
pub data Outcome : Type 0 where
  week_already_burnt already_recorded landed doused burned : Outcome

unfoldable pub outcome : Fire → ℕ → Db → Outcome
outcome f i db =
    if (row_at f.week db.weeks).burnt
    then week_already_burnt
    else if event_exists (unit_key f i) db.events
    then already_recorded
    else if leb (total_active_flames db.weeks + 1) db.water_units
    then landed
    else if ltb 0 db.water_units
    then doused
    else burned

abbrev pub ash_payload : Fire → Payload
ash_payload f = record no_payload {
  units = some 1;
  reason = some (given f.reason);
  week_start_at = some f.week;
  week_already_burnt = true;
}

unfoldable pub apply_outcome : Fire → ℕ → Db → Outcome → Db
apply_outcome f i db week_already_burnt =
    record_event fire_added (key_of Form.burnt_week f.caller i 0) f.receipt_id (ash_payload f) f.now
      db
apply_outcome f i db already_recorded = db
apply_outcome f i db landed = land f (log_fire f i ((row_at f.week db.weeks).flames_active + 1) db)
apply_outcome f i db doused =
    log_douse f i (smother f (log_fire f i (row_at f.week db.weeks).flames_active db))
apply_outcome f i db burned =
    burn_worst f i (land f (log_fire f i ((row_at f.week db.weeks).flames_active + 1) db))

-- One round of the loop of `add_fire`.
unfoldable pub add_unit : Fire → ℕ → Db → Db
add_unit f i db = apply_outcome f i db (outcome f i db)

abbrev pub count : Outcome → FireResult → FireResult
count week_already_burnt r = r
count already_recorded r = r
count landed r = record r { fires_added = r.fires_added + 1 }
count doused r = record r {
  fires_added = r.fires_added + 1;
  forced_waters_spent = r.forced_waters_spent + 1;
}
count burned r = record r {
  fires_added = r.fires_added + 1;
  burns_triggered = r.burns_triggered + 1;
}

-- `for i in range(units)`, with `left` rounds to go.
unfoldable pub add_units : Fire → ℕ → ℕ → Db → FireResult → Db × FireResult
add_units f zero i db r = (db, r)
add_units f (suc left) i db r =
    add_units f left (i + 1) (add_unit f i db) (count (outcome f i db) r)

unfoldable pub add_fire : Fire → ℕ → Db → Db × FireResult
add_fire f zero db = (db, nothing_done)
add_fire f (suc n) db =
    add_units f (suc n) 0 (record db { weeks = ensure_row f.week db.weeks }) nothing_done

-- `award_water`, with the capacity of the settings. It returns the units that were added.
unfoldable pub award_water : ℕ → ℕ → Option ℕ → ℕ → ℕ → ℕ → Db → Db × ℕ
award_water capacity units receipt caller reason now db =
    let level = min (db.water_units + units) capacity in
    let added = level - db.water_units in
    let key = key_of Form.plain caller 0 0 in
    let payload = record no_payload {
      units = some added;
      reason = some (given reason);
      water_units = some level;
    } in
    let filled = record db {
      water_units = level;
      water_earned_count = db.water_earned_count + added;
    } in
    if units == 0
    then (db, 0)
    else if event_exists key db.events
    then (db, 0)
    else if added == 0
    then (record db { water_units = level }, 0)
    else (record_event water_earned key receipt payload now filled, added)

-- The arguments of `spend_water_to_extinguish`.
pub record Spend : Type 0 where
  pub units : ℕ
  pub caller : ℕ
  pub receipt_id : Option ℕ
  pub reason : Reason
  pub week : Option ℕ
  pub now : ℕ

abbrev pub take_water : ℕ → Db → Db
take_water spendable db = record db {
  water_units = db.water_units - spendable;
  water_spent_count = db.water_spent_count + spendable;
  fire_extinguished_count = db.fire_extinguished_count + spendable;
}

-- The two events of a manual douse.
unfoldable pub log_spend : Spend → ℕ → Option ℕ → Option ℕ → Db → Db
log_spend s spendable flames fire db =
    let base = record no_payload {
      units = some spendable;
      reason = some s.reason;
      week_start_at = s.week;
    } in
    record_event fire_extinguished (key_of Form.extinguished s.caller 0 0) s.receipt_id
      (record base { flames_active = flames; fire_units = fire }) s.now
      (record_event water_spent (key_of Form.water s.caller 0 0) s.receipt_id
        (record base { water_units = some db.water_units }) s.now db)

-- Water on the flames of one week.
unfoldable pub spend_on_week : Spend → ℕ → Db → Db × ℕ
spend_on_week s week db =
    let row = row_at week db.weeks in
    let spendable = min s.units (min db.water_units row.flames_active) in
    let doused = record row { flames_active = row.flames_active - spendable } in
    if has_row week db.weeks
    then if spendable == 0 then (db, 0) else (
      log_spend s spendable (some doused.flames_active) none
          (record (take_water spendable db) { weeks = put_row doused db.weeks }),
      spendable,
    )
    else (db, 0)

-- The legacy path, on the global count of fires.
unfoldable pub spend_on_board : Spend → Db → Db × ℕ
spend_on_board s db =
    let spendable = min s.units (min db.water_units db.fire_units) in
    let left = db.fire_units - spendable in
    if spendable == 0 then (db, 0) else (
      log_spend s spendable none (some left)
          (record (take_water spendable db) { fire_units = left }),
      spendable,
    )

-- The state and the water spent.
unfoldable pub spend_water_to_extinguish : Spend → Db → Db × ℕ
spend_water_to_extinguish s db =
    if s.units == 0
    then (db, 0)
    else if event_exists (key_of Form.water s.caller 0 0) db.events
    then (db, 0)
    else elim s.week [ none ↦ spend_on_board s db | some week ↦ spend_on_week s week db ]
