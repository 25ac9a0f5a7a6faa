-- ===== src/Correctness/Parity.antt =====
-- `add_fire` and the replay of the event log
-- (apps/server/backend/app/services/correctness.py and apps/server/backend/app/services/game.py).
use ynab_receipt_analyzer.Prelude.{
  ℕ, zero, suc, ◌+◌, ◌≤◌, ◌≡◌, refl, ap, ◌∙◌, Bool, true, false, Option, some, ◌∷◌, arith,
  Bool-cases, Option-cases, inl, inr,
}
use ynab_receipt_analyzer.Correctness.Tables.{
  WeekFire, row_at, put_row, ensure_row, worst_week, Form, Key,
}
use ynab_receipt_analyzer.Correctness.Store.{
  EventType, water_spent, week_burned, fire_extinguished, fire_added, Db, event_exists,
  incident_exists, record_event, record_incident, new_event, IncidentType, Payload,
}
use ynab_receipt_analyzer.Correctness.Actions.{
  key_of, Fire, unit_key, land, smother, log_fire, log_douse, burn_week, burn_worst, Outcome,
  outcome, apply_outcome, add_unit, add_units, add_fire, FireResult,
}
use ynab_receipt_analyzer.Correctness.Rows.{SameRows-ensure_row, row_at-week}
use ynab_receipt_analyzer.Correctness.Log.{latest, HasUnits}
use ynab_receipt_analyzer.Correctness.Replayed.{
  IsFaithful, landed-IsReplayed, doused-IsReplayed, burned-IsReplayed, record_event-quiet,
  record_event-new, unit_exists, fire_event, burn_row,
}

-- The log is faithful, and not newer than `now`.
abbrev pub IsFaithfulAt : ℕ → Db → Type 0
IsFaithfulAt now db = IsFaithful db × (latest db.events ≤ now)

record_incident-IsFaithfulAt :
    (type : IncidentType) (key : Key) (week now : ℕ) (db : Db)
    → IsFaithfulAt now db
    → IsFaithfulAt now (record_incident type key week now db)
unfolding record_incident
record_incident-IsFaithfulAt type key week now db h =
    elim (Bool-cases (incident_exists key db.incidents)) [ inl old ↦ rw old h | inr new ↦ rw new h ]

not_yet_burned :
    (f : Fire) (i flames week : ℕ) (db : Db)
    → HasUnits db.events
    → event_exists (unit_key f i) db.events ≡ false
    → event_exists (key_of Form.week_burned f.caller i week) (fire_event f i flames db ∷ db.events)
      ≡ false
unfolding event_exists
not_yet_burned f i flames week db h new = (h f.caller i new).1 week

land-IsFaithfulAt :
    (f : Fire) (i flames : ℕ) (db : Db)
    → IsFaithfulAt f.now db
    → (row_at f.week db.weeks).burnt ≡ false
    → event_exists (unit_key f i) db.events ≡ false
    → IsFaithfulAt f.now (land f (log_fire f i flames db))
      × (event_exists (unit_key f i) (land f (log_fire f i flames db)).events ≡ true)
      × ((v : ℕ)
          → event_exists
              (key_of Form.week_burned f.caller i v)
              (land f (log_fire f i flames db)).events
            ≡ false)
land-IsFaithfulAt f i flames db (h, late) alive new = rw (record_event-new _ _ _ _ _ db new) (
  (landed-IsReplayed f i flames db h late alive new, omega arith),
  unit_exists f i flames db,
  λ v. not_yet_burned f i flames v db h.units new,
)

recorded-IsFaithfulAt :
    (type : EventType) (key : Key) (receipt : Option ℕ) (payload : Payload) (now : ℕ) (db : Db)
    → event_exists key db.events ≡ false
    → IsFaithfulAt now
        (record db { events = new_event db type key receipt payload now ∷ db.events })
    → IsFaithfulAt now (record_event type key receipt payload now db)
recorded-IsFaithfulAt type key receipt payload now db new h =
    rw (record_event-new type key receipt payload now db new) h

pub not_yet_doused :
    (f : Fire) (i flames : ℕ) (db : Db)
    → HasUnits db.events
    → event_exists (unit_key f i) db.events ≡ false
    → event_exists (key_of Form.douse_water f.caller i 0) (fire_event f i flames db ∷ db.events)
      ≡ false
unfolding event_exists
not_yet_doused f i flames db h new = (h f.caller i new).0

douse-IsFaithfulAt :
    (f : Fire) (i flames : ℕ) (db : Db)
    → IsFaithfulAt f.now db
    → (row_at f.week db.weeks).burnt ≡ false
    → event_exists (unit_key f i) db.events ≡ false
    → IsFaithfulAt f.now (log_douse f i (smother f (log_fire f i flames db)))
unfolding log_douse
douse-IsFaithfulAt f i flames db (h, late) alive new = rw (record_event-new _ _ _ _ _ db new) (
    record_incident-IsFaithfulAt _ _ _ _ _ (
      let (g, late') =
        recorded-IsFaithfulAt water_spent _ _ _ f.now _ (not_yet_doused f i flames db h.units new)
          (doused-IsReplayed f i flames db _ h late alive new refl refl refl refl, omega arith) in
      record_event-quiet fire_extinguished _ _ _ f.now _ g late' refl refl))

burn_week-IsFaithfulAt :
    (f : Fire) (i : ℕ) (victim : WeekFire) (db : Db)
    → IsFaithfulAt f.now db
    → row_at victim.week_start_at db.weeks ≡ victim
    → event_exists (unit_key f i) db.events ≡ true
    → event_exists (key_of Form.week_burned f.caller i victim.week_start_at) db.events ≡ false
    → IsFaithfulAt f.now (burn_week f i victim db)
unfolding burn_week
burn_week-IsFaithfulAt f i victim db (h, late) same there new =
    let week = victim.week_start_at in
    let burned = burned-IsReplayed f i week (some victim.flames_active) db h late there in
    let (g, late') =
      recorded-IsFaithfulAt week_burned _ _ _ f.now
        (record db { weeks = put_row (burn_row victim) db.weeks }) new
        (rw same at burned, omega arith) in
    record_incident-IsFaithfulAt _ _ _ _ _ (g, late')

burn_worst-IsFaithfulAt :
    (f : Fire) (i : ℕ) (db : Db)
    → IsFaithfulAt f.now db
    → event_exists (unit_key f i) db.events ≡ true
    → ((v : ℕ) → event_exists (key_of Form.week_burned f.caller i v) db.events ≡ false)
    → IsFaithfulAt f.now (burn_worst f i db)
unfolding burn_worst
burn_worst-IsFaithfulAt f i db h there new = elim (Option-cases (worst_week db.weeks)) [
  | inl e ↦ rw (e, burn_worst) h
  | inr (v, e) ↦
      let victim = row_at v.week_start_at db.weeks in
      let same : row_at victim.week_start_at db.weeks ≡ victim =
        ap (λ (w : ℕ). row_at w db.weeks) (row_at-week v.week_start_at db.weeks) in
      rw (e, burn_worst) (burn_week-IsFaithfulAt f i victim db h same there (new _))
]

-- An outcome that records the unit's event finds its week alive and the event new.
abbrev pub records_unit : Outcome → Bool
records_unit Outcome.week_already_burnt = false
records_unit Outcome.already_recorded = false
records_unit _ = true

pub outcome-new :
    (f : Fire) (i : ℕ) (db : Db)
    → records_unit (outcome f i db) ≡ true
    → ((row_at f.week db.weeks).burnt ≡ false) × (event_exists (unit_key f i) db.events ≡ false)
unfolding outcome
outcome-new f i db h = ground arith

-- Each outcome of one unit of fire keeps the log faithful.
apply_outcome-IsFaithfulAt :
    (f : Fire) (i : ℕ) (db : Db) (o : Outcome)
    → IsFaithfulAt f.now db
    → (records_unit o ≡ true
        → ((row_at f.week db.weeks).burnt ≡ false)
          × (event_exists (unit_key f i) db.events ≡ false))
    → IsFaithfulAt f.now (apply_outcome f i db o)
unfolding apply_outcome
apply_outcome-IsFaithfulAt f i db Outcome.week_already_burnt h new =
    record_event-quiet fire_added _ _ _ f.now db h.0 h.1 refl refl
apply_outcome-IsFaithfulAt f i db Outcome.already_recorded h new = h
apply_outcome-IsFaithfulAt f i db Outcome.landed h new =
    (land-IsFaithfulAt f i _ db h (new refl).0 (new refl).1).0
apply_outcome-IsFaithfulAt f i db Outcome.doused h new =
    douse-IsFaithfulAt f i _ db h (new refl).0 (new refl).1
apply_outcome-IsFaithfulAt f i db Outcome.burned h new =
    let (landed, there, unburned) = land-IsFaithfulAt f i _ db h (new refl).0 (new refl).1 in
    burn_worst-IsFaithfulAt f i _ landed there unburned

pub add_unit-IsFaithfulAt :
    (f : Fire) (i : ℕ) (db : Db) → IsFaithfulAt f.now db → IsFaithfulAt f.now (add_unit f i db)
unfolding add_unit
add_unit-IsFaithfulAt f i db h =
    apply_outcome-IsFaithfulAt f i db (outcome f i db) h (outcome-new f i db)

add_units-IsFaithfulAt :
    (f : Fire) (left i : ℕ) (db : Db) (r : FireResult)
    → IsFaithfulAt f.now db
    → IsFaithfulAt f.now (add_units f left i db r).0
unfolding add_units
add_units-IsFaithfulAt f zero i db r h = h
add_units-IsFaithfulAt f (suc left) i db r h =
    add_units-IsFaithfulAt f left (i + 1) (add_unit f i db) _ (add_unit-IsFaithfulAt f i db h)

-- A blank row stands for none.
pub ensure_row-IsFaithfulAt :
    (f : Fire) (db : Db)
    → IsFaithfulAt f.now db
    → IsFaithfulAt f.now (record db { weeks = ensure_row f.week db.weeks })
ensure_row-IsFaithfulAt f db (h, late) = (
  record {
    rows = λ w. SameRows-ensure_row f.week db.weeks w ∙ h.rows w;
    units = h.units;
    order = h.order;
  },
  late,
)

pub add_fire-IsFaithfulAt :
    (f : Fire) (n : ℕ) (db : Db) → IsFaithfulAt f.now db → IsFaithfulAt f.now (add_fire f n db).0
unfolding add_fire
add_fire-IsFaithfulAt f zero db h = h
add_fire-IsFaithfulAt f (suc n) db h =
    add_units-IsFaithfulAt f (suc n) 0 (record db { weeks = ensure_row f.week db.weeks }) _
      (ensure_row-IsFaithfulAt f db h)
