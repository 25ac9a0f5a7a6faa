-- ===== src/Correctness/Replayed.antt =====
-- The replay of one event of each kind (`_replay_week_fire_events` of
-- apps/server/backend/app/services/game.py).
use ynab_receipt_analyzer.Prelude.{
  ℕ, ◌+◌, ◌≤◌, ◌≡◌, refl, ap, ◌∙◌, Bool, true, false, Option, some, List, [], ◌∷◌, arith,
  Bool-cases, inl, inr,
}
use ynab_receipt_analyzer.Correctness.Tables.{WeekFire, row_at, put_row, Form, Key}
use ynab_receipt_analyzer.Correctness.Store.{
  EventType, fire_added, week_burned, water_spent, GameEvent, Db, event_exists, record_event,
  new_event, Payload, no_payload,
}
use ynab_receipt_analyzer.Correctness.Actions.{key_of, Fire, unit_key, fire_payload}
use ynab_receipt_analyzer.Correctness.History.{
  was_doused, is_forced, replay_event, replay_round, replay_events, replay_flame,
}
use ynab_receipt_analyzer.Correctness.Rows.{SameRows, SameRows-put_row}
use ynab_receipt_analyzer.Correctness.Log.{
  latest, IsChronological, HasUnits, was_doused-cons, replay_events-cons, replay_events-douse,
  follows_unit, HasUnits-cons, HasUnits-cons_following,
}

-- The rows that a log replays to from nothing.
abbrev pub replayed : List GameEvent → List WeekFire
replayed log = replay_events log 0 log []

-- The week rows are what the log replays to.
pub record IsReplayed (weeks : List WeekFire) (log : List GameEvent) : Type 0 where
  pub rows : SameRows weeks (replayed log)
  pub units : HasUnits log
  pub order : IsChronological log

-- One more event, of a form that follows no unit, with the rows that its round leaves.
pub push :
    (weeks weeks' : List WeekFire) (log : List GameEvent) (e : GameEvent)
    → IsReplayed weeks log
    → follows_unit e.idempotency_key ≡ false
    → latest log ≤ e.created_at
    → SameRows weeks' (replay_round (e ∷ log) 0 e (replayed log))
    → IsReplayed weeks' (e ∷ log)
unfolding replay_events
push weeks weeks' log e h own late same = record {
  rows = λ w. rw (replay_events-cons e log log [] (ground arith)) (same w);
  units = HasUnits-cons e log own h.units;
  order = (late, h.order);
}

-- The types of event that a replay passes over.
abbrev pub is_quiet : GameEvent → Bool
is_quiet e = elim e.event_type [
  | fire_added ↦ e.payload.week_already_burnt
  | week_burned ↦ false
  | water_spent ↦ false
  | _ ↦ true
]

pub replay_round_quiet :
    (log : List GameEvent) (e : GameEvent) (rows : List WeekFire)
    → is_quiet e ≡ true
    → replay_round log 0 e rows ≡ rows
unfolding replay_round replay_event
replay_round_quiet log e rows h = ground arith

push_quiet :
    (weeks : List WeekFire) (log : List GameEvent) (e : GameEvent)
    → IsReplayed weeks log
    → follows_unit e.idempotency_key ≡ false
    → latest log ≤ e.created_at
    → is_quiet e ≡ true
    → IsReplayed weeks (e ∷ log)
push_quiet weeks log e h own late quiet =
    push weeks weeks log e h own late
      (λ w. rw (replay_round_quiet (e ∷ log) e (replayed log) quiet) (h.rows w))

-- The event of one unit of fire.
abbrev pub fire_event : Fire → ℕ → ℕ → Db → GameEvent
fire_event f i flames db =
    new_event db fire_added (unit_key f i) f.receipt_id (fire_payload f flames) f.now

replay_round_fire :
    (f : Fire) (i flames : ℕ) (db : Db) (log : List GameEvent) (rows : List WeekFire)
    → replay_round log 0 (fire_event f i flames db) rows
      ≡ put_row (replay_flame (was_doused log (unit_key f i)) f.now (row_at f.week rows)) rows
unfolding replay_round replay_event
replay_round_fire f i flames db log rows = ground arith

-- A unit that is not recorded has no forced douse.
not_doused :
    (f : Fire) (i : ℕ) (e : GameEvent) (log : List GameEvent)
    → HasUnits log
    → event_exists (unit_key f i) log ≡ false
    → e.idempotency_key ≡ unit_key f i
    → was_doused (e ∷ log) (unit_key f i) ≡ false
unfolding was_doused
not_doused f i e log h new k =
    was_doused-cons e log (unit_key f i) (rw k refl) ∙ (h f.caller i new).0

-- The row of a flame that lands.
abbrev pub lit : Fire → WeekFire → WeekFire
lit f row = record row { flames_active = row.flames_active + 1; last_flame_at = some f.now }

pub landed-IsReplayed :
    (f : Fire) (i flames : ℕ) (db : Db)
    → IsReplayed db.weeks db.events
    → latest db.events ≤ f.now
    → (row_at f.week db.weeks).burnt ≡ false
    → event_exists (unit_key f i) db.events ≡ false
    → IsReplayed
        (put_row (lit f (row_at f.week db.weeks)) db.weeks)
        (fire_event f i flames db ∷ db.events)
landed-IsReplayed f i flames db h late alive new =
    let e = fire_event f i flames db in
    let log = db.events in
    let row = row_at f.week db.weeks in
    let none_doused = not_doused f i e log h.units new refl in
    let same : lit f row ≡ replay_flame false f.now row = ground arith in
    push db.weeks _ log e h refl late (λ w.
      rw (replay_round_fire f i flames db (e ∷ log) (replayed log), none_doused)
        (SameRows-put_row db.weeks (replayed log) _ _ h.rows (rw (← h.rows f.week) same) w))

replay_round_forced :
    (log : List GameEvent) (e : GameEvent) (rows : List WeekFire)
    → e.event_type ≡ water_spent
    → is_forced e.payload.reason ≡ true
    → replay_round log 0 e rows ≡ rows
unfolding replay_round replay_event
replay_round_forced log e rows type forced = ground arith

is_doused :
    (f : Fire) (i : ℕ) (spent : GameEvent) (log : List GameEvent)
    → spent.idempotency_key ≡ key_of Form.douse_water f.caller i 0
    → was_doused (spent ∷ log) (unit_key f i) ≡ true
unfolding was_doused event_exists
is_doused f i spent log key = ground arith

pub unit_exists :
    (f : Fire) (i flames : ℕ) (db : Db)
    → event_exists (unit_key f i) (fire_event f i flames db ∷ db.events) ≡ true
unfolding event_exists
unit_exists f i flames db = ground arith

-- A smothered flame: the unit's event, the spent droplet and the extinguished fire.
abbrev pub smothered : Fire → WeekFire → WeekFire
smothered f row = record row { last_flame_at = some f.now }

pub doused-IsReplayed :
    (f : Fire) (i flames : ℕ) (db : Db) (spent : GameEvent)
    → IsReplayed db.weeks db.events
    → latest db.events ≤ f.now
    → (row_at f.week db.weeks).burnt ≡ false
    → event_exists (unit_key f i) db.events ≡ false
    → spent.idempotency_key ≡ key_of Form.douse_water f.caller i 0
    → spent.event_type ≡ water_spent
    → is_forced spent.payload.reason ≡ true
    → spent.created_at ≡ f.now
    → IsReplayed
        (put_row (smothered f (row_at f.week db.weeks)) db.weeks)
        (spent ∷ fire_event f i flames db ∷ db.events)
unfolding replay_events
doused-IsReplayed f i flames db spent h late alive new key type forced now =
    let e = fire_event f i flames db in
    let log = db.events in
    let row = row_at f.week db.weeks in
    let same : smothered f row ≡ replay_flame true f.now row = ground arith in
    record {
      rows = λ w.
          rw
            (
              replay_round_forced (spent ∷ e ∷ log) spent _ type forced,
              replay_round_fire f i flames db (spent ∷ e ∷ log) _,
              is_doused f i spent (e ∷ log) key,
              replay_events-douse spent (e ∷ log) log [] f.caller i key new,
              replay_events-cons e log log [] refl,
            )
            (SameRows-put_row db.weeks (replayed log) _ _ h.rows (rw (← h.rows f.week) same) w);
      units =
          HasUnits-cons_following spent (e ∷ log) f.caller i
            (ap (λ (k : Key). k.caller) key, ap (λ (k : Key). k.index) key) (rw key refl)
            (unit_exists f i flames db) (HasUnits-cons e log refl h.units);
      order = (omega arith, (late, h.order));
    }

-- The worst week after a burn.
abbrev pub burn_row : WeekFire → WeekFire
burn_row row = record row { flames_active = 0; burnt = true }

abbrev pub burn_event : Fire → ℕ → ℕ → Option ℕ → Db → GameEvent
burn_event f i week cleared db =
    new_event db week_burned (key_of Form.week_burned f.caller i week) f.receipt_id
      (record no_payload { week_start_at = some week; flames_cleared = cleared }) f.now

replay_round_burn :
    (f : Fire) (i week : ℕ) (cleared : Option ℕ) (db : Db) (log : List GameEvent)
    (rows : List WeekFire)
    → replay_round log 0 (burn_event f i week cleared db) rows
      ≡ put_row (burn_row (row_at week rows)) rows
unfolding replay_round replay_event
replay_round_burn f i week cleared db log rows = ground arith

pub burned-IsReplayed :
    (f : Fire) (i week : ℕ) (cleared : Option ℕ) (db : Db)
    → IsReplayed db.weeks db.events
    → latest db.events ≤ f.now
    → event_exists (unit_key f i) db.events ≡ true
    → IsReplayed
        (put_row (burn_row (row_at week db.weeks)) db.weeks)
        (burn_event f i week cleared db ∷ db.events)
unfolding replay_events
burned-IsReplayed f i week cleared db h late there =
    let e = burn_event f i week cleared db in
    let log = db.events in
    record {
      rows = λ w.
          rw
            (
              replay_round_burn f i week cleared db (e ∷ log) _,
              replay_events-cons e log log [] refl,
            )
            (SameRows-put_row db.weeks (replayed log) _ _ h.rows (rw (h.rows week) refl) w);
      units = HasUnits-cons_following e log f.caller i (refl, refl) refl there h.units;
      order = (late, h.order);
    }

-- The state's rows and log.
abbrev pub IsFaithful : Db → Type 0
IsFaithful db = IsReplayed db.weeks db.events

-- An event that a replay passes over, recorded or not.
pub record_event-quiet :
    (type : EventType) (key : Key) (receipt : Option ℕ) (payload : Payload) (now : ℕ) (db : Db)
    → IsFaithful db
    → latest db.events ≤ now
    → follows_unit key ≡ false
    → is_quiet (new_event db type key receipt payload now) ≡ true
    → IsFaithful (record_event type key receipt payload now db)
      × (latest (record_event type key receipt payload now db).events ≤ now)
unfolding record_event
record_event-quiet type key receipt payload now db h late own quiet =
    elim (Bool-cases (event_exists key db.events)) [
      | inl old ↦ rw old (h, late)
      | inr new ↦ rw new (
        push_quiet db.weeks db.events (new_event db type key receipt payload now) h own late quiet,
        omega arith,
      )
    ]

pub record_event-new :
    (type : EventType) (key : Key) (receipt : Option ℕ) (payload : Payload) (now : ℕ) (db : Db)
    → event_exists key db.events ≡ false
    → record_event type key receipt payload now db
      ≡ record db { events = new_event db type key receipt payload now ∷ db.events }
unfolding record_event
record_event-new type key receipt payload now db new = rw new
