-- ===== src/Correctness/Store.antt =====
-- The state that the economy keeps, and the writes of one event or incident (`_event_exists`,
-- `_record_event` of apps/server/backend/app/services/correctness.py, `record_incident` of
-- apps/server/backend/app/services/incidents.py).
use ynab_receipt_analyzer.Prelude.{
  ℕ, suc, Bool, true, false, Option, none, List, [], ◌∷◌, length, if◌then◌else◌,
}
use ynab_receipt_analyzer.Correctness.Tables.{WeekFire, Key, key_eq}

pub data EventType : Type 0 where
  fire_added week_burned water_earned water_spent fire_extinguished : EventType

-- Why an event happened: the automatic douse of `add_fire`, or a reason that the caller gives.
pub data Reason : Type 0 where
  forced_prevent_week_burn : Reason
  given : ℕ → Reason

-- `payload_json`: a key that is left out is `none` (`false` for `week_already_burnt`).
pub record Payload : Type 0 where
  pub units : Option ℕ
  pub reason : Option Reason
  pub week_start_at : Option ℕ
  pub week_already_burnt : Bool
  pub flames_active : Option ℕ
  pub flames_cleared : Option ℕ
  pub water_units : Option ℕ
  pub fire_units : Option ℕ

abbrev pub no_payload : Payload
no_payload = record {
  units = none;
  reason = none;
  week_start_at = none;
  week_already_burnt = false;
  flames_active = none;
  flames_cleared = none;
  water_units = none;
  fire_units = none;
}

pub record GameEvent : Type 0 where
  pub id : ℕ
  pub event_type : EventType
  pub receipt_id : Option ℕ
  pub payload : Payload
  pub idempotency_key : Key
  pub created_at : ℕ

pub data IncidentType : Type 0 where
  forced_week_douse week_burned_incident : IncidentType

pub record GameIncident : Type 0 where
  pub incident_type : IncidentType
  pub idempotency_key : Key
  pub week_start_at : ℕ
  pub created_at : ℕ

-- The counters of the one correctness row (zero before it is created), the week rows, and the logs,
-- newest first. An event's id counts the rows before it.
pub record Db : Type 0 where
  pub water_units : ℕ
  pub water_earned_count : ℕ
  pub water_spent_count : ℕ
  pub fire_units : ℕ
  pub fire_extinguished_count : ℕ
  pub weeks : List WeekFire
  pub events : List GameEvent
  pub incidents : List GameIncident

abbrev pub empty_db : Db
empty_db = record {
  water_units = 0;
  water_earned_count = 0;
  water_spent_count = 0;
  fire_units = 0;
  fire_extinguished_count = 0;
  weeks = [];
  events = [];
  incidents = [];
}

unfoldable pub event_exists : Key → List GameEvent → Bool
event_exists k [] = false
event_exists k (e ∷ es) = if key_eq e.idempotency_key k then true else event_exists k es

unfoldable pub incident_exists : Key → List GameIncident → Bool
incident_exists k [] = false
incident_exists k (e ∷ es) = if key_eq e.idempotency_key k then true else incident_exists k es

abbrev pub new_event : Db → EventType → Key → Option ℕ → Payload → ℕ → GameEvent
new_event db type key receipt payload now = record {
  id = suc (length db.events);
  event_type = type;
  receipt_id = receipt;
  payload = payload;
  idempotency_key = key;
  created_at = now;
}

-- The state after `_record_event`; what it returns is `not (event_exists key db.events)`.
unfoldable pub record_event : EventType → Key → Option ℕ → Payload → ℕ → Db → Db
record_event type key receipt payload now db =
    if event_exists key db.events
    then db
    else record db { events = new_event db type key receipt payload now ∷ db.events }

unfoldable pub record_incident : IncidentType → Key → ℕ → ℕ → Db → Db
record_incident type key week now db = if incident_exists key db.incidents then db else record db {
  incidents =
      record { incident_type = type; idempotency_key = key; week_start_at = week; created_at = now }
      ∷ db.incidents;
}
