-- ===== src/Correctness/Log.antt =====
-- The event log: its keys, its order in time, and one event more
-- (apps/server/backend/app/services/correctness.py).
use ynab_receipt_analyzer.Prelude.{
  ℕ, ◌≤◌, ◌≡◌, refl, Bool, true, false, List, [], ◌∷◌, arith, ◌==◌, ◌&&◌, ◌||◌, Bool-cases, inl,
  inr,
}
use ynab_receipt_analyzer.Correctness.Tables.{WeekFire, Form, Key, key_eq, form_code}
use ynab_receipt_analyzer.Correctness.Store.{GameEvent, event_exists}
use ynab_receipt_analyzer.Correctness.Actions.{key_of}
use ynab_receipt_analyzer.Correctness.History.{
  insert_event, by_time, was_doused, replay_event, replay_round, replay_events,
}

-- The instant of the newest event.
abbrev pub latest : List GameEvent → ℕ
latest [] = 0
latest (e ∷ es) = e.created_at

-- No event is older than one recorded before it.
abbrev pub IsChronological : List GameEvent → Type 0
IsChronological [] = Unit
IsChronological (e ∷ es) = (latest es ≤ e.created_at) × IsChronological es

-- The order by time is then the order of recording.
pub by_time-eq : (es : List GameEvent) → IsChronological es → by_time es ≡ es
unfolding by_time insert_event
by_time-eq [] h = refl
by_time-eq (e ∷ []) h = refl
by_time-eq (e ∷ x ∷ xs) h = rw (by_time-eq (x ∷ xs) h.1) (ground arith)

-- Where a unit of fire is not recorded, neither is its forced douse nor the burn that it triggered.
abbrev pub HasUnits : List GameEvent → Type 0
HasUnits log =
    (c i : ℕ)
    → event_exists (key_of Form.unit c i 0) log ≡ false
    → (event_exists (key_of Form.douse_water c i 0) log ≡ false)
      × ((v : ℕ) → event_exists (key_of Form.week_burned c i v) log ≡ false)

-- One more event whose key is not that of a forced douse changes no event's forced douse.
pub was_doused-cons :
    (e : GameEvent) (log : List GameEvent) (k : Key)
    → (form_code e.idempotency_key.form == 3) ≡ false
    → was_doused (e ∷ log) k ≡ was_doused log k
unfolding was_doused event_exists
was_doused-cons e log k h = ground arith

-- A round asks the log only for the forced douse of its event.
replay_round-congr :
    (log log' : List GameEvent) (x : GameEvent) (rows : List WeekFire)
    → was_doused log x.idempotency_key ≡ was_doused log' x.idempotency_key
    → replay_round log 0 x rows ≡ replay_round log' 0 x rows
unfolding replay_round replay_event
replay_round-congr log log' x rows h = ground arith

pub replay_events-cons :
    (e : GameEvent) (log es : List GameEvent) (rows : List WeekFire)
    → (form_code e.idempotency_key.form == 3) ≡ false
    → replay_events (e ∷ log) 0 es rows ≡ replay_events log 0 es rows
unfolding replay_events
replay_events-cons e log [] rows h = refl
replay_events-cons e log (x ∷ es) rows h =
    rw (replay_events-cons e log es rows h)
      (replay_round-congr (e ∷ log) log x _ (was_doused-cons e log x.idempotency_key h))

-- Nor does a forced douse of a unit that is not among the events replayed.
was_doused-douse :
    (e : GameEvent) (log : List GameEvent) (c i : ℕ) (k : Key)
    → e.idempotency_key ≡ key_of Form.douse_water c i 0
    → key_eq k (key_of Form.unit c i 0) ≡ false
    → was_doused (e ∷ log) k ≡ was_doused log k
unfolding was_doused event_exists
was_doused-douse e log c i k h n = rw h (ground arith)

pub replay_events-douse :
    (e : GameEvent) (log es : List GameEvent) (rows : List WeekFire) (c i : ℕ)
    → e.idempotency_key ≡ key_of Form.douse_water c i 0
    → event_exists (key_of Form.unit c i 0) es ≡ false
    → replay_events (e ∷ log) 0 es rows ≡ replay_events log 0 es rows
unfolding replay_events event_exists
replay_events-douse e log [] rows c i h n = refl
replay_events-douse e log (x ∷ es) rows c i h n =
    let other : key_eq x.idempotency_key (key_of Form.unit c i 0) ≡ false = ground arith in
    rw (replay_events-douse e log es rows c i h (ground arith))
      (replay_round-congr (e ∷ log) log x _ (was_doused-douse e log c i x.idempotency_key h other))

-- The codes of the two forms that follow a unit's own event.
abbrev pub follows_unit : Key → Bool
follows_unit k = (form_code k.form == 3) || (form_code k.form == 5)

pub HasUnits-cons :
    (e : GameEvent) (log : List GameEvent)
    → follows_unit e.idempotency_key ≡ false
    → HasUnits log
    → HasUnits (e ∷ log)
unfolding event_exists
HasUnits-cons e log own h c i n =
    let before : event_exists (key_of Form.unit c i 0) log ≡ false = ground arith in
    (ground (arith, (h c i before).0), λ v. ground (arith, (h c i before).1 v))

-- The event that follows a unit keeps the property, because the unit is there.
pub HasUnits-cons_following :
    (e : GameEvent) (log : List GameEvent) (c i : ℕ)
    → (e.idempotency_key.caller ≡ c) × (e.idempotency_key.index ≡ i)
    → follows_unit e.idempotency_key ≡ true
    → event_exists (key_of Form.unit c i 0) log ≡ true
    → HasUnits log
    → HasUnits (e ∷ log)
unfolding event_exists
HasUnits-cons_following e log c i (same_caller, same_index) follows there h d j n =
    let before : event_exists (key_of Form.unit d j 0) log ≡ false = ground arith in
    elim (Bool-cases ((d == c) && (j == i))) [
      | inl same ↦ absurd (ground arith)
      | inr other ↦ (ground (arith, (h d j before).0), λ v. ground (arith, (h d j before).1 v))
    ]
