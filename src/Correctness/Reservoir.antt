-- ===== src/Correctness/Reservoir.antt =====
-- The water of the economy and `recompute_correctness_state_from_history`
-- (apps/server/backend/app/services/correctness.py).
use ynab_receipt_analyzer.Prelude.{
  ℕ, zero, suc, ◌+◌, ◌-◌, ◌≤◌, ◌≡◌, refl, Bool, true, false, Option, some, arith, ◌==◌, min, ltb,
  length, Bool-cases, Option-cases, inl, inr,
}
use ynab_receipt_analyzer.Correctness.Tables.{row_at, has_row, ensure_row, worst_week, Form, Key}
use ynab_receipt_analyzer.Correctness.Store.{
  EventType, fire_added, week_burned, water_earned, water_spent, fire_extinguished, Db,
  event_exists, record_event, record_incident, incident_exists, IncidentType, Payload,
}
use ynab_receipt_analyzer.Correctness.Actions.{
  key_of, Fire, add_fire, award_water, Spend, spend_water_to_extinguish, spend_on_week, smother,
  spend_on_board, log_spend, log_fire, unit_key, log_douse, burn_week, burn_worst, Outcome, outcome,
  fire_payload, apply_outcome, add_unit, add_units, FireResult,
}
use ynab_receipt_analyzer.Correctness.History.{Water, water_from}
use ynab_receipt_analyzer.Correctness.Log.{HasUnits}
use ynab_receipt_analyzer.Correctness.Replayed.{record_event-new}
use ynab_receipt_analyzer.Correctness.Parity.{
  IsFaithfulAt, not_yet_doused, outcome-new, records_unit, add_unit-IsFaithfulAt,
  ensure_row-IsFaithfulAt,
}

abbrev pub no_water : Water
no_water = record { water_units = 0; water_earned_count = 0; water_spent_count = 0 }

abbrev pub water_of : Db → Water
water_of db = record {
  water_units = db.water_units;
  water_earned_count = db.water_earned_count;
  water_spent_count = db.water_spent_count;
}

-- The log accounts for the water, which is within the capacity.
abbrev pub IsBalanced : ℕ → Db → Type 0
IsBalanced capacity db =
    (water_from capacity 0 no_water db.events ≡ water_of db) × (db.water_units ≤ capacity)

abbrev is_dry : EventType → Bool
is_dry water_earned = false
is_dry water_spent = false
is_dry _ = true

-- Events that are not about water leave the account alone.
record_event-IsBalanced :
    (capacity : ℕ) (type : EventType) (key : Key) (receipt : Option ℕ) (payload : Payload) (now : ℕ)
    (db : Db)
    → is_dry type ≡ true
    → IsBalanced capacity db
    → IsBalanced capacity (record_event type key receipt payload now db)
unfolding record_event water_from
record_event-IsBalanced capacity type key receipt payload now db dry h =
    elim (Bool-cases (event_exists key db.events)) [
      | inl old ↦ rw old h
      | inr new ↦ rw new (ground arith, h.1)
    ]

record_incident-IsBalanced :
    (capacity : ℕ) (type : IncidentType) (key : Key) (week now : ℕ) (db : Db)
    → IsBalanced capacity db
    → IsBalanced capacity (record_incident type key week now db)
unfolding record_incident
record_incident-IsBalanced capacity type key week now db h =
    elim (Bool-cases (incident_exists key db.incidents)) [ inl old ↦ rw old h | inr new ↦ rw new h ]

-- Without a debug seed every event counts.
counted : (n : ℕ) → ltb 0 (suc n) ≡ true
counted n = ground arith

-- The water spent, with its event. `before` and `spent` are those of the state before.
spend-IsBalanced :
    (capacity n before spent : ℕ) (key : Key) (receipt : Option ℕ) (payload : Payload) (now : ℕ)
    (after : Db)
    → water_from capacity 0 no_water after.events ≡ record {
      water_units = before;
      water_earned_count = after.water_earned_count;
      water_spent_count = spent;
    }
    → before ≤ capacity
    → event_exists key after.events ≡ false
    → payload.units ≡ some n
    → after.water_units ≡ before - n
    → after.water_spent_count ≡ spent + n
    → IsBalanced capacity (record_event water_spent key receipt payload now after)
unfolding record_event water_from
spend-IsBalanced capacity n before spent key receipt payload now after h le new units left total =
    rw (new, h, units, left, total, counted (length after.events)) (refl, omega arith)

-- What was added, added again, within the capacity.
refill :
    (water units capacity : ℕ)
    → min (water + (min (water + units) capacity - water)) capacity ≡ min (water + units) capacity
refill water units capacity = omega arith

pub award_water-IsBalanced :
    (capacity units : ℕ) (receipt : Option ℕ) (caller reason now : ℕ) (db : Db)
    → IsBalanced capacity db
    → IsBalanced capacity (award_water capacity units receipt caller reason now db).0
unfolding award_water record_event water_from
award_water-IsBalanced capacity units receipt caller reason now db (h, le) =
    elim (Bool-cases (units == 0)) [
      | inl e ↦ rw e (h, le)
      | inr e ↦ elim (Bool-cases (event_exists (key_of Form.plain caller 0 0) db.events)) [
        | inl e' ↦ rw (e, e') (h, le)
        | inr e' ↦ elim (Bool-cases (min (db.water_units + units) capacity - db.water_units == 0)) [
          | inl e'' ↦
              let full : min (db.water_units + units) capacity ≡ db.water_units = ground arith in
              rw (e, e', e'', full) (h, le)
          | inr e'' ↦
              rw (e, e', e'', h, counted (length db.events), refill db.water_units units capacity)
                (refl, omega arith)
        ]
      ]
    ]

log_spend-IsBalanced :
    (capacity n before spent : ℕ) (s : Spend) (flames fire : Option ℕ) (after : Db)
    → water_from capacity 0 no_water after.events ≡ record {
      water_units = before;
      water_earned_count = after.water_earned_count;
      water_spent_count = spent;
    }
    → before ≤ capacity
    → event_exists (key_of Form.water s.caller 0 0) after.events ≡ false
    → after.water_units ≡ before - n
    → after.water_spent_count ≡ spent + n
    → IsBalanced capacity (log_spend s n flames fire after)
unfolding log_spend
log_spend-IsBalanced capacity n before spent s flames fire after h le new left total =
    record_event-IsBalanced capacity fire_extinguished _ _ _ s.now _ refl
      (spend-IsBalanced capacity n before spent _ _ _ s.now after h le new refl left total)

pub spend_water-IsBalanced :
    (capacity : ℕ) (s : Spend) (db : Db)
    → IsBalanced capacity db
    → IsBalanced capacity (spend_water_to_extinguish s db).0
unfolding spend_water_to_extinguish spend_on_board spend_on_week
spend_water-IsBalanced capacity s db (h, le) = elim (Bool-cases (s.units == 0)) [
  | inl e ↦ rw e (h, le)
  | inr e ↦ elim (Bool-cases (event_exists (key_of Form.water s.caller 0 0) db.events)) [
    | inl e' ↦ rw (e, e') (h, le)
    | inr new ↦ elim (Option-cases s.week) [
      | inl n ↦
          let spendable = min s.units (min db.water_units db.fire_units) in
          elim (Bool-cases (spendable == 0)) [
            | inl e'' ↦ rw (e, new, n, e'') (h, le)
            | inr e'' ↦
                rw (e, new, n, e'')
                  (log_spend-IsBalanced capacity spendable db.water_units db.water_spent_count s _ _
                    _ h le new refl refl)
          ]
      | inr (week, n) ↦
          let spendable = min s.units (min db.water_units (row_at week db.weeks).flames_active) in
          elim (Bool-cases (has_row week db.weeks)) [
            | inl e₁ ↦ elim (Bool-cases (spendable == 0)) [
              | inl e'' ↦ rw (e, new, n, e₁, e'') (h, le)
              | inr e'' ↦
                  rw (e, new, n, e₁, e'')
                    (log_spend-IsBalanced capacity spendable db.water_units db.water_spent_count s _
                      _ _ h le new refl refl)
            ]
            | inr e₁ ↦ rw (e, new, n, e₁) (h, le)
          ]
    ]
  ]
]

burn_worst-IsBalanced :
    (capacity : ℕ) (f : Fire) (i : ℕ) (db : Db)
    → IsBalanced capacity db
    → IsBalanced capacity (burn_worst f i db)
unfolding burn_worst burn_week
burn_worst-IsBalanced capacity f i db h = elim (Option-cases (worst_week db.weeks)) [
  | inl e ↦ rw (e, burn_worst) h
  | inr (v, e) ↦
      rw (e, burn_worst)
        (record_incident-IsBalanced capacity _ _ _ f.now _
          (record_event-IsBalanced capacity week_burned _ _ _ f.now _ refl h))
]

log_douse-IsBalanced :
    (capacity i flames : ℕ) (f : Fire) (db : Db)
    → IsBalanced capacity db
    → HasUnits db.events
    → event_exists (unit_key f i) db.events ≡ false
    → IsBalanced capacity (log_douse f i (smother f (log_fire f i flames db)))
unfolding log_douse water_from
log_douse-IsBalanced capacity i flames f db (h, le) units new =
    rw
      (record_event-new fire_added (unit_key f i) f.receipt_id (fire_payload f flames) f.now db new)
      (record_incident-IsBalanced capacity _ _ _ f.now _ (
        record_event-IsBalanced capacity fire_extinguished _ _ _ f.now _ refl (
          spend-IsBalanced capacity 1 db.water_units db.water_spent_count _ _ _ f.now _
            (ground arith) le (not_yet_doused f i flames db units new) refl refl refl)))

apply_outcome-IsBalanced :
    (capacity i : ℕ) (f : Fire) (db : Db) (o : Outcome)
    → IsBalanced capacity db
    → HasUnits db.events
    → (records_unit o ≡ true → event_exists (unit_key f i) db.events ≡ false)
    → IsBalanced capacity (apply_outcome f i db o)
unfolding apply_outcome
apply_outcome-IsBalanced capacity i f db Outcome.week_already_burnt h units new =
    record_event-IsBalanced capacity fire_added _ _ _ f.now db refl h
apply_outcome-IsBalanced capacity i f db Outcome.already_recorded h units new = h
apply_outcome-IsBalanced capacity i f db Outcome.landed h units new =
    record_event-IsBalanced capacity fire_added _ _ _ f.now db refl h
apply_outcome-IsBalanced capacity i f db Outcome.doused h units new =
    log_douse-IsBalanced capacity i _ f db h units (new refl)
apply_outcome-IsBalanced capacity i f db Outcome.burned h units new =
    burn_worst-IsBalanced capacity f i _
      (record_event-IsBalanced capacity fire_added _ _ _ f.now db refl h)

add_units-IsBalanced :
    (capacity : ℕ) (f : Fire) (left i : ℕ) (db : Db) (r : FireResult)
    → IsBalanced capacity db
    → IsFaithfulAt f.now db
    → IsBalanced capacity (add_units f left i db r).0
unfolding add_units add_unit
add_units-IsBalanced capacity f zero i db r h g = h
add_units-IsBalanced capacity f (suc left) i db r h g =
    add_units-IsBalanced capacity f left (i + 1) (add_unit f i db) _
      (apply_outcome-IsBalanced capacity i f db (outcome f i db) h g.0.units
        (λ e. (outcome-new f i db e).1))
      (add_unit-IsFaithfulAt f i db g)

pub add_fire-IsBalanced :
    (capacity : ℕ) (f : Fire) (n : ℕ) (db : Db)
    → IsBalanced capacity db
    → IsFaithfulAt f.now db
    → IsBalanced capacity (add_fire f n db).0
unfolding add_fire
add_fire-IsBalanced capacity f zero db h g = h
add_fire-IsBalanced capacity f (suc n) db h g =
    add_units-IsBalanced capacity f (suc n) 0 (record db { weeks = ensure_row f.week db.weeks }) _ h
      (ensure_row-IsFaithfulAt f db g)
