-- ===== src/Correctness/Retry.antt =====
-- Calls of `award_water` and `spend_water_to_extinguish` that are made again with the idempotency key
-- of an earlier call (apps/server/backend/app/services/correctness.py).
use ynab_receipt_analyzer.Prelude.{
  ℕ, ◌+◌, ◌-◌, ◌≡◌, refl, ◌∙◌, true, false, Option, arith, ◌==◌, min, ◌⊎◌, Bool-cases, Option-cases,
  inl, inr,
}
use ynab_receipt_analyzer.Correctness.Tables.{row_at, has_row, Form, Key}
use ynab_receipt_analyzer.Correctness.Store.{
  EventType, water_earned, water_spent, fire_extinguished, Db, event_exists, record_event, Payload,
}
use ynab_receipt_analyzer.Correctness.Actions.{
  key_of, award_water, Spend, spend_water_to_extinguish, spend_on_week, spend_on_board, log_spend,
}

-- A recorded key stays recorded.
event_exists-record_event :
    (k : Key) (type : EventType) (key : Key) (receipt : Option ℕ) (payload : Payload) (now : ℕ)
    (db : Db)
    → event_exists k db.events ≡ true
    → event_exists k (record_event type key receipt payload now db).events ≡ true
unfolding record_event event_exists
event_exists-record_event k type key receipt payload now db h = ground arith

recorded :
    (type : EventType) (key : Key) (receipt : Option ℕ) (payload : Payload) (now : ℕ) (db : Db)
    → event_exists key (record_event type key receipt payload now db).events ≡ true
unfolding record_event event_exists
recorded type key receipt payload now db = elim (Bool-cases (event_exists key db.events)) [
  | inl e ↦ rw (e, e) refl
  | inr e ↦ rw e (ground arith)
]

log_spend-recorded :
    (s : Spend) (n : ℕ) (flames fire : Option ℕ) (db : Db)
    → event_exists (key_of Form.water s.caller 0 0) (log_spend s n flames fire db).events ≡ true
unfolding log_spend
log_spend-recorded s n flames fire db =
    event_exists-record_event _ fire_extinguished _ _ _ s.now _
      (recorded water_spent _ _ _ s.now db)

-- A call that finds its key does nothing.
award_water-done :
    (capacity units : ℕ) (receipt : Option ℕ) (caller reason now : ℕ) (db : Db)
    → event_exists (key_of Form.plain caller 0 0) db.events ≡ true
    → award_water capacity units receipt caller reason now db ≡ (db, 0)
unfolding award_water
award_water-done capacity units receipt caller reason now db h = elim (Bool-cases (units == 0)) [
  | inl e ↦ rw e refl
  | inr e ↦ rw (e, h) refl
]

spend_water-done :
    (s : Spend) (db : Db)
    → event_exists (key_of Form.water s.caller 0 0) db.events ≡ true
    → spend_water_to_extinguish s db ≡ (db, 0)
unfolding spend_water_to_extinguish
spend_water-done s db h = elim (Bool-cases (s.units == 0)) [
  | inl e ↦ rw e refl
  | inr e ↦ rw (e, h) refl
]

-- A call does nothing, or records its key.
spend_water-settles :
    (s : Spend) (db : Db)
    → (spend_water_to_extinguish s db ≡ (db, 0))
      ⊎ (event_exists (key_of Form.water s.caller 0 0) (spend_water_to_extinguish s db).0.events
          ≡ true)
unfolding spend_water_to_extinguish spend_on_week spend_on_board
spend_water-settles s db = elim (Bool-cases (s.units == 0)) [
  | inl e ↦ rw e (inl refl)
  | inr e ↦ elim (Bool-cases (event_exists (key_of Form.water s.caller 0 0) db.events)) [
    | inl e' ↦ rw (e, e') (inl refl)
    | inr e' ↦ elim (Option-cases s.week) [
      | inl n ↦ elim (Bool-cases (min s.units (min db.water_units db.fire_units) == 0)) [
        | inl e'' ↦ rw (e, e', n, e'') (inl refl)
        | inr e'' ↦ rw (e, e', n, e'') (inr (log_spend-recorded s _ _ _ _))
      ]
      | inr (week, n) ↦ elim (Bool-cases (has_row week db.weeks)) [
        | inr missing ↦ rw (e, e', n, missing) (inl refl)
        | inl there ↦
            let flames = (row_at week db.weeks).flames_active in
            elim (Bool-cases (min s.units (min db.water_units flames) == 0)) [
              | inl e'' ↦ rw (e, e', n, there, e'') (inl refl)
              | inr e'' ↦ rw (e, e', n, there, e'') (inr (log_spend-recorded s _ _ _ _))
            ]
      ]
    ]
  ]
]

-- An award into a full reservoir.
award_water-full :
    (capacity units : ℕ) (receipt : Option ℕ) (caller reason now : ℕ) (db : Db)
    → (units == 0) ≡ false
    → event_exists (key_of Form.plain caller 0 0) db.events ≡ false
    → (min (db.water_units + units) capacity - db.water_units == 0) ≡ true
    → award_water capacity units receipt caller reason now db
      ≡ (record db { water_units = min (db.water_units + units) capacity }, 0)
unfolding award_water
award_water-full capacity units receipt caller reason now db e e' e'' = rw (e, e', e'') refl

-- An award that adds water.
award_water-records :
    (capacity units : ℕ) (receipt : Option ℕ) (caller reason now : ℕ) (db : Db)
    → (units == 0) ≡ false
    → event_exists (key_of Form.plain caller 0 0) db.events ≡ false
    → (min (db.water_units + units) capacity - db.water_units == 0) ≡ false
    → event_exists
        (key_of Form.plain caller 0 0)
        (award_water capacity units receipt caller reason now db).0.events
      ≡ true
unfolding award_water
award_water-records capacity units receipt caller reason now db e e' e'' =
    rw (e, e', e'') (recorded water_earned _ _ _ now _)

-- An award adds nothing to what it left, or it has recorded its key.
award_water-settles :
    (capacity units : ℕ) (receipt : Option ℕ) (caller reason now : ℕ) (db : Db)
    → (award_water capacity units receipt caller reason now
          (award_water capacity units receipt caller reason now db).0
        ≡ ((award_water capacity units receipt caller reason now db).0, 0))
      ⊎ (event_exists
            (key_of Form.plain caller 0 0)
            (award_water capacity units receipt caller reason now db).0.events
          ≡ true)
unfolding award_water
award_water-settles capacity units receipt caller reason now db =
    let level = min (db.water_units + units) capacity in
    let award = award_water capacity units receipt caller reason now in
    elim (Bool-cases (units == 0)) [
      | inl e ↦ let idle : award db ≡ (db, 0) = rw (e, award_water) refl in inl (rw idle idle)
      | inr e ↦ elim (Bool-cases (event_exists (key_of Form.plain caller 0 0) db.events)) [
        | inl e' ↦
            let idle = award_water-done capacity units receipt caller reason now db e' in
            inl (rw idle idle)
        | inr e' ↦ elim (Bool-cases (level - db.water_units == 0)) [
          | inl e'' ↦
              let filled = record db { water_units = level } in
              let full : min (level + units) capacity ≡ level = ground arith in
              let none_added : (min (level + units) capacity - level == 0) ≡ true = ground arith in
              let first = award_water-full capacity units receipt caller reason now db e e' e'' in
              let next =
                award_water-full capacity units receipt caller reason now filled e e' none_added in
              inl (rw first (next ∙ rw full refl))
          | inr e'' ↦ inr (award_water-records capacity units receipt caller reason now db e e' e'')
        ]
      ]
    ]

-- `award_water` called again right away with the same arguments adds nothing and leaves the state as
-- the first call left it, whether or not the first call added water.
pub award_water-retry :
    (capacity units : ℕ) (receipt : Option ℕ) (caller reason now : ℕ) (db : Db)
    → award_water capacity units receipt caller reason now
        (award_water capacity units receipt caller reason now db).0
      ≡ ((award_water capacity units receipt caller reason now db).0, 0)
award_water-retry capacity units receipt caller reason now db =
    elim (award_water-settles capacity units receipt caller reason now db) [
      | inl e ↦ e
      | inr e ↦ award_water-done capacity units receipt caller reason now _ e
    ]

-- `spend_water_to_extinguish` called again right away with the same arguments spends nothing and
-- leaves the state as the first call left it, whether or not the first call spent water.
pub spend_water_to_extinguish-retry :
    (s : Spend) (db : Db)
    → spend_water_to_extinguish s (spend_water_to_extinguish s db).0
      ≡ ((spend_water_to_extinguish s db).0, 0)
spend_water_to_extinguish-retry s db = elim (spend_water-settles s db) [
  | inl e ↦ rw e e
  | inr e ↦ spend_water-done s _ e
]
