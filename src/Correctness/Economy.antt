-- ===== src/Correctness/Economy.antt =====
-- `award_water` and `spend_water_to_extinguish` and the replay of the event log
-- (apps/server/backend/app/services/correctness.py and apps/server/backend/app/services/game.py).
use ynab_receipt_analyzer.Prelude.{
  ℕ, ◌+◌, ◌-◌, ◌≤◌, ◌≡◌, refl, false, Option, none, some, List, arith, ◌==◌, min, Bool-cases,
  Option-cases, inl, inr,
}
use ynab_receipt_analyzer.Correctness.Tables.{WeekFire, row_at, has_row, put_row, Form}
use ynab_receipt_analyzer.Correctness.Store.{
  water_spent, fire_extinguished, water_earned, Db, event_exists, new_event, GameEvent, Payload,
  no_payload,
}
use ynab_receipt_analyzer.Correctness.Actions.{
  key_of, award_water, Spend, spend_water_to_extinguish, spend_on_week, spend_on_board, log_spend,
  take_water,
}
use ynab_receipt_analyzer.Correctness.History.{replay_event, replay_round, is_forced}
use ynab_receipt_analyzer.Correctness.Rows.{SameRows, SameRows-put_row}
use ynab_receipt_analyzer.Correctness.Log.{latest}
use ynab_receipt_analyzer.Correctness.Replayed.{
  IsReplayed, record_event-quiet, record_event-new, push, replayed,
}
use ynab_receipt_analyzer.Correctness.Parity.{IsFaithfulAt}

pub award_water-IsFaithfulAt :
    (capacity units : ℕ) (receipt : Option ℕ) (caller reason now : ℕ) (db : Db)
    → IsFaithfulAt now db
    → IsFaithfulAt now (award_water capacity units receipt caller reason now db).0
unfolding award_water
award_water-IsFaithfulAt capacity units receipt caller reason now db h =
    elim (Bool-cases (units == 0)) [
      | inl e ↦ rw e h
      | inr e ↦ elim (Bool-cases (event_exists (key_of Form.plain caller 0 0) db.events)) [
        | inl e' ↦ rw (e, e') h
        | inr e' ↦ elim (Bool-cases (min (db.water_units + units) capacity - db.water_units == 0)) [
          | inl e'' ↦ rw (e, e', e'') h
          | inr e'' ↦
              rw (e, e', e'') (record_event-quiet water_earned _ _ _ now _ h.0 h.1 refl refl)
        ]
      ]
    ]

abbrev spend_payload : Spend → ℕ → ℕ → Payload
spend_payload s spendable left = record no_payload {
  units = some spendable;
  reason = some s.reason;
  week_start_at = s.week;
  water_units = some left;
}

abbrev spend_event : Spend → ℕ → ℕ → Db → GameEvent
spend_event s spendable left db =
    new_event db water_spent (key_of Form.water s.caller 0 0) s.receipt_id
      (spend_payload s spendable left) s.now

-- The row of a manual douse.
abbrev lowered : ℕ → WeekFire → WeekFire
lowered n row = record row { flames_active = row.flames_active - n }

replay_round_spend :
    (s : Spend) (n left week : ℕ) (db : Db) (log : List GameEvent) (rows : List WeekFire)
    → s.week ≡ some week
    → is_forced (some s.reason) ≡ false
    → replay_round log 0 (spend_event s n left db) rows
      ≡ put_row (lowered n (row_at week rows)) rows
unfolding replay_round replay_event
replay_round_spend s n left week db log rows e g = ground arith

replay_round_board :
    (s : Spend) (n left : ℕ) (db : Db) (log : List GameEvent) (rows : List WeekFire)
    → s.week ≡ none
    → replay_round log 0 (spend_event s n left db) rows ≡ rows
unfolding replay_round replay_event
replay_round_board s n left db log rows e = ground arith

-- The two events of a manual douse, when the first replays to the rows that are there.
log_spend-IsFaithfulAt :
    (s : Spend) (n : ℕ) (flames fire : Option ℕ) (weeks : List WeekFire) (db : Db)
    → IsReplayed weeks db.events
    → latest db.events ≤ s.now
    → event_exists (key_of Form.water s.caller 0 0) db.events ≡ false
    → ((log : List GameEvent)
        → SameRows db.weeks
            (replay_round log 0 (spend_event s n db.water_units db) (replayed db.events)))
    → IsFaithfulAt s.now (log_spend s n flames fire db)
unfolding log_spend
log_spend-IsFaithfulAt s n flames fire weeks db h late new same =
    rw
      (record_event-new water_spent (key_of Form.water s.caller 0 0) s.receipt_id
        (spend_payload s n db.water_units) s.now db new)
      (record_event-quiet fire_extinguished _ _ _ s.now _
        (push weeks db.weeks db.events _ h refl late (same _)) (omega arith) refl refl)

spend_on_week-IsFaithfulAt :
    (s : Spend) (week : ℕ) (db : Db)
    → s.week ≡ some week
    → is_forced (some s.reason) ≡ false
    → IsFaithfulAt s.now db
    → event_exists (key_of Form.water s.caller 0 0) db.events ≡ false
    → IsFaithfulAt s.now (spend_on_week s week db).0
unfolding spend_on_week
spend_on_week-IsFaithfulAt s week db e g (h, late) new = elim (Bool-cases (has_row week db.weeks)) [
  | inl there ↦
      let row = row_at week db.weeks in
      let n = min s.units (min db.water_units row.flames_active) in
      elim (Bool-cases (n == 0)) [
        | inl nothing ↦ rw (there, nothing) (h, late)
        | inr something ↦
            let after = record (take_water n db) { weeks = put_row (lowered n row) db.weeks } in
            rw (there, something)
              (log_spend-IsFaithfulAt s n _ _ db.weeks after h late new (λ log w.
                rw
                  (replay_round_spend s n (db.water_units - n) week after log (replayed db.events) e
                    g)
                  (SameRows-put_row db.weeks (replayed db.events) (lowered n row)
                    (lowered n (row_at week (replayed db.events))) h.rows (rw (h.rows week) refl)
                    w)))
      ]
  | inr missing ↦ rw missing (h, late)
]

spend_on_board-IsFaithfulAt :
    (s : Spend) (db : Db)
    → s.week ≡ none
    → IsFaithfulAt s.now db
    → event_exists (key_of Form.water s.caller 0 0) db.events ≡ false
    → IsFaithfulAt s.now (spend_on_board s db).0
unfolding spend_on_board
spend_on_board-IsFaithfulAt s db e (h, late) new =
    let n = min s.units (min db.water_units db.fire_units) in
    elim (Bool-cases (n == 0)) [
      | inl nothing ↦ rw nothing (h, late)
      | inr something ↦
          let after = record (take_water n db) { fire_units = db.fire_units - n } in
          rw something (
            log_spend-IsFaithfulAt s n _ _ db.weeks after h late new (λ log w.
              rw (replay_round_board s n (db.water_units - n) after log (replayed db.events) e)
                (h.rows w)))
    ]

pub spend_water-IsFaithfulAt :
    (s : Spend) (db : Db)
    → is_forced (some s.reason) ≡ false
    → IsFaithfulAt s.now db
    → IsFaithfulAt s.now (spend_water_to_extinguish s db).0
unfolding spend_water_to_extinguish
spend_water-IsFaithfulAt s db g h = elim (Bool-cases (s.units == 0)) [
  | inl e ↦ rw e h
  | inr e ↦ elim (Bool-cases (event_exists (key_of Form.water s.caller 0 0) db.events)) [
    | inl e' ↦ rw (e, e') h
    | inr e' ↦ elim (Option-cases s.week) [
      | inl n ↦ rw (e, e', n) (spend_on_board-IsFaithfulAt s db n h e')
      | inr (week, n) ↦ rw (e, e', n) (spend_on_week-IsFaithfulAt s week db n g h e')
    ]
  ]
]
