-- ===== src/Shipper/Delivery.antt =====
-- The delivery table after one write (edge/pi-outbox-shipper/shipper/state.py).
use ynab_receipt_analyzer.Prelude.{
  ℕ, ◌≡◌, some, List, [], ◌∷◌, arith, ◌==◌, if◌then◌else◌, Bool-cases, Option-cases, inl, inr,
}
use ynab_receipt_analyzer.Shipper.{
  DeliveryRecord, get_record, current, ensure_record, update, retried, delivered, mark_retry,
  mark_sent,
}

get_record-update :
    (f : ℕ) (r : DeliveryRecord) (table : List DeliveryRecord) {x : DeliveryRecord}
    → get_record r.filename table ≡ some x
    → get_record f (update r table) ≡ (if r.filename == f then some r else get_record f table)
unfolding get_record update
get_record-update f r [] h = cc
get_record-update f r (y ∷ ys) h = elim (Bool-cases (y.filename == r.filename)) [
  | inl e ↦ rw e (ground arith)
  | inr e ↦ let ih = get_record-update f r ys (rw e at h) in rw (e, ih) (ground arith)
]

-- A written row is the one that is read, and no other row changes.
pub get_record-write :
    (f : ℕ) (r : DeliveryRecord) (table : List DeliveryRecord)
    → get_record f (update r (ensure_record r.filename table))
      ≡ (if r.filename == f then some r else get_record f table)
unfolding ensure_record update get_record
get_record-write f r table = elim (Option-cases (get_record r.filename table)) [
  | inl e ↦ rw (e, ensure_record) (ground arith)
  | inr (x, e) ↦ rw (e, ensure_record) (get_record-update f r table e)
]

pub get_record-ensure_record :
    (f g : ℕ) (table : List DeliveryRecord)
    → get_record f (ensure_record g table)
      ≡ (if g == f then some (current g table) else get_record f table)
unfolding ensure_record get_record
get_record-ensure_record f g table = elim (Option-cases (get_record g table)) [
  | inl e ↦ rw (e, ensure_record) (ground arith)
  | inr (x, e) ↦ rw (e, ensure_record) (ground arith)
]

-- The row of the file after `mark_sent` and `mark_retry`.
abbrev pub row_of : ℕ → List DeliveryRecord → DeliveryRecord
row_of f table = record (current f table) { filename = f }

pub get_record-mark_sent :
    (g f now : ℕ) (table : List DeliveryRecord)
    → get_record g (mark_sent f now table)
      ≡ (if f == g then some (delivered now (row_of f table)) else get_record g table)
unfolding mark_sent
get_record-mark_sent g f now table = get_record-write g (delivered now (row_of f table)) table

pub get_record-mark_retry :
    (g f e wait now : ℕ) (table : List DeliveryRecord)
    → get_record g (mark_retry f e wait now table)
      ≡ (if f == g then some (retried e wait now (row_of f table)) else get_record g table)
unfolding mark_retry
get_record-mark_retry g f e wait now table =
    get_record-write g (retried e wait now (row_of f table)) table
