-- ===== src/Reconcile/Once.antt =====
-- The corrections after a run of the reconciliation, and after a second one
-- (apps/server/backend/app/services/reconciliation.py).
use ynab_receipt_analyzer.Prelude.{
  ℕ, ◌+◌, ◌≡◌, ◌⊎◌, refl, ◌∙◌, ap, true, false, Option, none, some, List, [], ◌∷◌, map, All, arith,
  Bool-cases, inl, inr,
}
use ynab_receipt_analyzer.Ynab.Remote.{RemoteTransaction}
use ynab_receipt_analyzer.Ynab.Session.{Answer}
use ynab_receipt_analyzer.Reconcile.Signature.{Signature}
use ynab_receipt_analyzer.Reconcile.Run.{
  ReceiptSync, latest_successful_sync_rows, Correction, FireRequest, Reconciliation, is_correction,
  existing_correction, Mismatch, correction_signature, mismatch_of, scanned, record_mismatch,
  reconcile_row, reconcile_rows, mark_at, mark_resynced, successful_sync_after, begin,
  run_ynab_reconciliation,
}

-- The mismatch of a row, if it has one, is among the corrections of its receipt.
abbrev pub IsIn : (Signature → Signature → ℕ) → ℕ → Option Mismatch → List Correction → Type 0
IsIn digest receipt_id none cs = Unit
IsIn digest receipt_id (some m) cs =
    existing_correction receipt_id (correction_signature digest m.synced m.found) cs ≡ true

existing-head :
    (i g : ℕ) (c : Correction) (cs : List Correction)
    → c.receipt_id ≡ i
    → c.signature ≡ g
    → existing_correction i g (c ∷ cs) ≡ true
unfolding existing_correction
existing-head i g c cs e h = ground arith

existing-tail :
    (i g : ℕ) (c : Correction) (cs : List Correction)
    → existing_correction i g cs ≡ true
    → existing_correction i g (c ∷ cs) ≡ true
unfolding existing_correction
existing-tail i g c cs h = ground arith

module _ (digest : Signature → Signature → ℕ) (now : ℕ) where
  known_or_not :
      (i : ℕ) (m : Mismatch) (s : Reconciliation)
      → (existing_correction i (correction_signature digest m.synced m.found) s.corrections ≡ true)
        ⊎ (existing_correction i (correction_signature digest m.synced m.found) s.corrections
            ≡ false)
  known_or_not i m s = Bool-cases _

  record_mismatch-IsIn :
      (i : ℕ) (m : Option Mismatch) (s : Reconciliation)
      → IsIn digest i m (record_mismatch digest now i m s).corrections
  unfolding record_mismatch
  record_mismatch-IsIn i none s = tt
  record_mismatch-IsIn i (some m) s = elim (known_or_not i m s) [
    | inl e ↦ simp e refl
    | inr e ↦ simp e (existing-head i _ _ s.corrections refl refl)
  ]

  record_mismatch-keeps :
      (i j g : ℕ) (m : Option Mismatch) (s : Reconciliation)
      → existing_correction j g s.corrections ≡ true
      → existing_correction j g (record_mismatch digest now i m s).corrections ≡ true
  unfolding record_mismatch
  record_mismatch-keeps i j g none s h = h
  record_mismatch-keeps i j g (some m) s h = elim (known_or_not i m s) [
    | inl e ↦ simp e h
    | inr e ↦ simp e (existing-tail j g _ s.corrections h)
  ]

  record_mismatch-known :
      (i : ℕ) (m : Option Mismatch) (s : Reconciliation)
      → IsIn digest i m s.corrections
      → record_mismatch digest now i m s ≡ s
  unfolding record_mismatch
  record_mismatch-known i none s h = refl
  record_mismatch-known i (some m) s h = simp h refl

  module _ (ynab : ℕ → Answer RemoteTransaction) where
    abbrev pub HasCorrection : List Correction → ReceiptSync → Type 0
    HasCorrection cs r = IsIn digest r.receipt_id (mismatch_of ynab r) cs

    reconcile_rows-keeps :
        (j g : ℕ) (rs : List ReceiptSync) (s : Reconciliation)
        → existing_correction j g s.corrections ≡ true
        → existing_correction j g (reconcile_rows digest now ynab rs s).corrections ≡ true
    unfolding reconcile_rows reconcile_row
    reconcile_rows-keeps j g [] s h = h
    reconcile_rows-keeps j g (r ∷ rs) s h =
        reconcile_rows-keeps j g rs (reconcile_row digest now ynab r s)
          (record_mismatch-keeps r.receipt_id j g (mismatch_of ynab r) _ h)

    IsIn-keeps :
        (i : ℕ) (m : Option Mismatch) (rs : List ReceiptSync) (s : Reconciliation)
        → IsIn digest i m s.corrections
        → IsIn digest i m (reconcile_rows digest now ynab rs s).corrections
    IsIn-keeps i none rs s h = tt
    IsIn-keeps i (some m) rs s h = reconcile_rows-keeps i _ rs s h

    reconcile_rows-HasCorrection :
        (rs : List ReceiptSync) (s : Reconciliation)
        → All (HasCorrection (reconcile_rows digest now ynab rs s).corrections) rs
    unfolding reconcile_rows reconcile_row
    reconcile_rows-HasCorrection [] s = tt
    reconcile_rows-HasCorrection (r ∷ rs) s = (
      IsIn-keeps r.receipt_id (mismatch_of ynab r) rs (reconcile_row digest now ynab r s)
          (record_mismatch-IsIn r.receipt_id (mismatch_of ynab r) _),
      reconcile_rows-HasCorrection rs (reconcile_row digest now ynab r s),
    )

    -- What a run adds is the same.
    abbrev pub SameFindings : Reconciliation → Reconciliation → Type 0
    SameFindings a b =
        (a.detected_mistakes ≡ b.detected_mistakes)
        × (a.corrections ≡ b.corrections)
        × (a.fires ≡ b.fires)

    after-known :
        (rs : List ReceiptSync) (s s' before : Reconciliation)
        → s ≡ s'
        → SameFindings (reconcile_rows digest now ynab rs s') before
        → SameFindings (reconcile_rows digest now ynab rs s) before
    after-known rs s s' before e h = rw e h

    reconcile_rows-SameFindings :
        (rs : List ReceiptSync) (s : Reconciliation)
        → All (HasCorrection s.corrections) rs
        → SameFindings (reconcile_rows digest now ynab rs s) s
    unfolding reconcile_rows reconcile_row
    reconcile_rows-SameFindings [] s h = (refl, refl, refl)
    reconcile_rows-SameFindings (r ∷ rs) s (h, hs) =
        after-known rs _ _ s
          (record_mismatch-known r.receipt_id (mismatch_of ynab r)
            (record s { scanned_receipts = s.scanned_receipts + scanned r }) h)
          (reconcile_rows-SameFindings rs
            (record s { scanned_receipts = s.scanned_receipts + scanned r }) hs)

is_correction-marked :
    (i g : ℕ) (c : Correction) (at : Option ℕ)
    → is_correction i g (mark_at at c) ≡ is_correction i g c
is_correction-marked i g c none = refl
is_correction-marked i g c (some t) = refl

existing-marked :
    (i g : ℕ) (rows : List ReceiptSync) (cs : List Correction)
    → existing_correction i g (map (mark_resynced rows) cs) ≡ existing_correction i g cs
unfolding existing_correction
existing-marked i g rows [] = refl
existing-marked i g rows (c ∷ cs) =
    rw
      (
        is_correction-marked i g c (successful_sync_after c.receipt_id c.detected_at rows),
        existing-marked i g rows cs,
      )
      refl

IsIn-marked :
    (digest : Signature → Signature → ℕ) (i : ℕ) (m : Option Mismatch) (rows : List ReceiptSync)
    (cs : List Correction)
    → IsIn digest i m cs
    → IsIn digest i m (map (mark_resynced rows) cs)
IsIn-marked digest i none rows cs h = tt
IsIn-marked digest i (some m) rows cs h = existing-marked i _ rows cs ∙ h

All-marked :
    (digest : Signature → Signature → ℕ) (now : ℕ) (ynab : ℕ → Answer RemoteTransaction)
    (rows : List ReceiptSync) (rs : List ReceiptSync) (cs : List Correction)
    → All (HasCorrection digest now ynab cs) rs
    → All (HasCorrection digest now ynab (map (mark_resynced rows) cs)) rs
All-marked digest now ynab rows [] cs h = tt
All-marked digest now ynab rows (r ∷ rs) cs (h, hs) = (
  IsIn-marked digest r.receipt_id (mismatch_of ynab r) rows cs h,
  All-marked digest now ynab rows rs cs hs,
)

-- After a run, for every mismatch that the latest rows of the receipts have with YNAB, the receipt has a
-- correction with the digest of that mismatch, whatever was recorded before. The digest leaves out the amount,
-- so the correction may be an earlier one with another amount.
pub run_ynab_reconciliation-HasCorrection :
    (digest : Signature → Signature → ℕ) (ynab : ℕ → Answer RemoteTransaction) (now start : ℕ)
    (rows : List ReceiptSync) (corrections : List Correction) (fires : List FireRequest)
    → All
        (HasCorrection digest now ynab
          (run_ynab_reconciliation digest ynab now start rows corrections fires).corrections)
        (latest_successful_sync_rows start rows)
unfolding run_ynab_reconciliation
run_ynab_reconciliation-HasCorrection digest ynab now start rows corrections fires =
    All-marked digest now ynab rows (latest_successful_sync_rows start rows) _ (
      reconcile_rows-HasCorrection digest now ynab (latest_successful_sync_rows start rows)
        (begin corrections fires))

second-run :
    (digest : Signature → Signature → ℕ) (ynab : ℕ → Answer RemoteTransaction) (later start : ℕ)
    (rows : List ReceiptSync) (cs : List Correction) (fs : List FireRequest)
    → All (HasCorrection digest later ynab cs) (latest_successful_sync_rows start rows)
    → ((run_ynab_reconciliation digest ynab later start rows cs fs).detected_mistakes ≡ 0)
      × ((run_ynab_reconciliation digest ynab later start rows cs fs).corrections
          ≡ map (mark_resynced rows) cs)
      × ((run_ynab_reconciliation digest ynab later start rows cs fs).fires ≡ fs)
unfolding run_ynab_reconciliation
second-run digest ynab later start rows cs fs h =
    let (detected, added, asked) =
      reconcile_rows-SameFindings digest later ynab (latest_successful_sync_rows start rows)
        (begin cs fs) h in
    (detected, ap (map (mark_resynced rows)) added, asked)

-- A second run over the same rows, while YNAB's answers are the same, detects nothing: it adds no correction and asks
-- for no fire.
pub run_ynab_reconciliation_twice :
    (digest : Signature → Signature → ℕ) (ynab : ℕ → Answer RemoteTransaction) (now later start : ℕ)
    (rows : List ReceiptSync) (corrections : List Correction) (fires : List FireRequest)
    (first second : Reconciliation)
    → first ≡ run_ynab_reconciliation digest ynab now start rows corrections fires
    → second ≡ run_ynab_reconciliation digest ynab later start rows first.corrections first.fires
    → (second.detected_mistakes ≡ 0)
      × (second.corrections ≡ map (mark_resynced rows) first.corrections)
      × (second.fires ≡ first.fires)
run_ynab_reconciliation_twice digest ynab now later start rows corrections fires first second e e' =
    rw e' (
      second-run digest ynab later start rows first.corrections first.fires (
        recorded_by first e
          (run_ynab_reconciliation-HasCorrection digest ynab now start rows corrections fires)))
  where
    recorded_by :
        (s : Reconciliation)
        → s ≡ run_ynab_reconciliation digest ynab now start rows corrections fires
        → All
            (HasCorrection digest now ynab
              (run_ynab_reconciliation digest ynab now start rows corrections fires).corrections)
            (latest_successful_sync_rows start rows)
        → All (HasCorrection digest now ynab s.corrections) (latest_successful_sync_rows start rows)
    recorded_by s e h = rw e h
