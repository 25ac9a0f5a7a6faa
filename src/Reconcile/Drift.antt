-- ===== src/Reconcile/Drift.antt =====
-- The digest of a mismatch and its amount (apps/server/backend/app/services/reconciliation.py).
use ynab_receipt_analyzer.Prelude.{
  ℕ, ◌≡◌, refl, Bool, true, false, some, List, [], ◌∷◌, any, ◌==◌, arith, Bool-cases, inl, inr,
}
use ynab_receipt_analyzer.Prelude.Int.{ℤ}
use ynab_receipt_analyzer.Ynab.Remote.{RemoteTransaction, Desired, active}
use ynab_receipt_analyzer.Reconcile.Signature.{Signature, ynab_transaction_signature}
use ynab_receipt_analyzer.Ynab.Compare.{sort_splits}
use ynab_receipt_analyzer.Reconcile.Run.{
  ReceiptSync, first_rows, latest_successful_sync_rows, Reconciliation, existing_correction,
  correction_signature, record_mismatch,
}

-- Without splits the amount of a transaction is not part of its signature.
signature_no_amount :
    (t : RemoteTransaction) (amount : ℤ)
    → active t.subtransactions ≡ []
    → ynab_transaction_signature (record t { amount = amount }) ≡ ynab_transaction_signature t
unfolding ynab_transaction_signature sort_splits
signature_no_amount t amount e = rw e refl

-- Once a mismatch of a receipt is recorded, the same transaction under yet another amount is not, where it has no splits:
-- the run leaves everything as it is, whatever the new amount.
pub record_mismatch_second_drift :
    (digest : Signature → Signature → ℕ) (now receipt_id i : ℕ) (d : Desired)
    (t : RemoteTransaction) (amount : ℤ) (s : Reconciliation)
    → active t.subtransactions ≡ []
    → existing_correction receipt_id (correction_signature digest d t) s.corrections ≡ true
    → record_mismatch digest now receipt_id
        (some (record { transaction_id = i; synced = d; found = record t { amount = amount } }))
        s
      ≡ s
unfolding record_mismatch
record_mismatch_second_drift digest now receipt_id i d t amount s none_split known =
    rw (signature_no_amount t amount none_split, known) refl

-- No two rows are of one receipt, and none of a receipt that was seen.
abbrev pub is_of_receipt : ℕ → ReceiptSync → Bool
is_of_receipt i r = r.receipt_id == i

abbrev pub AllDifferent : List ReceiptSync → Type 0
AllDifferent [] = Unit
AllDifferent (r ∷ rs) = (any (is_of_receipt r.receipt_id) rs ≡ false) × AllDifferent rs

same_number : (a b : ℕ) → (a == b) ≡ true → a ≡ b
same_number a b e = ground arith

both_ways : (b : Bool) → b ≡ true → b ≡ false → ⊥
both_ways b t f = ground arith

seen-differs :
    (i j : ℕ) (seen : List ℕ)
    → any (λ k. k == i) seen ≡ true
    → any (λ k. k == j) seen ≡ false
    → (j == i) ≡ false
seen-differs i j seen h n = elim (Bool-cases (j == i)) [
  | inl e ↦ absurd (both_ways _ h (rw (← same_number j i e) n))
  | inr e ↦ e
]

seen-more :
    (i j : ℕ) (seen : List ℕ) → any (λ k. k == i) seen ≡ true → any (λ k. k == i) (j ∷ seen) ≡ true
seen-more i j seen h = ground arith

first_rows-unseen :
    (i : ℕ) (seen : List ℕ) (rs : List ReceiptSync)
    → any (λ j. j == i) seen ≡ true
    → any (is_of_receipt i) (first_rows seen rs) ≡ false
unfolding first_rows
first_rows-unseen i seen [] h = refl
first_rows-unseen i seen (r ∷ rs) h = elim (Bool-cases (any (λ j. j == r.receipt_id) seen)) [
  | inl e ↦ simp e (first_rows-unseen i seen rs h)
  | inr e ↦
      simp (e, seen-differs i r.receipt_id seen h e)
        (first_rows-unseen i (r.receipt_id ∷ seen) rs (seen-more i r.receipt_id seen h))
]

first_rows-AllDifferent :
    (seen : List ℕ) (rs : List ReceiptSync) → AllDifferent (first_rows seen rs)
unfolding first_rows
first_rows-AllDifferent seen [] = tt
first_rows-AllDifferent seen (r ∷ rs) = elim (Bool-cases (any (λ j. j == r.receipt_id) seen)) [
  | inl e ↦ simp e (first_rows-AllDifferent seen rs)
  | inr e ↦ simp e (
    first_rows-unseen r.receipt_id (r.receipt_id ∷ seen) rs (ground arith),
    first_rows-AllDifferent (r.receipt_id ∷ seen) rs,
  )
]

-- A run looks at each receipt once: no two of its rows are of one receipt.
pub latest_successful_sync_rows-AllDifferent :
    (start : ℕ) (rows : List ReceiptSync) → AllDifferent (latest_successful_sync_rows start rows)
unfolding latest_successful_sync_rows
latest_successful_sync_rows-AllDifferent start rows = first_rows-AllDifferent [] _
