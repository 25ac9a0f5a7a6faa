-- ===== src/Routes/Claimed.antt =====
-- The gates and the claim of `sync_receipt` (apps/server/backend/app/api/receipts.py).
use ynab_receipt_analyzer.Prelude.{
  ℕ, ◌≡◌, ◌≢◌, refl, sym, ap, ◌∙◌, ◌⊎◌, inl, inr, Bool, true, false, Option, none, some, is_some,
  not, ◌||◌, [], ◌∷◌, arith, Bool-cases, Option-cases, if◌then◌else◌,
}
use ynab_receipt_analyzer.Sync.Text.{Text, strip}
use ynab_receipt_analyzer.Sync.Draft.{is_empty}
use ynab_receipt_analyzer.Duplicates.{
  Receipt, Kind, ReceiptStatus, syncing, synced, needs_review, duplicate_review, ingested,
  extracting, error_extract, error_sync, Verdict, incomplete, overridden, no_match, only_reviews,
  near_timeless, near_other_kind, duplicate, apply_verdict, check_result, released,
  build_semantic_signature, apply_semantic_duplicate_state,
}
use ynab_receipt_analyzer.Routes.Handlers.{
  Confirmed, State, World, SyncRequest, DraftPayload, ValidationRow, HttpReply, not_found,
  claim_sync, claim_unless, sync_passed, sync_latest, sync_receipt, latest_validation,
  payee_sync_blocked, date_sync_blocked, twin_blocked, gate_refusal, found_duplicate,
  with_duplicates_checked, is_syncing,
}

is_syncing-released : (status : ReceiptStatus) → is_syncing (released status) ≡ is_syncing status
is_syncing-released ingested = refl
is_syncing-released extracting = refl
is_syncing-released needs_review = refl
is_syncing-released duplicate_review = refl
is_syncing-released syncing = refl
is_syncing-released synced = refl
is_syncing-released error_extract = refl
is_syncing-released error_sync = refl

-- A check that finds no duplicate leaves a sync under way as it is.
is_syncing-apply_verdict :
    (signature : Option ℕ) (verdict : Verdict) (kind : Kind) (r : Receipt)
    → (check_result signature verdict).duplicate_of_receipt_id ≡ none
    → is_syncing (apply_verdict verdict kind r).status ≡ is_syncing r.status
unfolding apply_verdict check_result
is_syncing-apply_verdict signature incomplete kind r h = is_syncing-released r.status
is_syncing-apply_verdict signature overridden kind r h = is_syncing-released r.status
is_syncing-apply_verdict signature no_match kind r h = is_syncing-released r.status
is_syncing-apply_verdict signature only_reviews kind r h = is_syncing-released r.status
is_syncing-apply_verdict signature (near_timeless row n) kind r h = is_syncing-released r.status
is_syncing-apply_verdict signature (near_other_kind row n) kind r h = is_syncing-released r.status
is_syncing-apply_verdict signature (duplicate row n) kind r h = cc

pub is_syncing-with_duplicates_checked :
    (w : World) (p : DraftPayload) (s : State)
    → found_duplicate w p s ≡ none
    → is_syncing (with_duplicates_checked w p s).receipt.status ≡ is_syncing s.receipt.status
unfolding found_duplicate with_duplicates_checked apply_semantic_duplicate_state
is_syncing-with_duplicates_checked w p s h =
    is_syncing-apply_verdict (build_semantic_signature w.digest (w.keys_of p)) _ (w.kind_of p) _ h

abbrev IsConfirmed : Option Confirmed → Type 0
IsConfirmed none = Unit {0}
IsConfirmed (some c) = (c.date_time ≡ true) × (c.total ≡ true)

-- A draft with a payee that is not blank and a date that is not a guess, a twin whose date and total are
-- confirmed where there is one, and a sync that is enabled.
abbrev pub PassesGates : World → State → DraftPayload → Type 0
PassesGates w s p =
    (strip p.draft.payee_name ≢ [])
    × ((day : ℕ) × (p.draft.transaction_date ≡ some day))
    × (p.date_is_guess ≡ false)
    × IsConfirmed s.twin
    × (w.sync_enabled ≡ true)

nonempty : (text : Text) → is_empty text ≡ false → text ≢ []
nonempty text h e = ground (arith, ap is_empty e)

given_date :
    (day : Option ℕ) (guess : Bool)
    → not (is_some day) || guess ≡ false
    → ((d : ℕ) × (day ≡ some d)) × (guess ≡ false)
given_date none guess h = ground arith
given_date (some d) guess h = ((d, refl), h)

confirmed : (twin : Option Confirmed) → twin_blocked twin ≡ false → IsConfirmed twin
confirmed none h = tt
confirmed (some c) h = (ground arith, ground arith)

passed :
    (w : World) (s : State) (p : DraftPayload)
    → payee_sync_blocked p ≡ false
    → date_sync_blocked p ≡ false
    → twin_blocked s.twin ≡ false
    → w.sync_enabled ≡ true
    → PassesGates w s p
unfolding payee_sync_blocked date_sync_blocked
passed w s p payee date twin enabled =
    let (day, sure) = given_date p.draft.transaction_date p.date_is_guess date in
    (nonempty (strip p.draft.payee_name) payee, day, sure, confirmed s.twin twin, enabled)

gate_refusal-PassesGates :
    (w : World) (s : State) (p : DraftPayload)
    → gate_refusal w.sync_enabled s.twin p ≡ none
    → PassesGates w s p
unfolding gate_refusal
gate_refusal-PassesGates w s p h =
    passed w s p (ground arith) (ground arith) (ground arith) (ground arith)

-- A job is queued for a receipt that is not deleted and not syncing, whose latest draft is valid, passes
-- the gates and duplicates no other; it is syncing from then on.
abbrev pub IsClaimed : World → SyncRequest → State → State → Type 0
IsClaimed w request s out =
    (out.jobs ≡ request ∷ s.jobs)
    × (is_syncing out.receipt.status ≡ true)
    × (s.receipt.deleted ≡ false)
    × (is_syncing s.receipt.status ≡ false)
    × ((v : ValidationRow) × (latest_validation s.validations ≡ some v)
        × (v.is_valid ≡ true)
        × PassesGates w s v.payload
        × (found_duplicate w v.payload s ≡ none))

-- What the claim does.
claim_sync-outcome :
    (w : World) (request : SyncRequest) (s : State)
    → ((claim_sync w.accepted w.now request s).1.jobs ≡ s.jobs)
      ⊎ (((claim_sync w.accepted w.now request s).1.jobs ≡ request ∷ s.jobs)
          × (is_syncing (claim_sync w.accepted w.now request s).1.receipt.status ≡ true)
          × (is_syncing s.receipt.status ≡ false))
unfolding claim_sync
claim_sync-outcome w request s = elim (Bool-cases (is_syncing s.receipt.status)) [
  | inl e ↦ inl (simp e refl)
  | inr e ↦ elim (Bool-cases w.accepted) [
    | inl f ↦ inr (simp (e, f) (refl, refl, refl))
    | inr f ↦ inl (simp (e, f) refl)
  ]
]

pub jobs-with_duplicates_checked :
    (w : World) (p : DraftPayload) (s : State) → (with_duplicates_checked w p s).jobs ≡ s.jobs
unfolding with_duplicates_checked
jobs-with_duplicates_checked w p s = refl

claim_unless-IsClaimed :
    (w : World) (request : SyncRequest) (v : ValidationRow) (s : State)
    → s.receipt.deleted ≡ false
    → latest_validation s.validations ≡ some v
    → v.is_valid ≡ true
    → gate_refusal w.sync_enabled s.twin v.payload ≡ none
    → let out =
        (claim_unless
          (found_duplicate w v.payload s)
          w
          request
          (with_duplicates_checked w v.payload s)).1 in
      (out.jobs ≡ s.jobs) ⊎ IsClaimed w request s out
claim_unless-IsClaimed w request v s there latest valid gates =
    let start = with_duplicates_checked w v.payload s in
    elim (Option-cases (found_duplicate w v.payload s)) [
      | inl e ↦ elim (claim_sync-outcome w request start) [
        | inl same ↦ inl (simp e (same ∙ jobs-with_duplicates_checked w v.payload s))
        | inr (more, busy, free) ↦
            let idle = sym (is_syncing-with_duplicates_checked w v.payload s e) ∙ free in
            let queued =
              more ∙ ap (λ js. request ∷ js) (jobs-with_duplicates_checked w v.payload s) in
            inr (
              simp e (
                queued,
                busy,
                there,
                idle,
                (v, latest, valid, gate_refusal-PassesGates w s v.payload gates, e),
              ))
      ]
      | inr (id, e) ↦ inl (simp e (jobs-with_duplicates_checked w v.payload s))
    ]

sync_passed-IsClaimed :
    (w : World) (request : SyncRequest) (v : ValidationRow) (s : State) (refusal : Option HttpReply)
    → s.receipt.deleted ≡ false
    → latest_validation s.validations ≡ some v
    → v.is_valid ≡ true
    → gate_refusal w.sync_enabled s.twin v.payload ≡ refusal
    → let out = (sync_passed refusal w request v.payload s).1 in
      (out.jobs ≡ s.jobs) ⊎ IsClaimed w request s out
sync_passed-IsClaimed w request v s (some reply) there latest valid gates = inl refl
sync_passed-IsClaimed w request v s none there latest valid gates =
    claim_unless-IsClaimed w request v s there latest valid gates

sync_latest-IsClaimed :
    (w : World) (request : SyncRequest) (found : Option ValidationRow) (s : State)
    → s.receipt.deleted ≡ false
    → latest_validation s.validations ≡ found
    → let out = (sync_latest w request found s).1 in (out.jobs ≡ s.jobs) ⊎ IsClaimed w request s out
sync_latest-IsClaimed w request none s there latest = inl refl
sync_latest-IsClaimed w request (some v) s there latest = elim (Bool-cases v.is_valid) [
  | inl e ↦ simp e (sync_passed-IsClaimed w request v s _ there latest e refl)
  | inr e ↦ simp e (inl refl)
]

deleted-IsClaimed :
    (w : World) (request : SyncRequest) (s : State) (gone : Bool)
    → s.receipt.deleted ≡ gone
    → let out =
        (if gone
          then (not_found, s)
          else sync_latest w request (latest_validation s.validations) s).1 in
      (out.jobs ≡ s.jobs) ⊎ IsClaimed w request s out
deleted-IsClaimed w request s true h = inl refl
deleted-IsClaimed w request s false h =
    sync_latest-IsClaimed w request (latest_validation s.validations) s h refl

-- A call of sync_receipt queues a job or leaves the jobs alone. It queues one only for a receipt that is
-- not deleted and not syncing, whose latest draft is valid, has a payee and a confirmed date, duplicates
-- no other receipt and has its twin confirmed if it has one, and only while the sync is enabled; the
-- receipt is then syncing. This holds for all other rows and drafts.
pub sync_receipt-IsClaimed :
    (w : World) (request : SyncRequest) (s : State)
    → ((sync_receipt w request s).1.jobs ≡ s.jobs)
      ⊎ IsClaimed w request s (sync_receipt w request s).1
unfolding sync_receipt
sync_receipt-IsClaimed w request s = deleted-IsClaimed w request s s.receipt.deleted refl
