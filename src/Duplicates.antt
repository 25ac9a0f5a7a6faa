-- ===== src/Duplicates.antt =====
-- Duplicate detection (`apply_semantic_duplicate_state` of
-- apps/server/backend/app/services/duplicates.py). The normalised keys of a payload are an argument, and
-- the digest of the four keys (SHA-256) is a parameter. Rows stand in the order of the queries, by
-- `ingested_at` and `id`; a row carries the kind that `_latest_kind_for_receipt` finds for it.
pub mod Blocking
use ynab_receipt_analyzer.Prelude.{
  ℕ, ◌-◌, Bool, true, false, ◌&&◌, not, Option, none, some, List, [], ◌∷◌, ◌==◌, keep, length,
  if◌then◌else◌,
}
use ynab_receipt_analyzer.Prelude.Int.{ℤ, eqb_ℤ}

pub data ReceiptStatus : Type 0 where
  ingested extracting needs_review duplicate_review syncing synced : ReceiptStatus
  error_extract error_sync : ReceiptStatus

pub data Kind : Type 0 where
  purchase refund : Kind

-- The texts of `status_reason`, by what they name; `other` stands for the texts of other code.
pub data StatusReason : Type 0 where
  near_without_time : ℕ → StatusReason
  check_skipped was_overridden only_reviews_found : StatusReason
  kinds_differ : ℕ → Kind → Kind → StatusReason
  candidate : ℕ → ℕ → StatusReason
  other : ℕ → StatusReason

pub record Keys : Type 0 where
  pub payee_key : Option ℕ
  pub date_key : Option ℕ
  pub time_key : Option ℕ
  pub total_cents : Option ℤ

pub record Receipt : Type 0 where
  pub id : ℕ
  pub status : ReceiptStatus
  pub status_reason : Option StatusReason
  pub deleted : Bool
  pub kind : Kind
  pub keys : Keys
  pub semantic_signature : Option ℕ
  pub duplicate_override_signature : Option ℕ
  pub duplicate_of_receipt_id : Option ℕ

abbrev pub Digest : Type 0
Digest = ℕ → ℕ → ℕ → ℤ → ℕ

-- The last component of `_semantic_parts`.
abbrev pub signature_of : Digest → Option ℕ → Option ℕ → Option ℕ → Option ℤ → Option ℕ
signature_of digest (some p) (some d) (some t) (some c) = some (digest p d t c)
signature_of digest none d t c = none
signature_of digest (some p) none t c = none
signature_of digest (some p) (some d) none c = none
signature_of digest (some p) (some d) (some t) none = none

abbrev pub build_semantic_signature : Digest → Keys → Option ℕ
build_semantic_signature digest k =
    signature_of digest k.payee_key k.date_key k.time_key k.total_cents

abbrev pub holds : Option ℕ → ℕ → Bool
holds none x = false
holds (some y) x = y == x

abbrev pub holds_ℤ : Option ℤ → ℤ → Bool
holds_ℤ none x = false
holds_ℤ (some y) x = eqb_ℤ y x

abbrev pub in_review : ReceiptStatus → Bool
in_review duplicate_review = true
in_review _ = false

abbrev pub same_kind : Kind → Kind → Bool
same_kind purchase purchase = true
same_kind purchase refund = false
same_kind refund purchase = false
same_kind refund refund = true

-- A row that is not this receipt, not deleted and not itself in duplicate review.
abbrev pub is_canonical : Receipt → Receipt → Bool
is_canonical r row = not (row.id == r.id) && (not row.deleted && not (in_review row.status))

-- Whether the row meets the query for the signature.
abbrev pub has_signature : Receipt → ℕ → Receipt → Bool
has_signature r signature row =
    holds row.semantic_signature signature && (not (row.id == r.id) && not row.deleted)

abbrev pub is_match : Receipt → ℕ → Receipt → Bool
is_match r signature row = has_signature r signature row && not (in_review row.status)

-- The query without the time of day.
abbrev pub is_timeless_match : Receipt → ℕ → ℕ → ℤ → Receipt → Bool
is_timeless_match r p d c row =
    holds row.keys.payee_key p
    && (holds row.keys.date_key d && (holds_ℤ row.keys.total_cents c && is_canonical r row))

-- What the check finds.
pub data Verdict : Type 0 where
  incomplete overridden no_match only_reviews : Verdict
  near_timeless near_other_kind duplicate : Receipt → ℕ → Verdict

abbrev pub near_verdict : List Receipt → Verdict
near_verdict [] = incomplete
near_verdict (row ∷ rows) = near_timeless row (length (row ∷ rows))

-- The check of a receipt without a full signature.
abbrev pub verdict_timeless : List Receipt → Receipt → Keys → Verdict
verdict_timeless rows r k = elim k.payee_key [
  | none ↦ incomplete
  | some p ↦ elim k.date_key [
    | none ↦ incomplete
    | some d ↦ elim k.total_cents [
      | none ↦ incomplete
      | some c ↦ near_verdict (keep (is_timeless_match r p d c) rows)
    ]
  ]
]

-- The choice among the matches: the first of the same kind, else the first.
abbrev pub choose_duplicate : List Receipt → List Receipt → Verdict
choose_duplicate [] pool = only_reviews
choose_duplicate (first ∷ rest) [] = near_other_kind first (length (first ∷ rest))
choose_duplicate (first ∷ rest) (row ∷ rows) = duplicate row (length (first ∷ rest))

abbrev pub verdict_matches : List Receipt → List Receipt → List Receipt → Verdict
verdict_matches [] pool same = no_match
verdict_matches (m ∷ ms) pool same = choose_duplicate pool same

-- The check of a receipt with this signature.
unfoldable pub verdict_signed : List Receipt → Receipt → Kind → ℕ → Verdict
verdict_signed rows r kind signature =
    let pool = keep (is_match r signature) rows in
    if holds r.duplicate_override_signature signature
    then overridden
    else verdict_matches (keep (has_signature r signature) rows) pool
        (keep (λ row. same_kind row.kind kind) pool)

unfoldable pub verdict_of : Digest → List Receipt → Receipt → Kind → Keys → Verdict
verdict_of digest rows r kind k = elim (build_semantic_signature digest k) [
  | none ↦ verdict_timeless rows r k
  | some signature ↦ verdict_signed rows r kind signature
]

-- A receipt that is not blocked leaves duplicate review.
abbrev pub released : ReceiptStatus → ReceiptStatus
released duplicate_review = needs_review
released s = s

-- `status_reason`, written only where the receipt was in duplicate review.
abbrev pub reason_if_released :
    ReceiptStatus → Option StatusReason → Option StatusReason → Option StatusReason
reason_if_released duplicate_review new old = new
reason_if_released s new old = old

abbrev pub unblock : Option ℕ → Option StatusReason → Receipt → Receipt
unblock override reason r = record r {
  status = released r.status;
  status_reason = reason;
  duplicate_override_signature = override;
  duplicate_of_receipt_id = none;
}

-- The receipt after its verdict. From `no_match` on, an override of another signature is dropped.
unfoldable pub apply_verdict : Verdict → Kind → Receipt → Receipt
apply_verdict incomplete kind r =
    unblock r.duplicate_override_signature
      (reason_if_released r.status (some check_skipped) r.status_reason) r
apply_verdict (near_timeless row n) kind r =
    unblock r.duplicate_override_signature (some (near_without_time row.id)) r
apply_verdict overridden kind r =
    unblock r.duplicate_override_signature
      (reason_if_released r.status (some was_overridden) r.status_reason) r
apply_verdict no_match kind r = unblock none (reason_if_released r.status none r.status_reason) r
apply_verdict only_reviews kind r = unblock none (some only_reviews_found) r
apply_verdict (near_other_kind row n) kind r =
    unblock none (some (kinds_differ row.id kind row.kind)) r
apply_verdict (duplicate row n) kind r = record r {
  status = duplicate_review;
  status_reason = some (candidate row.id (n - 1));
  duplicate_override_signature = none;
  duplicate_of_receipt_id = some row.id;
}

-- The receipt after the check; the first statements write its keys and its signature.
unfoldable pub apply_semantic_duplicate_state :
    Digest → List Receipt → Kind → Keys → Receipt → Receipt
apply_semantic_duplicate_state digest rows kind k r =
    apply_verdict (verdict_of digest rows r kind k) kind
      (record r { keys = k; semantic_signature = build_semantic_signature digest k })

-- `DuplicateCheckResult`
pub record DuplicateCheckResult : Type 0 where
  pub signature : Option ℕ
  pub duplicate_of_receipt_id : Option ℕ
  pub match_count : ℕ
  pub near_match : Bool

unfoldable pub check_result : Option ℕ → Verdict → DuplicateCheckResult
check_result s (near_timeless row n) = record {
  signature = none;
  duplicate_of_receipt_id = none;
  match_count = n;
  near_match = true;
}
check_result s (near_other_kind row n) = record {
  signature = s;
  duplicate_of_receipt_id = none;
  match_count = n;
  near_match = true;
}
check_result s (duplicate row n) = record {
  signature = s;
  duplicate_of_receipt_id = some row.id;
  match_count = n;
  near_match = false;
}
check_result s _ = record {
  signature = s;
  duplicate_of_receipt_id = none;
  match_count = 0;
  near_match = false;
}
