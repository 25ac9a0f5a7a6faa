-- ===== src/Ynab/Writes.antt =====
-- The two ways to write a receipt: to update the transaction of an earlier sync
-- (`_sync_update_existing`), or to match a transaction or create one (`_sync_match_or_create`).
use ynab_receipt_analyzer.Prelude.{
  ℕ, ◌+◌, Bool, true, false, ◌&&◌, ◌||◌, not, Option, none, some, List, [], ◌∷◌, any, min,
  if◌then◌else◌,
}
use ynab_receipt_analyzer.Prelude.Int.{ℤ, pos, ltb_ℤ}
use ynab_receipt_analyzer.Money.{milliunits_to_dollars}
use ynab_receipt_analyzer.Money.Decimals.{Decimal, magnitude}
use ynab_receipt_analyzer.Sync.Text.{Text, text_eq, has_infix}
use ynab_receipt_analyzer.Sync.Memo.{build_import_id, receipt_id_marker, append_receipt_id_marker}
use ynab_receipt_analyzer.Sync.Draft.{
  TransactionKind, purchase, refund, ValidationSplit, ValidationPayload, is_empty,
}
use ynab_receipt_analyzer.Ynab.Remote.{
  RemoteSplit, RemoteTransaction, Desired, active, strip_receipt_id_marker, ynab_has_user_data,
  match_transaction,
}
use ynab_receipt_analyzer.Ynab.Compare.{
  transaction_matches_payload, transaction_structure_matches_payload,
}
use ynab_receipt_analyzer.Ynab.Requests.{
  full, minimal, build_update_transaction_payload, full_transaction_payload,
}
use ynab_receipt_analyzer.Ynab.Session.{
  create, Answer, answered, conflict, not_found, failed, Client, Problem, api_conflict,
  api_not_found, api_failed, no_date, money_overflow, prior_transaction_deleted, matched_updated,
  created, failed_sync, SyncRow, needs_review, mixed_splits, Act, ◌>>=◌, ◌>>◌, give, raise, the_row,
  set_row, set_payload, set_status, request, list_transactions_since, get_transaction_by_id,
  update_transaction,
}

abbrev pub or_else : Option ℕ → Option ℕ → Option ℕ
or_else none b = b
or_else (some a) b = some a

-- The earlier of two days; a missing one is later than all.
abbrev pub earlier_day : Option ℕ → Option ℕ → Option ℕ
earlier_day none b = b
earlier_day (some a) none = some a
earlier_day (some a) (some b) = some (min a b)

-- The one transaction that matches, if there is just one.
abbrev pub only_match :
    Desired → List RemoteTransaction → Option RemoteTransaction → Option RemoteTransaction
only_match d [] found = found
only_match d (t ∷ ts) found =
    if transaction_matches_payload t d
    then elim found [ none ↦ only_match d ts (some t) | some other ↦ none ]
    else only_match d ts found

-- Whether a transaction is the one that an earlier create of this receipt left.
abbrev pub has_import_id : Option Text → Text → Bool
has_import_id none i = false
has_import_id (some j) i = text_eq j i

abbrev pub is_resolution : Text → RemoteTransaction → Bool
is_resolution receipt_id t =
    not t.deleted
    && (has_import_id t.import_id (build_import_id receipt_id)
        || has_infix t.memo (receipt_id_marker receipt_id))

unfoldable pub resolve_conflict : Text → List RemoteTransaction → Act (Option RemoteTransaction)
resolve_conflict receipt_id [] = raise api_conflict
resolve_conflict receipt_id (t ∷ ts) =
    if is_resolution receipt_id t then give (some t) else resolve_conflict receipt_id ts

-- What a transaction of YNAB says of the kind.
abbrev pub kind_of : ℤ → TransactionKind
kind_of amount = if ltb_ℤ (pos 0) amount then refund else purchase

-- 0 stands for a missing category, which no cache holds.
abbrev pub category_or_zero : Option ℕ → ℕ
category_or_zero none = 0
category_or_zero (some c) = c

-- The splits of the draft, from those of YNAB.
unfoldable pub adopt_splits : (Decimal → Decimal) → List RemoteSplit → Act (List ValidationSplit)
adopt_splits float_text [] = give []
adopt_splits float_text (s ∷ ss) = elim (milliunits_to_dollars float_text s.amount) [
  | none ↦ raise money_overflow
  | some d ↦ do
    rest ← adopt_splits float_text ss
    give (
        record { category_id = category_or_zero s.category_id; amount = magnitude d; memo = s.memo }
        ∷ rest)
]

abbrev pub is_mixed : List RemoteSplit → Bool
is_mixed ss =
    any (λ (s : RemoteSplit). ltb_ℤ (pos 0) s.amount) ss
    && any (λ (s : RemoteSplit). ltb_ℤ s.amount (pos 0)) ss

abbrev pub payee_or : Text → Text → Text
payee_or [] old = old
payee_or (c ∷ s) old = c ∷ s

-- The texts and the kind of YNAB in the draft.
abbrev pub adopted_base : RemoteTransaction → ValidationPayload → ValidationPayload
adopted_base t p = record p {
  memo = strip_receipt_id_marker t.memo;
  payee_name = payee_or t.payee_name p.payee_name;
  transaction_kind = kind_of t.amount;
}

-- The draft is left alone where YNAB has no category either.
abbrev pub adopt_category : ValidationPayload → Option ℕ → Act Bool
adopt_category base none = give true
adopt_category base (some c) = do
  set_payload (record base { category_id = some c; splits = [] })
  give true

-- Splits that go both ways are for a person to decide.
abbrev pub adopt_active :
    (Decimal → Decimal) → ValidationPayload → List RemoteSplit → Bool → Act Bool
adopt_active float_text base splits true = do
  set_status needs_review (some mixed_splits)
  give false
adopt_active float_text base splits false = do
  ss ← adopt_splits float_text splits
  set_payload (record base { category_id = none; splits = ss })
  give true

-- The draft with what YNAB holds.
unfoldable pub adopt_payload :
    (Decimal → Decimal) → RemoteTransaction → ValidationPayload → Act Bool
adopt_payload float_text t p =
    let splits = active t.subtransactions in
    if is_empty splits
    then adopt_category (adopted_base t p) t.category_id
    else adopt_active float_text (adopted_base t p) splits (is_mixed splits)

pub record Flags : Type 0 where
  pub new_flag : Option ℕ
  pub updated_flag : Option ℕ

module _ (client : Client) where
  abbrev pub find_exact_transaction_match : Desired → Option ℕ → Act (Option RemoteTransaction)
  find_exact_transaction_match d since = do
    candidates ← list_transactions_since client since
    give (only_match d candidates none)

  -- After the answer of `create_transaction`: a conflict is resolved by the list of transactions.
  unfoldable pub settle_create :
      Text → Desired → Answer (Option RemoteTransaction) → Act (Option RemoteTransaction)
  settle_create receipt_id d (answered t) = give t
  settle_create receipt_id d conflict = do
    candidates ← list_transactions_since client d.date
    resolve_conflict receipt_id candidates
  settle_create receipt_id d not_found = raise api_not_found
  settle_create receipt_id d (failed n) = raise (api_failed n)

  unfoldable pub create_transaction_idempotent :
      Text → Desired → Option ℕ → Act (Option RemoteTransaction)
  create_transaction_idempotent receipt_id d flag = do
    a ← request (create d flag) (λ calls. client.create_transaction calls d flag)
    settle_create receipt_id d a

  -- Whether YNAB applied the structure of the splits, after the update.
  unfoldable pub update_or_replace_transaction :
      ℕ → Desired → Option ℕ → RemoteTransaction → Act Bool
  update_or_replace_transaction i d flag existing = do
    answer ←
        update_transaction client i (full (build_update_transaction_payload d flag (some existing)))
    row ← the_row
    set_row (record row {
      status = matched_updated;
      matched_transaction_id = some i;
      raw_response = some answer;
    })
    give (transaction_structure_matches_payload answer d)

  abbrev pub ask_for : Desired → Option ℕ → Act (Unit {0})
  ask_for d flag = do
    row ← the_row
    set_row (record row { raw_request = some (record { transaction = d; flag_color = flag }) })

  abbrev pub look_up : Option ℕ → Act (Option RemoteTransaction)
  look_up none = give none
  look_up (some i) = get_transaction_by_id client i

  abbrev pub previous_request : SyncRow → Desired → Desired
  previous_request prior d = elim prior.raw_request [ none ↦ d | some r ↦ r.transaction ]

  abbrev pub with_own_id : Option RemoteTransaction → Option (ℕ × RemoteTransaction)
  with_own_id none = none
  with_own_id (some t) = some (t.id, t)

  abbrev pub with_id : Option ℕ → RemoteTransaction → Option (ℕ × RemoteTransaction)
  with_id none t = none
  with_id (some i) t = some (i, t)

  -- Without a live transaction under the id, an exact match is looked for.
  abbrev pub locate :
      Option ℕ
      → Desired
      → Option ℕ
      → Option RemoteTransaction
      → Act (Option (ℕ × RemoteTransaction))
  locate target previous since (some t) = give (with_id target t)
  locate target previous since none = do
    exact ← find_exact_transaction_match previous since
    give (with_own_id exact)

  -- The transaction of the earlier sync: by its id, or else by an exact match.
  unfoldable pub find_existing : SyncRow → Desired → Act (Option (ℕ × RemoteTransaction))
  find_existing prior d =
      let target = or_else prior.created_transaction_id prior.matched_transaction_id in
      let previous = previous_request prior d in
      let since = earlier_day d.date (or_else previous.date d.date) in
      do live ← look_up target; locate target previous since live

  abbrev pub deleted_before : Desired → Act (Bool × Option Problem)
  deleted_before d = do
    ask_for d none
    row ← the_row
    set_row (record row { status = failed_sync; error_text = some prior_transaction_deleted })
    give (false, some prior_transaction_deleted)

  abbrev pub overwrite : Flags → Desired → ℕ → RemoteTransaction → Act Bool
  overwrite flags d i t = do
    ask_for d flags.updated_flag
    update_or_replace_transaction i d flags.updated_flag t

  abbrev pub update_found :
      Flags → Desired → Option (ℕ × RemoteTransaction) → Act (Bool × Option Problem)
  update_found flags d none = deleted_before d
  update_found flags d (some (i, t)) = do applied ← overwrite flags d i t; give (applied, none)

  -- Whether the structure was applied, and the reason for a review.
  unfoldable pub sync_update_existing : Flags → SyncRow → Desired → Act (Bool × Option Problem)
  sync_update_existing flags prior d = do
    existing ← find_existing prior d
    update_found flags d existing

  -- YNAB is the source of truth: the marker joins the memo, and the transaction is to be approved again.
  unfoldable pub adopt_transaction : Flags → Text → ValidationPayload → RemoteTransaction → Act Bool
  adopt_transaction flags receipt_id p t =
      let memo = append_receipt_id_marker t.memo receipt_id in
      do
        ask_for (full_transaction_payload t memo) flags.updated_flag
        answer ← update_transaction client t.id (minimal memo false flags.updated_flag)
        row ← the_row
        set_row (record row {
          status = matched_updated;
          matched_transaction_id = some t.id;
          raw_response = some answer;
        })
        adopt_payload client.float_text t p

  unfoldable pub update_matched :
      Flags → Text → Desired → ValidationPayload → RemoteTransaction → Act Bool
  update_matched flags receipt_id d p t =
      if ynab_has_user_data t d
      then adopt_transaction flags receipt_id p t
      else overwrite flags d t.id t

  abbrev pub id_of : Option RemoteTransaction → Option ℕ
  id_of none = none
  id_of (some t) = some t.id

  unfoldable pub create_new : Flags → Text → Desired → Act Bool
  create_new flags receipt_id d = do
    ask_for d flags.new_flag
    answer ← create_transaction_idempotent receipt_id d flags.new_flag
    row ← the_row
    set_row (record row {
      status = created;
      created_transaction_id = id_of answer;
      raw_response = answer;
    })
    give true

  abbrev pub candidates_for : Bool → Desired → Text → ℕ → Act (Option RemoteTransaction)
  candidates_for true d payee day = give none
  candidates_for false d payee day = do
    ts ← list_transactions_since client d.date
    give (match_transaction ts d.amount day (day + 3) payee)

  abbrev pub match_or_create_with :
      Flags → Bool → Text → Desired → ValidationPayload → Option RemoteTransaction → Act Bool
  match_or_create_with flags allow receipt_id d p none = create_new flags receipt_id d
  match_or_create_with flags true receipt_id d p (some t) = update_matched flags receipt_id d p t
  match_or_create_with flags false receipt_id d p (some t) = create_new flags receipt_id d

  -- A missing date is refused.
  abbrev pub match_or_create_on :
      Flags → Bool → Bool → Text → Desired → ValidationPayload → Option ℕ → Act Bool
  match_or_create_on flags allow force_create receipt_id d p none = raise no_date
  match_or_create_on flags allow force_create receipt_id d p (some day) = do
    matched ← candidates_for force_create d p.payee_name day
    match_or_create_with flags allow receipt_id d p matched

  -- Whether the structure was applied.
  unfoldable pub sync_match_or_create :
      Flags → Bool → Bool → Text → Desired → ValidationPayload → Act Bool
  sync_match_or_create flags allow_update_match force_create receipt_id d p =
      match_or_create_on flags allow_update_match force_create receipt_id d p d.date
