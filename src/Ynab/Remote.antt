-- ===== src/Ynab/Remote.antt =====
-- Transactions as YNAB reports them and as the program asks for them. Days are numbers; an absent or
-- empty identifier is `none`.
use ynab_receipt_analyzer.Prelude.{
  ℕ, zero, suc, Bool, true, false, ◌&&◌, not, Option, none, some, List, [], ◌∷◌, ◌==◌, leb, keep,
  map, length, if◌then◌else◌,
}
use ynab_receipt_analyzer.Prelude.Int.{ℤ, eqb_ℤ}
use ynab_receipt_analyzer.Sync.Text.{Text, strip, lstrip, lower, text_eq}
use ynab_receipt_analyzer.Sync.Memo.{receipt_id_marker_prefix}
use ynab_receipt_analyzer.Sync.Draft.{is_empty}
use ynab_receipt_analyzer.Sync.Gate.{Subtransaction, Body, single, split, TransactionPayload}

pub record RemoteSplit : Type 0 where
  pub id : Option ℕ
  pub amount : ℤ
  pub category_id : Option ℕ
  pub memo : Text
  pub deleted : Bool

pub record RemoteTransaction : Type 0 where
  pub id : ℕ
  pub deleted : Bool
  pub date : ℕ
  pub amount : ℤ
  pub account_id : Option ℕ
  pub payee_name : Text
  pub memo : Text
  pub import_id : Option Text
  pub category_id : Option ℕ
  pub subtransactions : List RemoteSplit

pub record DesiredSplit : Type 0 where
  pub amount : ℤ
  pub category_id : Option ℕ
  pub memo : Text

-- The dict of a transaction that is wanted. Without splits the key `subtransactions` is absent; with
-- splits `category_id` is.
pub record Desired : Type 0 where
  pub account_id : Option ℕ
  pub date : Option ℕ
  pub amount : ℤ
  pub payee_name : Text
  pub memo : Text
  pub import_id : Option Text
  pub category_id : Option ℕ
  pub subtransactions : List DesiredSplit

abbrev pub desired_split : Subtransaction → DesiredSplit
desired_split s = record { amount = s.amount; category_id = some s.category_id; memo = s.memo }

abbrev pub body_category : Body → Option ℕ
body_category (single c) = some c
body_category (split ss) = none

abbrev pub body_splits : Body → List DesiredSplit
body_splits (single c) = []
body_splits (split ss) = map desired_split ss

-- What the gate builds, as such a dict.
abbrev pub desired_of : TransactionPayload → Desired
desired_of t = record {
  account_id = some t.account_id;
  date = t.date;
  amount = t.amount;
  payee_name = t.payee_name;
  memo = t.memo;
  import_id = some t.import_id;
  category_id = body_category t.body;
  subtransactions = body_splits t.body;
}

-- `[sub for sub in ... if not sub.get("deleted")]`
abbrev pub active : List RemoteSplit → List RemoteSplit
active = keep (λ s. not s.deleted)

-- What follows the text `p` in `s`.
unfoldable pub after_prefix : Text → Text → Option Text
after_prefix [] s = some s
after_prefix (p ∷ ps) [] = none
after_prefix (p ∷ ps) (c ∷ s) = if p == c then after_prefix ps s else none

-- What follows the first closing bracket.
unfoldable pub after_close : Text → Option Text
after_close [] = none
after_close (c ∷ s) = if c == b']' then some s else after_close s

-- What follows a match of `\s*\[receipt_id:[^\]]*\]` at the start.
unfoldable pub marker_end : Text → Option Text
marker_end s = elim (after_prefix receipt_id_marker_prefix (lstrip s)) [
  | none ↦ none
  | some rest ↦ after_close rest
]

-- `re.sub` of the marker by nothing. The fuel is a bound on the length.
unfoldable pub remove_markers : ℕ → Text → Text
remove_markers zero s = s
remove_markers (suc n) [] = []
remove_markers (suc n) (c ∷ s) = elim (marker_end (c ∷ s)) [
  | none ↦ c ∷ remove_markers n s
  | some rest ↦ remove_markers n rest
]

unfoldable pub strip_receipt_id_marker : Text → Text
strip_receipt_id_marker memo =
    let memo_text = strip memo in strip (remove_markers (length memo_text) memo_text)

abbrev pub same_id : Option ℕ → Option ℕ → Bool
same_id none none = true
same_id none (some y) = false
same_id (some x) none = false
same_id (some x) (some y) = x == y

-- Whether a person has entered data into the transaction.
unfoldable pub ynab_has_user_data : RemoteTransaction → Desired → Bool
ynab_has_user_data t desired =
    if not (is_empty (strip_receipt_id_marker t.memo))
    then true
    else if not (is_empty (active t.subtransactions))
    then true
    else is_empty desired.subtransactions && not (same_id desired.category_id t.category_id)

-- A transaction that a receipt may be matched with. An empty payee matches every payee.
abbrev pub is_candidate : ℤ → ℕ → ℕ → Text → RemoteTransaction → Bool
is_candidate amount first last payee t =
    not t.deleted
    && (eqb_ℤ t.amount amount
        && (leb first t.date
            && (leb t.date last
                && (if is_empty payee then true else text_eq (lower t.payee_name) (lower payee)))))

-- The first candidate.
unfoldable pub match_transaction :
    List RemoteTransaction → ℤ → ℕ → ℕ → Text → Option RemoteTransaction
match_transaction [] amount first last payee = none
match_transaction (t ∷ ts) amount first last payee =
    if is_candidate amount first last payee t
    then some t
    else match_transaction ts amount first last payee
