-- ===== src/Ynab/Updates.antt =====
-- The update of an existing transaction, row by row (`_build_update_transaction_payload` of
-- apps/server/backend/app/services/ynab.py).
use ynab_receipt_analyzer.Prelude.{
  ℕ, zero, suc, ◌≡◌, refl, ap, Bool, true, false, Option, none, some, List, [], ◌∷◌, ◌++◌, drop,
  length, arith, any, Bool-cases, inl, inr,
}
use ynab_receipt_analyzer.Ynab.Remote.{
  RemoteSplit, RemoteTransaction, DesiredSplit, Desired, is_candidate, match_transaction,
}
use ynab_receipt_analyzer.Prelude.Int.{ℤ}
use ynab_receipt_analyzer.Sync.Text.{Text}
use ynab_receipt_analyzer.Ynab.Requests.{
  SplitUpdate, write, remove, ids_of, removals, merge_splits, existing_splits, build_update_splits,
  build_update_transaction_payload,
}

-- The splits that an update writes.
abbrev pub written : List SplitUpdate → List DesiredSplit
written [] = []
written (write i d ∷ us) = d ∷ written us
written (remove i ∷ us) = written us

-- The rows of YNAB that an update names, and those that it deletes.
abbrev pub named : List SplitUpdate → List ℕ
named [] = []
named (write none d ∷ us) = named us
named (write (some i) d ∷ us) = i ∷ named us
named (remove i ∷ us) = i ∷ named us

abbrev pub deleted_rows : List SplitUpdate → List ℕ
deleted_rows [] = []
deleted_rows (write i d ∷ us) = deleted_rows us
deleted_rows (remove i ∷ us) = i ∷ deleted_rows us

abbrev pub known : List (Option ℕ) → List ℕ
known [] = []
known (none ∷ ids) = known ids
known (some i ∷ ids) = i ∷ known ids

-- An update writes `ds` over the rows `ids`.
abbrev pub Replaces : List DesiredSplit → List (Option ℕ) → List SplitUpdate → Type 0
Replaces ds ids us =
    (written us ≡ ds) × (named us ≡ known ids) × (deleted_rows us ≡ known (drop (length ds) ids))

removals-Replaces : (ids : List (Option ℕ)) → Replaces [] ids (removals ids)
removals-Replaces [] = (refl, refl, refl)
removals-Replaces (none ∷ ids) = removals-Replaces ids
removals-Replaces (some i ∷ ids) =
    let (w, n, r) = removals-Replaces ids in (w, ap (◌∷◌ i) n, ap (◌∷◌ i) r)

drop-nothing : {xs : List ℕ} (n : ℕ) → xs ≡ known (drop {A = Option ℕ} n []) → xs ≡ []
drop-nothing zero e = e
drop-nothing (suc n) e = e

merge_splits-Replaces :
    (ds : List DesiredSplit) (ids : List (Option ℕ)) → Replaces ds ids (merge_splits ds ids)
merge_splits-Replaces [] ids = removals-Replaces ids
merge_splits-Replaces (d ∷ ds) [] =
    let (w, n, r) = merge_splits-Replaces ds [] in (ap (◌∷◌ d) w, n, drop-nothing (length ds) r)
merge_splits-Replaces (d ∷ ds) (none ∷ ids) =
    let (w, n, r) = merge_splits-Replaces ds ids in (ap (◌∷◌ d) w, n, r)
merge_splits-Replaces (d ∷ ds) (some i ∷ ids) =
    let (w, n, r) = merge_splits-Replaces ds ids in (ap (◌∷◌ d) w, ap (◌∷◌ i) n, r)

-- The rows of an update, against the splits that are wanted and the rows that YNAB has. Wanted splits are
-- all written, once and in their order; the rows with an id are each named once, in their order, so none is
-- left as it was; and those beyond the number of wanted splits are the ones that are deleted. Without wanted
-- splits the update clears the rows, and it does not mention them where there are none.
abbrev pub Restructures : List DesiredSplit → List RemoteSplit → Option (List SplitUpdate) → Type 0
Restructures [] [] splits = splits ≡ none
Restructures [] (e ∷ es) splits = splits ≡ some []
Restructures (d ∷ ds) existing splits =
    (us : List SplitUpdate) × (splits ≡ some us) × Replaces (d ∷ ds) (ids_of existing) us

build_update_splits-Restructures :
    (ds : List DesiredSplit) (existing : List RemoteSplit)
    → Restructures ds existing (build_update_splits ds existing)
unfolding build_update_splits
build_update_splits-Restructures [] [] = refl
build_update_splits-Restructures [] (e ∷ es) = refl
build_update_splits-Restructures (d ∷ ds) existing =
    (_, refl, merge_splits-Replaces (d ∷ ds) (ids_of existing))

-- An update of a transaction restructures its rows that are not deleted into the wanted splits, and never sets
-- an import id. Wanted splits are written once and in their order; the rows with an id are each named once,
-- in their order, and those beyond the number of wanted splits are deleted. Without wanted splits the rows
-- are cleared, and not mentioned where there are none.
pub build_update_transaction_payload-Restructures :
    (d : Desired) (flag : Option ℕ) (existing : Option RemoteTransaction)
    → Restructures d.subtransactions
        (existing_splits existing)
        (build_update_transaction_payload d flag existing).splits
      × ((build_update_transaction_payload d flag existing).fields.import_id ≡ none)
unfolding build_update_transaction_payload
build_update_transaction_payload-Restructures d flag existing =
    (build_update_splits-Restructures d.subtransactions (existing_splits existing), refl)

-- The first candidate of a list, or none where there is no candidate.
abbrev pub FirstCandidate :
    (RemoteTransaction → Bool) → List RemoteTransaction → Option RemoteTransaction → Type 0
FirstCandidate p ts none = any p ts ≡ false
FirstCandidate p ts (some t) =
    (before : List RemoteTransaction) × (after : List RemoteTransaction) × (ts
      ≡ before ++ (t ∷ after))
    × (any p before ≡ false)
    × (p t ≡ true)

after-FirstCandidate :
    (p : RemoteTransaction → Bool) (t : RemoteTransaction) (ts : List RemoteTransaction)
    (found : Option RemoteTransaction)
    → p t ≡ false
    → FirstCandidate p ts found
    → FirstCandidate p (t ∷ ts) found
after-FirstCandidate p t ts none fails h = ground arith
after-FirstCandidate p t ts (some x) fails (before, after, e, none_before, passes) =
    (t ∷ before, after, ap (◌∷◌ t) e, ground arith, passes)

-- The transaction that a receipt is matched with is the first one that is not deleted, has the amount and a
-- day from the receipt's to the last, and the payee where one is asked for; and nothing is matched only where
-- no transaction is such.
pub match_transaction-FirstCandidate :
    (ts : List RemoteTransaction) (amount : ℤ) (first last : ℕ) (payee : Text)
    → FirstCandidate
        (is_candidate amount first last payee)
        ts
        (match_transaction ts amount first last payee)
unfolding match_transaction
match_transaction-FirstCandidate [] amount first last payee = refl
match_transaction-FirstCandidate (t ∷ ts) amount first last payee =
    elim (Bool-cases (is_candidate amount first last payee t)) [
      | inl passes ↦ simp passes ([], ts, refl, refl, refl)
      | inr fails ↦ simp fails (
          after-FirstCandidate _ t ts _ fails
            (match_transaction-FirstCandidate ts amount first last payee))
    ]
