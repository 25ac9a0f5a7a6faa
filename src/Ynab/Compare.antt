-- ===== src/Ynab/Compare.antt =====
-- The comparison of a remote transaction with a wanted one
-- (`_transaction_matches_payload`, `_transaction_structure_matches_payload`). A signature is a sorted
-- list of the splits; any total order of them gives the same equality.
use ynab_receipt_analyzer.Prelude.{
  ℕ, Bool, true, false, ◌&&◌, ◌||◌, not, Option, none, some, List, [], ◌∷◌, ◌==◌, ltb, map,
  if◌then◌else◌,
}
use ynab_receipt_analyzer.Prelude.Int.{eqb_ℤ, ltb_ℤ}
use ynab_receipt_analyzer.Sync.Text.{Text, text_eq}
use ynab_receipt_analyzer.Sync.Draft.{is_empty}
use ynab_receipt_analyzer.Ynab.Remote.{
  RemoteSplit, RemoteTransaction, DesiredSplit, Desired, active, same_id,
}

abbrev pub text_less : Text → Text → Bool
text_less s [] = false
text_less [] (d ∷ t) = true
text_less (c ∷ s) (d ∷ t) = ltb c d || ((c == d) && text_less s t)

abbrev pub id_less : Option ℕ → Option ℕ → Bool
id_less a none = false
id_less none (some y) = true
id_less (some x) (some y) = ltb x y

abbrev pub split_less : DesiredSplit → DesiredSplit → Bool
split_less a b =
    ltb_ℤ a.amount b.amount
    || (eqb_ℤ a.amount b.amount
        && (id_less a.category_id b.category_id
            || (same_id a.category_id b.category_id && text_less a.memo b.memo)))

abbrev pub split_eq : DesiredSplit → DesiredSplit → Bool
split_eq a b =
    eqb_ℤ a.amount b.amount && (same_id a.category_id b.category_id && text_eq a.memo b.memo)

unfoldable pub insert_split : DesiredSplit → List DesiredSplit → List DesiredSplit
insert_split s [] = s ∷ []
insert_split s (x ∷ xs) = if split_less x s then x ∷ insert_split s xs else s ∷ x ∷ xs

unfoldable pub sort_splits : List DesiredSplit → List DesiredSplit
sort_splits [] = []
sort_splits (s ∷ ss) = insert_split s (sort_splits ss)

unfoldable pub splits_eq : List DesiredSplit → List DesiredSplit → Bool
splits_eq [] [] = true
splits_eq [] (y ∷ ys) = false
splits_eq (x ∷ xs) [] = false
splits_eq (x ∷ xs) (y ∷ ys) = split_eq x y && splits_eq xs ys

-- The splits that count, of a remote transaction.
abbrev pub reported : List RemoteSplit → List DesiredSplit
reported ss =
    map
      (λ (s : RemoteSplit). record {
        amount = s.amount;
        category_id = s.category_id;
        memo = s.memo;
      })
      (active ss)

unfoldable pub transaction_structure_matches_payload : RemoteTransaction → Desired → Bool
transaction_structure_matches_payload t p =
    if is_empty p.subtransactions
    then is_empty (active t.subtransactions) && same_id t.category_id p.category_id
    else splits_eq (sort_splits (reported t.subtransactions)) (sort_splits p.subtransactions)

abbrev pub same_day : ℕ → Option ℕ → Bool
same_day d none = false
same_day d (some e) = d == e

unfoldable pub transaction_matches_payload : RemoteTransaction → Desired → Bool
transaction_matches_payload t p =
    not t.deleted
    && (same_day t.date p.date
        && (eqb_ℤ t.amount p.amount
            && (same_id t.account_id p.account_id
                && (text_eq t.payee_name p.payee_name
                    && (text_eq t.memo p.memo && transaction_structure_matches_payload t p)))))
