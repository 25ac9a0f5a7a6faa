-- ===== src/Sync/Validate.antt =====
-- `validate_payload` (apps/server/backend/app/services/validation.py). A set of allowed identifiers
-- that the caller leaves out is `none`.
use ynab_receipt_analyzer.Prelude.{
  ℕ, Bool, true, false, not, Option, none, some, List, [], ◌∷◌, ◌++◌, ◌==◌, contains, if◌then◌else◌,
}
use ynab_receipt_analyzer.Prelude.Int.{ℤ, pos, leb_ℤ, eqb_ℤ, sum_ℤ}
use ynab_receipt_analyzer.Money.{dollars_to_milliunits}
use ynab_receipt_analyzer.Money.Decimals.{Decimal, integral, subtract, less, magnitude, sum_from}
use ynab_receipt_analyzer.Sync.Draft.{
  ValidationSplit, ValidationPayload, is_empty, satisfies_contract, Result, ok, ◌>>=◌,
  from_converted,
}

abbrev pub unknown_account_id : ℕ
unknown_account_id = 0

-- The messages that the function collects.
pub data Complaint : Type 0 where
  broken_contract total_not_positive splits_off_total splits_off_milliunits : Complaint
  no_categories_cached invalid_category no_accounts_cached invalid_account : Complaint
  account_is_unknown : Complaint
  invalid_split_category : ℕ → Complaint

-- One cent.
abbrev pub cent : Decimal
cent = record { coef = pos 1; scale = 2 }

abbrev pub split_amounts : List ValidationSplit → List Decimal
split_amounts [] = []
split_amounts (s ∷ ss) = s.amount ∷ split_amounts ss

-- `abs(a - b) > Decimal("0.01")`
abbrev pub off_by_more_than_cent : Decimal → Decimal → Bool
off_by_more_than_cent a b = less cent (magnitude (subtract a b))

-- `[dollars_to_milliunits(split.amount, outflow=outflow) for split in splits]`
unfoldable pub convert_splits : Bool → List ValidationSplit → Result (List ℤ)
convert_splits outflow [] = ok []
convert_splits outflow (s ∷ ss) = do
  m ← from_converted (dollars_to_milliunits s.amount outflow)
  ms ← convert_splits outflow ss
  ok (m ∷ ms)

abbrev pub complain_if : Bool → Complaint → List Complaint
complain_if true c = c ∷ []
complain_if false c = []

abbrev pub check_splits_exact : ValidationPayload → Result (List Complaint)
check_splits_exact p = do
  total ← from_converted (dollars_to_milliunits p.total_amount false)
  ms ← convert_splits false p.splits
  ok (complain_if (not (eqb_ℤ (sum_ℤ ms) total)) splits_off_milliunits)

unfoldable pub check_splits_sum : ValidationPayload → Result (List Complaint)
check_splits_sum p =
    if off_by_more_than_cent p.total_amount (sum_from (integral 0) (split_amounts p.splits))
    then ok (splits_off_total ∷ [])
    else check_splits_exact p

abbrev pub bad_split_categories : List ℕ → List ValidationSplit → List Complaint
bad_split_categories allowed [] = []
bad_split_categories allowed (s ∷ ss) =
    complain_if (not (contains s.category_id allowed)) (invalid_split_category s.category_id)
    ++ bad_split_categories allowed ss

abbrev pub check_split_categories : Option (List ℕ) → List ValidationSplit → List Complaint
check_split_categories none ss = []
check_split_categories (some allowed) ss =
    complain_if (is_empty allowed) no_categories_cached ++ bad_split_categories allowed ss

abbrev pub member : Option ℕ → List ℕ → Bool
member none allowed = false
member (some x) allowed = contains x allowed

abbrev pub check_category : Option (List ℕ) → Option ℕ → List Complaint
check_category none c = []
check_category (some []) c = no_categories_cached ∷ []
check_category (some (a ∷ rest)) c = complain_if (not (member c (a ∷ rest))) invalid_category

abbrev pub check_account_among : Option (List ℕ) → ℕ → List Complaint
check_account_among none a = []
check_account_among (some []) a = no_accounts_cached ∷ []
check_account_among (some (x ∷ rest)) a = complain_if (not (contains a (x ∷ rest))) invalid_account

abbrev pub check_account : Option (List ℕ) → Bool → Option ℕ → List Complaint
check_account allowed allow_unknown none = []
check_account allowed allow_unknown (some a) =
    if a == unknown_account_id
    then complain_if (not allow_unknown) account_is_unknown
    else check_account_among allowed a

unfoldable pub check_mode :
    Option (List ℕ) → ValidationPayload → List ValidationSplit → Result (List Complaint)
check_mode categories p [] = ok (check_category categories p.category_id)
check_mode categories p (s ∷ ss) = do
  sums ← check_splits_sum p
  ok (sums ++ check_split_categories categories (s ∷ ss))

-- The checks of a draft that satisfies the contract.
abbrev pub check_parsed :
    ValidationPayload → Option (List ℕ) → Option (List ℕ) → Bool → Result (List Complaint)
check_parsed p categories accounts allow_unknown = do
  mode ← check_mode categories p p.splits
  let positive = complain_if (leb_ℤ p.total_amount.coef (pos 0)) total_not_positive
  ok (positive ++ (mode ++ check_account accounts allow_unknown p.account_id))

-- The errors found; the draft is valid if there are none. An exception of the money path escapes.
unfoldable pub validate_payload :
    ValidationPayload → Option (List ℕ) → Option (List ℕ) → Bool → Result (List Complaint)
validate_payload p categories accounts allow_unknown =
    if satisfies_contract p
    then check_parsed p categories accounts allow_unknown
    else ok (broken_contract ∷ [])
