-- ===== src/Sync/Draft.antt =====
-- The validation draft of a receipt, the errors of the money path, and the result of a step that may
-- raise (apps/server/shared/receipt_shared/contracts.py). Identifiers of YNAB are only compared, so
-- they are numbers; an absent or empty one is `none`.
use ynab_receipt_analyzer.Prelude.{
  ℕ, ◌≡◌, refl, ◌⊎◌, inl, inr, Bool, true, false, ◌&&◌, not, Option, none, some, List, [], ◌∷◌,
  is_some,
}
use ynab_receipt_analyzer.Prelude.Int.{ℤ}
use ynab_receipt_analyzer.Money.{MoneyError, Converted}
use ynab_receipt_analyzer.Money.Decimals.{Decimal, is_negative}
use ynab_receipt_analyzer.Sync.Text.{Text}

pub data TransactionKind : Type 0 where
  purchase refund : TransactionKind

pub record ValidationSplit : Type 0 where
  pub category_id : ℕ
  pub amount : Decimal
  pub memo : Text

pub record ValidationPayload : Type 0 where
  pub payee_name : Text
  pub account_id : Option ℕ
  pub transaction_date : Option ℕ
  pub memo : Text
  pub total_amount : Decimal
  pub transaction_kind : TransactionKind
  pub category_id : Option ℕ
  pub splits : List ValidationSplit

abbrev pub is_empty {ℓ} : {A : Type ℓ} → List A → Bool
is_empty [] = true
is_empty (x ∷ xs) = false

-- `ge=0` on each split amount.
abbrev pub amounts_ge_zero : List ValidationSplit → Bool
amounts_ge_zero [] = true
amounts_ge_zero (s ∷ ss) = not (is_negative s.amount) && amounts_ge_zero ss

-- `ensure_single_or_split_mode`: a category or splits, and not both.
abbrev pub single_or_split_mode : ValidationPayload → Bool
single_or_split_mode p =
    not (is_some p.category_id && not (is_empty p.splits))
    && not (not (is_some p.category_id) && is_empty p.splits)

-- The contract's constraints on values of the right types.
unfoldable pub satisfies_contract : ValidationPayload → Bool
satisfies_contract p = is_some p.account_id && (amounts_ge_zero p.splits && single_or_split_mode p)

-- Why the money path refuses or raises.
pub data SyncError : Type 0 where
  money : MoneyError → SyncError
  missing_account unknown_account invalid_account : SyncError
  splits_off_total splits_off_milliunits : SyncError
  invalid_split_category missing_category invalid_category : SyncError

-- What Python code gives back: a value, or the exception that left it.
pub data Result {ℓ} (Value : Type ℓ) : Type ℓ where
  err : SyncError → Result Value
  ok : Value → Result Value

-- The statements after `attempt` run only if it raised nothing.
infixl 5 ◌>>=◌ ◌>>◌
abbrev pub ◌>>=◌ {ℓ κ} :
    {Value : Type ℓ} {Next : Type κ} → Result Value → (Value → Result Next) → Result Next
attempt >>= next = elim attempt [ err raised ↦ err raised | ok value ↦ next value ]

abbrev pub ◌>>◌ {ℓ} : {Next : Type ℓ} → Result (Unit {0}) → Result Next → Result Next
check >> next = elim check [ err raised ↦ err raised | ok done ↦ next ]

abbrev pub raise_if : Bool → SyncError → Result (Unit {0})
raise_if true e = err e
raise_if false e = ok tt

abbrev pub or_raise {ℓ} : {A : Type ℓ} → Option A → SyncError → Result A
or_raise none e = err e
or_raise (some a) e = ok a

abbrev pub from_converted : Converted → Result ℤ
from_converted (Converted.ok m) = ok m
from_converted (Converted.err e) = err (money e)

-- To split on a computed result and keep the equation.
pub Result-cases {ℓ} :
    {A : Type ℓ} (r : Result A) → ((e : SyncError) × (r ≡ err e)) ⊎ ((a : A) × (r ≡ ok a))
Result-cases (ok a) = inr (a, refl)
Result-cases (err e) = inl (e, refl)

-- A block that gave back a value had a first statement that did.
pub >>=-eq-ok {ℓ κ} :
    {Value : Type ℓ} {Next : Type κ} (attempt : Result Value) (next : Value → Result Next)
    {out : Next}
    → (attempt >>= next) ≡ ok out
    → (value : Value) × (attempt ≡ ok value) × (next value ≡ ok out)
>>=-eq-ok (err raised) next done = cc
>>=-eq-ok (ok value) next done = (value, refl, done)

pub from_converted-eq-ok : (c : Converted) {m : ℤ} → from_converted c ≡ ok m → c ≡ Converted.ok m
from_converted-eq-ok (Converted.ok m) h = cc
from_converted-eq-ok (Converted.err e) h = cc
