-- ===== src/Allocation/Workspace.antt =====
-- The allocation workspace (`AllocationWorkspace` of apps/server/shared/receipt_shared/contracts.py) and
-- how its lanes and items are read from the draft and the twin of a receipt
-- (apps/server/backend/app/services/allocation_workspace.py). The identifiers of items come from
-- `uuid4`, which is a parameter.
use ynab_receipt_analyzer.Prelude.{
  ℕ, suc, ◌+◌, Bool, true, false, ◌||◌, not, Option, none, some, List, [], ◌∷◌, ◌++◌, ◌==◌,
  if◌then◌else◌, is_some,
}
use ynab_receipt_analyzer.Money.Decimals.{Decimal}
use ynab_receipt_analyzer.Sync.Text.{Text, text_eq, strip, lower}
use ynab_receipt_analyzer.Sync.Draft.{ValidationSplit, ValidationPayload, is_empty}

-- "main", "unassigned", "split-<n>", or another identifier.
pub data LaneId : Type 0 where
  main unassigned : LaneId
  split other : ℕ → LaneId

abbrev pub lane_eq : LaneId → LaneId → Bool
lane_eq main main = true
lane_eq main unassigned = false
lane_eq main (split i) = false
lane_eq main (other i) = false
lane_eq unassigned main = false
lane_eq unassigned unassigned = true
lane_eq unassigned (split i) = false
lane_eq unassigned (other i) = false
lane_eq (split i) main = false
lane_eq (split i) unassigned = false
lane_eq (split i) (split j) = i == j
lane_eq (split i) (other j) = false
lane_eq (other i) main = false
lane_eq (other i) unassigned = false
lane_eq (other i) (split j) = false
lane_eq (other i) (other j) = i == j

-- "main" and "split-0" are the same default destination.
abbrev pub is_primary_lane_id : LaneId → Bool
is_primary_lane_id id = lane_eq id main || lane_eq id (split 0)

-- The text of a line, or `Line <n>`.
pub data Label : Type 0 where
  text : Text → Label
  line : ℕ → Label

pub record AllocationItem : Type 0 where
  pub item_id : ℕ
  pub source_index : ℕ
  pub label : Label
  pub amount : Option Decimal
  pub tax_code : Text
  pub item_type : Text

pub record AllocationLane : Type 0 where
  pub lane_id : LaneId
  pub category_id : Option ℕ
  pub pinned_amount : Option Decimal

pub record AllocationAssignment : Type 0 where
  pub item_id : ℕ
  pub lane_id : LaneId

pub data Warning : Type 0 where
  no_twin no_line_items no_items twin_changed no_lanes pins_exceed_total : Warning
  unknown_amounts : ℕ → Warning
  unallocated : Decimal → Decimal → Decimal → Warning

pub record AllocationWorkspace : Type 0 where
  pub version : ℕ
  pub twin_version : ℕ
  pub generated_at : ℕ
  pub items : List AllocationItem
  pub lanes : List AllocationLane
  pub assignments : List AllocationAssignment
  pub warnings : List Warning

abbrev pub lane_of : LaneId → Option ℕ → Option Decimal → AllocationLane
lane_of id category pin = record { lane_id = id; category_id = category; pinned_amount = pin }

unfoldable pub split_lanes : ℕ → List ValidationSplit → List AllocationLane
split_lanes index [] = []
split_lanes index (s ∷ ss) =
    lane_of (split index) (some s.category_id) (some s.amount) ∷ split_lanes (suc index) ss

unfoldable pub primary_lanes : ValidationPayload → List ValidationSplit → List AllocationLane
primary_lanes p [] = lane_of main p.category_id (some p.total_amount) ∷ []
primary_lanes p (s ∷ ss) = split_lanes 0 (s ∷ ss)

unfoldable pub lane_definitions_from_payload : ValidationPayload → List AllocationLane
lane_definitions_from_payload p = primary_lanes p p.splits ++ (lane_of unassigned none none ∷ [])

-- A row of a twin's `line_items`.
pub record TwinItem : Type 0 where
  pub item_type : Text
  pub index : Option ℕ
  pub raw_text : Text
  pub translated_text : Text
  pub line_total : Option Decimal
  pub tax_code : Text

abbrev product_word : Text
product_word = b'p' ∷ b'r' ∷ b'o' ∷ b'd' ∷ b'u' ∷ b'c' ∷ b't' ∷ []

abbrev total_word : Text
total_word = b't' ∷ b'o' ∷ b't' ∷ b'a' ∷ b'l' ∷ []

abbrev subtotal_word : Text
subtotal_word = b's' ∷ b'u' ∷ b'b' ∷ total_word

-- `a or b`
abbrev pub text_or : Text → Text → Text
text_or [] other_text = other_text
text_or (c ∷ s) other_text = c ∷ s

abbrev pub item_type_of : TwinItem → Text
item_type_of row = text_or (lower (strip (text_or row.item_type product_word))) product_word

abbrev pub is_sum_row : Text → Bool
is_sum_row kind = text_eq kind subtotal_word || text_eq kind total_word

abbrev pub label_of : Text → ℕ → Label
label_of [] source_index = line (source_index + 1)
label_of (c ∷ s) source_index = text (c ∷ s)

abbrev pub index_or : Option ℕ → ℕ → ℕ
index_or none row_index = row_index
index_or (some i) row_index = i

abbrev pub item_of : ℕ → ℕ → TwinItem → AllocationItem
item_of new_id row_index row =
    let source_index = index_or row.index row_index in
    record {
      item_id = new_id;
      source_index = source_index;
      label = label_of (text_or (strip row.raw_text) (strip row.translated_text)) source_index;
      amount = row.line_total;
      tax_code = row.tax_code;
      item_type = item_type_of row;
    }

-- The items of the rows from `row_index` on; `new_id` gives the identifier for a row.
unfoldable pub items_from : (ℕ → ℕ) → ℕ → List TwinItem → List AllocationItem
items_from new_id row_index [] = []
items_from new_id row_index (row ∷ rows) =
    let rest = items_from new_id (suc row_index) rows in
    if is_sum_row (item_type_of row) then rest else item_of (new_id row_index) row_index row ∷ rest

abbrev pub missing_amounts : List AllocationItem → ℕ
missing_amounts [] = 0
missing_amounts (item ∷ items) =
    if is_some item.amount then missing_amounts items else suc (missing_amounts items)

abbrev pub warn_if : Bool → Warning → List Warning
warn_if true warning = warning ∷ []
warn_if false warning = []

abbrev pub item_warnings : List AllocationItem → List Warning
item_warnings items =
    let missing = missing_amounts items in
    warn_if (is_empty items) no_items ++ warn_if (not (missing == 0)) (unknown_amounts missing)

-- A twin's payload has its line items if they are a list.
unfoldable pub extract_items_from_twin_payload :
    (ℕ → ℕ) → Option (Option (List TwinItem)) → List AllocationItem × List Warning
extract_items_from_twin_payload new_id none = ([], no_twin ∷ [])
extract_items_from_twin_payload new_id (some none) = ([], no_line_items ∷ [])
extract_items_from_twin_payload new_id (some (some rows)) =
    let items = items_from new_id 0 rows in (items, item_warnings items)
