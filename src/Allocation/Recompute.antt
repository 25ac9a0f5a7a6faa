-- ===== src/Allocation/Recompute.antt =====
-- `recompute_payload_from_workspace`: the draft whose splits a workspace gives
-- (apps/server/backend/app/services/allocation_workspace.py).
use ynab_receipt_analyzer.Prelude.{
  ℕ, Bool, ◌&&◌, Option, none, some, List, [], ◌∷◌, ◌++◌, ◌==◌, if◌then◌else◌, map, keep, get_elem?,
  leb, max,
}
use ynab_receipt_analyzer.Prelude.Int.{pos, ltb_ℤ}
use ynab_receipt_analyzer.Money.Decimals.{Decimal, integral, quantize, add, subtract, is_negative}
use ynab_receipt_analyzer.Sync.Text.{Text}
use ynab_receipt_analyzer.Sync.Draft.{ValidationSplit, ValidationPayload, is_empty}
use ynab_receipt_analyzer.Allocation.Shares.{largest_remainder_allocation}
use ynab_receipt_analyzer.Allocation.Workspace.{
  LaneId, main, unassigned, split, other, lane_eq, AllocationItem, AllocationLane,
  AllocationAssignment, AllocationWorkspace, Warning, no_lanes, pins_exceed_total, unallocated,
  warn_if,
}
use ynab_receipt_analyzer.Allocation.Greedy.{is_assignable}
use ynab_receipt_analyzer.Allocation.Merge.{lane_after, cons_option}

-- `{item.item_id: item for item in items}.get(id)`: of items with one identifier, the last one.
abbrev pub item_after : ℕ → Option AllocationItem → List AllocationItem → Option AllocationItem
item_after id found [] = found
item_after id found (item ∷ items) =
    if item.item_id == id then item_after id (some item) items else item_after id found items

abbrev pub amount_of : Option AllocationItem → Option Decimal
amount_of none = none
amount_of (some item) = item.amount

abbrev pub add_amount : Decimal → Option Decimal → Decimal
add_amount total none = total
add_amount total (some amount) = add total amount

-- The amounts assigned to a lane, in the order of the assignments, on top of `total`.
unfoldable pub lane_total :
    LaneId → List AllocationItem → Decimal → List AllocationAssignment → Decimal
lane_total id items total [] = total
lane_total id items total (a ∷ rows) =
    if lane_eq a.lane_id id
    then lane_total id items (add_amount total (amount_of (item_after a.item_id none items))) rows
    else lane_total id items total rows

-- `max(v, Decimal("0"))`
abbrev pub at_least_zero : Decimal → Decimal
at_least_zero d = if is_negative d then integral 0 else d

unfoldable pub lane_weight : AllocationWorkspace → LaneId → Decimal
lane_weight w id = at_least_zero (lane_total id w.items (integral 0) w.assignments)

-- The identifiers of the lanes other than the unassigned one.
abbrev pub assignable_ids : List AllocationLane → List LaneId
assignable_ids lanes = map (λ lane. lane.lane_id) (keep is_assignable lanes)

-- A row of `lane_amounts`.
abbrev pub LaneAmounts : Type 0
LaneAmounts = List (LaneId × Decimal)

-- `lane_amounts.get(id, Decimal("0"))`: the last row written.
abbrev pub amount_after : LaneId → Decimal → LaneAmounts → Decimal
amount_after id found [] = found
amount_after id found ((lane, amount) ∷ rows) =
    if lane_eq lane id then amount_after id amount rows else amount_after id found rows

-- `for index, id in enumerate(ids): lane_amounts[id] = distributed[index]`
abbrev pub distribute : List LaneId → List Decimal → LaneAmounts
distribute [] amounts = []
distribute (id ∷ ids) [] = []
distribute (id ∷ ids) (amount ∷ amounts) = (id, amount) ∷ distribute ids amounts

unfoldable pub re_suggest : AllocationWorkspace → List LaneId → Decimal → LaneAmounts
re_suggest w ids total_amount =
    distribute ids (largest_remainder_allocation total_amount (map (lane_weight w) ids))

abbrev pub pin_of : Option AllocationLane → Option Decimal
pin_of none = none
pin_of (some lane) = lane.pinned_amount

-- The pins in cents, and the lanes without a pin.
pub record Pins : Type 0 where
  pub amounts : LaneAmounts
  pub pinned_sum : Decimal
  pub unpinned_ids : List LaneId

abbrev pub no_pins : Pins
no_pins = record { amounts = []; pinned_sum = integral 0; unpinned_ids = [] }

abbrev pub put_pin : Pins → LaneId → Option Decimal → Option Pins
put_pin pins id none = none
put_pin pins id (some normalized) = some (record pins {
  amounts = pins.amounts ++ ((id, normalized) ∷ []);
  pinned_sum = add pins.pinned_sum normalized;
})

-- One lane of the loop; `none` is `InvalidOperation`.
abbrev pub collect_pin : Pins → LaneId → Option Decimal → Option Pins
collect_pin pins id none = some (record pins { unpinned_ids = pins.unpinned_ids ++ (id ∷ []) })
collect_pin pins id (some pin) = put_pin pins id (quantize 2 pin)

abbrev pub then_pins : Option Pins → (Pins → Option Pins) → Option Pins
then_pins none next = none
then_pins (some pins) next = next pins

unfoldable pub collect_pins : AllocationWorkspace → List LaneId → Pins → Option Pins
collect_pins w [] pins = some pins
collect_pins w (id ∷ ids) pins =
    then_pins (collect_pin pins id (pin_of (lane_after id none w.lanes))) (collect_pins w ids)

abbrev pub is_positive : Decimal → Bool
is_positive d = ltb_ℤ (pos 0) d.coef

unfoldable pub keep_manual_amounts :
    AllocationWorkspace → Decimal → Pins → LaneAmounts × List Warning
keep_manual_amounts w total_amount pins =
    let difference = subtract total_amount pins.pinned_sum in
    let remainder = at_least_zero difference in
    (
      pins.amounts
          ++ distribute pins.unpinned_ids
              (largest_remainder_allocation remainder (map (lane_weight w) pins.unpinned_ids)),
      warn_if (is_negative difference) pins_exceed_total
          ++ warn_if (is_empty pins.unpinned_ids && is_positive remainder)
              (unallocated pins.pinned_sum total_amount remainder),
    )

-- A split of the draft that comes out; an empty category is `none`.
pub record NextSplit : Type 0 where
  pub category_id : Option ℕ
  pub amount : Decimal
  pub memo : Text

-- The keys of the draft that may change, the workspace and the warnings.
pub record Recomputed : Type 0 where
  pub category_id : Option ℕ
  pub splits : List NextSplit
  pub workspace : AllocationWorkspace
  pub warnings : List Warning

-- The numbers of the split lanes.
abbrev pub split_indices : List LaneId → List ℕ
split_indices [] = []
split_indices (main ∷ ids) = split_indices ids
split_indices (unassigned ∷ ids) = split_indices ids
split_indices (split i ∷ ids) = i ∷ split_indices ids
split_indices (other i ∷ ids) = split_indices ids

-- `sorted(..., key=lambda item: int(item.split("-", 1)[1]))`
unfoldable pub insert_index : ℕ → List ℕ → List ℕ
insert_index i [] = i ∷ []
insert_index i (next ∷ rest) =
    let later = insert_index i rest in if leb i next then i ∷ next ∷ rest else next ∷ later

unfoldable pub sort_indices : List ℕ → List ℕ
sort_indices [] = []
sort_indices (i ∷ is) = insert_index i (sort_indices is)

abbrev pub memo_or_empty : Option ValidationSplit → Text
memo_or_empty none = []
memo_or_empty (some s) = s.memo

abbrev pub category_of : Option AllocationLane → Option ℕ
category_of none = none
category_of (some lane) = lane.category_id

abbrev pub with_amount : Option ℕ → Text → Option Decimal → Option NextSplit
with_amount category memo none = none
with_amount category memo (some amount) =
    some (record { category_id = category; amount = amount; memo = memo })

unfoldable pub next_split :
    ValidationPayload → AllocationWorkspace → LaneAmounts → ℕ → Option NextSplit
next_split p w amounts index =
    with_amount (category_of (lane_after (split index) none w.lanes))
      (memo_or_empty (get_elem? p.splits index))
      (quantize 2 (amount_after (split index) (integral 0) amounts))

unfoldable pub next_splits :
    ValidationPayload → AllocationWorkspace → LaneAmounts → List ℕ → Option (List NextSplit)
next_splits p w amounts [] = some []
next_splits p w amounts (i ∷ is) =
    cons_option (next_split p w amounts i) (next_splits p w amounts is)

abbrev pub stamped : ℕ → AllocationWorkspace → List Warning → AllocationWorkspace
stamped now w warnings = record w {
  version = max w.version 1;
  generated_at = now;
  warnings = warnings;
}

abbrev pub split_result :
    ℕ → AllocationWorkspace → List Warning → Option (List NextSplit) → Option Recomputed
split_result now w warnings none = none
split_result now w warnings (some splits) = some (record {
  category_id = none;
  splits = splits;
  workspace = stamped now w warnings;
  warnings = warnings;
})

abbrev pub main_category : ValidationPayload → Option AllocationLane → Option ℕ
main_category p none = p.category_id
main_category p (some lane) = lane.category_id

-- The draft of the amounts: the splits in the order of their numbers, or the one category.
abbrev pub recomputed_over :
    ℕ
    → ValidationPayload
    → AllocationWorkspace
    → List ℕ
    → LaneAmounts × List Warning
    → Option Recomputed
recomputed_over now p w [] (amounts, warnings) = some (record {
  category_id = main_category p (lane_after main none w.lanes);
  splits = [];
  workspace = stamped now w (w.warnings ++ warnings);
  warnings = w.warnings ++ warnings;
})
recomputed_over now p w (i ∷ is) (amounts, warnings) =
    split_result now w (w.warnings ++ warnings) (next_splits p w amounts (sort_indices (i ∷ is)))

pub data Mode : Type 0 where
  manual suggested : Mode

abbrev pub manual_amounts :
    AllocationWorkspace → Decimal → Option Pins → Option (LaneAmounts × List Warning)
manual_amounts w total none = none
manual_amounts w total (some pins) = some (keep_manual_amounts w total pins)

abbrev pub lane_amounts :
    Mode → AllocationWorkspace → List LaneId → Decimal → Option (LaneAmounts × List Warning)
lane_amounts manual w ids total = manual_amounts w total (collect_pins w ids no_pins)
lane_amounts suggested w ids total = some (re_suggest w ids total, [])

abbrev pub recomputed_with :
    ℕ
    → ValidationPayload
    → AllocationWorkspace
    → List LaneId
    → Option (LaneAmounts × List Warning)
    → Option Recomputed
recomputed_with now p w ids none = none
recomputed_with now p w ids (some found) = recomputed_over now p w (split_indices ids) found

abbrev pub recomputed_for :
    Mode
    → ℕ
    → ValidationPayload
    → AllocationWorkspace
    → List LaneId
    → Option Decimal
    → Option Recomputed
recomputed_for mode now p w ids none = none
recomputed_for mode now p w ids (some total) =
    recomputed_with now p w ids (lane_amounts mode w ids total)

abbrev pub as_next : ValidationSplit → NextSplit
as_next s = record { category_id = some s.category_id; amount = s.amount; memo = s.memo }

abbrev pub recompute_over :
    Mode → ℕ → ValidationPayload → AllocationWorkspace → List LaneId → Option Recomputed
recompute_over mode now p w [] = some (record {
  category_id = p.category_id;
  splits = map as_next p.splits;
  workspace = w;
  warnings = w.warnings ++ (no_lanes ∷ []);
})
recompute_over mode now p w (id ∷ ids) =
    recomputed_for mode now p w (id ∷ ids) (quantize 2 p.total_amount)

-- The result `none` is `InvalidOperation`, of an amount that does not fit 28 digits in cents.
unfoldable pub recompute_payload_from_workspace :
    Mode → ℕ → ValidationPayload → AllocationWorkspace → Option Recomputed
recompute_payload_from_workspace mode now p w = recompute_over mode now p w (assignable_ids w.lanes)
