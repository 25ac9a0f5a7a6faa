-- ===== src/Allocation/Greedy.antt =====
-- `_greedy_assign_items` and `build_initial_allocation_workspace`
-- (apps/server/backend/app/services/allocation_workspace.py).
use ynab_receipt_analyzer.Prelude.{
  ℕ, Bool, not, Option, none, some, List, [], ◌∷◌, ◌++◌, if◌then◌else◌, map, is_some, keep,
}
use ynab_receipt_analyzer.Money.Decimals.{Decimal, integral, magnitude, subtract, add, less}
use ynab_receipt_analyzer.Sync.Draft.{ValidationPayload}
use ynab_receipt_analyzer.Allocation.Workspace.{
  LaneId, unassigned, lane_eq, AllocationItem, AllocationLane, AllocationAssignment,
  AllocationWorkspace, TwinItem, lane_definitions_from_payload, extract_items_from_twin_payload,
}

abbrev pub assign : AllocationItem → LaneId → AllocationAssignment
assign item id = record { item_id = item.item_id; lane_id = id }

abbrev pub assign_all : LaneId → List AllocationItem → List AllocationAssignment
assign_all id = map (λ item. assign item id)

abbrev pub is_assignable : AllocationLane → Bool
is_assignable lane = not (lane_eq lane.lane_id unassigned)

-- `abs(_to_decimal(amount))`, and `abs(_to_decimal(pin or 0))`
abbrev pub magnitude_or_zero : Option Decimal → Decimal
magnitude_or_zero none = integral 0
magnitude_or_zero (some d) = magnitude d

-- What a lane is to hold and what it holds: a row of `targets` and of `running`.
pub record LaneLoad : Type 0 where
  pub lane_id : LaneId
  pub target : Decimal
  pub running : Decimal

abbrev pub load_of : AllocationLane → LaneLoad
load_of lane = record {
  lane_id = lane.lane_id;
  target = magnitude_or_zero lane.pinned_amount;
  running = integral 0;
}

-- `known_items.sort(key=..., reverse=True)`, which keeps the order of equal amounts.
unfoldable pub insert_item : AllocationItem → List AllocationItem → List AllocationItem
insert_item item [] = item ∷ []
insert_item item (next ∷ items) =
    let rest = insert_item item items in
    if less (magnitude_or_zero item.amount) (magnitude_or_zero next.amount)
    then next ∷ rest
    else item ∷ next ∷ items

unfoldable pub sort_items : List AllocationItem → List AllocationItem
sort_items [] = []
sort_items (item ∷ items) = insert_item item (sort_items items)

abbrev pub score : Decimal → LaneLoad → Decimal
score item_amount load = magnitude (subtract (subtract load.target load.running) item_amount)

-- The first lane with the least score, from the best one so far.
unfoldable pub best_lane : Decimal → LaneLoad → List LaneLoad → LaneId
best_lane item_amount best [] = best.lane_id
best_lane item_amount best (load ∷ loads) =
    if less (score item_amount load) (score item_amount best)
    then best_lane item_amount load loads
    else best_lane item_amount best loads

-- `running[id] += item_amount`
abbrev pub add_running : LaneId → Decimal → LaneLoad → LaneLoad
add_running id item_amount load =
    if lane_eq load.lane_id id
    then (record {
      lane_id = load.lane_id;
      target = load.target;
      running = add load.running item_amount;
    })
    else load

-- The loop over the known items, the lanes being `first` and `loads`.
unfoldable pub assign_known :
    LaneLoad → List LaneLoad → List AllocationItem → List AllocationAssignment
assign_known first loads [] = []
assign_known first loads (item ∷ items) =
    let item_amount = magnitude_or_zero item.amount in
    let id = best_lane item_amount first loads in
    assign item id
    ∷ assign_known (add_running id item_amount first) (map (add_running id item_amount) loads) items

-- The one lane gets the items with an amount.
abbrev pub assign_single : LaneId → AllocationItem → AllocationAssignment
assign_single id item = assign item (if is_some item.amount then id else unassigned)

unfoldable pub greedy_over : List AllocationItem → List AllocationLane → List AllocationAssignment
greedy_over items [] = assign_all unassigned items
greedy_over items (lane ∷ []) = map (assign_single lane.lane_id) items
greedy_over items (lane ∷ next ∷ lanes) =
    assign_known (load_of lane) (map load_of (next ∷ lanes))
      (sort_items (keep (λ item. is_some item.amount) items))
    ++ assign_all unassigned (keep (λ item. not (is_some item.amount)) items)

unfoldable pub greedy_assign_items :
    List AllocationItem → List AllocationLane → List AllocationAssignment
greedy_assign_items items lanes = greedy_over items (keep is_assignable lanes)

unfoldable pub build_initial_allocation_workspace :
    (ℕ → ℕ) → ℕ → ValidationPayload → Option (Option (List TwinItem)) → ℕ → AllocationWorkspace
build_initial_allocation_workspace new_id now p twin twin_version =
    let lanes = lane_definitions_from_payload p in
    let (items, warnings) = extract_items_from_twin_payload new_id twin in
    record {
      version = 1;
      twin_version = twin_version;
      generated_at = now;
      items = items;
      lanes = lanes;
      assignments = greedy_assign_items items lanes;
      warnings = warnings;
    }
