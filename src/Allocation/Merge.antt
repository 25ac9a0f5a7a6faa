-- ===== src/Allocation/Merge.antt =====
-- `reconcile_allocation_workspace`: a saved workspace against the draft as it is now
-- (apps/server/backend/app/services/allocation_workspace.py).
use ynab_receipt_analyzer.Prelude.{
  ℕ, Bool, true, false, not, Option, none, some, List, [], ◌∷◌, ◌++◌, ◌==◌, if◌then◌else◌, map, any,
  ◌≡◌, refl, contains, max,
}
use ynab_receipt_analyzer.Prelude.Int.{eqb_ℤ}
use ynab_receipt_analyzer.Money.Decimals.{Decimal, quantize}
use ynab_receipt_analyzer.Sync.Draft.{ValidationPayload}
use ynab_receipt_analyzer.Allocation.Workspace.{
  LaneId, main, unassigned, lane_eq, is_primary_lane_id, lane_of, AllocationItem, AllocationLane,
  AllocationAssignment, AllocationWorkspace, twin_changed, warn_if, TwinItem,
  lane_definitions_from_payload,
}
use ynab_receipt_analyzer.Allocation.Greedy.{assign, build_initial_allocation_workspace}

-- `{lane.lane_id: lane for lane in lanes}.get(id)`: of lanes with one identifier, the last one.
abbrev pub lane_after : LaneId → Option AllocationLane → List AllocationLane → Option AllocationLane
lane_after id found [] = found
lane_after id found (lane ∷ lanes) =
    if lane_eq lane.lane_id id then lane_after id (some lane) lanes else lane_after id found lanes

-- Whether a pin is the payload's total, both in cents. `none` is `InvalidOperation`.
abbrev pub is_total : Decimal → Option Decimal → Option Bool
is_total total none = none
is_total total (some pin) = some (eqb_ℤ pin.coef total.coef)

abbrev pub pin_if : Decimal → Option Bool → Option (Option Decimal)
pin_if pin none = none
pin_if pin (some true) = some (some pin)
pin_if pin (some false) = some none

-- The pin of the main lane is the default one, which is dropped once the total has changed.
unfoldable pub preserved_pin : Decimal → LaneId → Option Decimal → Option (Option Decimal)
preserved_pin total id none = some none
preserved_pin total id (some pin) =
    if lane_eq id unassigned
    then some none
    else if lane_eq id main
    then pin_if pin (is_total total (quantize 2 pin))
    else some (some pin)

abbrev pub with_pin : AllocationLane → Option (Option Decimal) → Option AllocationLane
with_pin lane none = none
with_pin lane (some pin) = some (lane_of lane.lane_id lane.category_id pin)

unfoldable pub merge_lane : Decimal → AllocationLane → Option AllocationLane → Option AllocationLane
merge_lane total lane none = some lane
merge_lane total lane (some existing) =
    with_pin lane (preserved_pin total lane.lane_id existing.pinned_amount)

abbrev pub cons_option {ℓ} : {A : Type ℓ} → Option A → Option (List A) → Option (List A)
cons_option none rest = none
cons_option (some a) none = none
cons_option (some a) (some rest) = some (a ∷ rest)

unfoldable pub merge_lanes :
    Decimal → List AllocationLane → List AllocationLane → Option (List AllocationLane)
merge_lanes total existing [] = some []
merge_lanes total existing (lane ∷ lanes) =
    cons_option (merge_lane total lane (lane_after lane.lane_id none existing))
      (merge_lanes total existing lanes)

-- The first lane that is not the unassigned one.
abbrev pub primary_lane_id : List AllocationLane → LaneId
primary_lane_id [] = unassigned
primary_lane_id (lane ∷ lanes) =
    if lane_eq lane.lane_id unassigned then primary_lane_id lanes else lane.lane_id

abbrev pub has_lane : LaneId → List AllocationLane → Bool
has_lane id lanes = any (λ lane. lane_eq lane.lane_id id) lanes

unfoldable pub remap_lane_id : List AllocationLane → LaneId → LaneId
remap_lane_id expected id =
    if has_lane id expected
    then id
    else if is_primary_lane_id id
    then primary_lane_id expected
    else unassigned

abbrev pub item_ids : List AllocationItem → List ℕ
item_ids = map (λ item. item.item_id)

-- The assignments of items that are there, in lanes that are there.
unfoldable pub remap_assignments :
    List AllocationLane → List ℕ → List AllocationAssignment → List AllocationAssignment
remap_assignments expected ids [] = []
remap_assignments expected ids (a ∷ rows) =
    let rest = remap_assignments expected ids rows in
    if contains a.item_id ids
    then record { item_id = a.item_id; lane_id = remap_lane_id expected a.lane_id } ∷ rest
    else rest

-- The items without an assignment, as unassigned ones.
unfoldable pub assign_rest : List ℕ → List AllocationItem → List AllocationAssignment
assign_rest assigned [] = []
assign_rest assigned (item ∷ items) =
    let rest = assign_rest assigned items in
    if contains item.item_id assigned then rest else assign item unassigned ∷ rest

abbrev pub assigned_ids : List AllocationAssignment → List ℕ
assigned_ids = map (λ a. a.item_id)

unfoldable pub normalize_assignments :
    List AllocationLane
    → List AllocationItem
    → List AllocationAssignment
    → List AllocationAssignment
normalize_assignments expected items assignments =
    let kept = remap_assignments expected (item_ids items) assignments in
    kept ++ assign_rest (assigned_ids kept) items

unfoldable pub merged_workspace :
    AllocationWorkspace → ValidationPayload → ℕ → List AllocationLane → AllocationWorkspace
merged_workspace w p twin_version lanes = record {
  version = max w.version 1;
  twin_version = twin_version;
  generated_at = w.generated_at;
  items = w.items;
  lanes = lanes;
  assignments = normalize_assignments (lane_definitions_from_payload p) w.items w.assignments;
  warnings = w.warnings ++ warn_if (not (twin_version == w.twin_version)) twin_changed;
}

abbrev pub with_lanes :
    AllocationWorkspace
    → ValidationPayload
    → ℕ
    → Option (List AllocationLane)
    → Option AllocationWorkspace
with_lanes w p twin_version none = none
with_lanes w p twin_version (some lanes) = some (merged_workspace w p twin_version lanes)

abbrev pub merge_with :
    AllocationWorkspace → ValidationPayload → ℕ → Option Decimal → Option AllocationWorkspace
merge_with w p twin_version none = none
merge_with w p twin_version (some total) =
    with_lanes w p twin_version (merge_lanes total w.lanes (lane_definitions_from_payload p))

-- A workspace that is absent or does not meet the contract is `none` and is built anew. The result
-- `none` is `InvalidOperation`, of an amount that does not fit 28 digits in cents.
unfoldable pub reconcile_allocation_workspace :
    (ℕ → ℕ)
    → ℕ
    → ValidationPayload
    → Option AllocationWorkspace
    → Option (Option (List TwinItem))
    → ℕ
    → Option AllocationWorkspace
reconcile_allocation_workspace new_id now p none twin twin_version =
    some (build_initial_allocation_workspace new_id now p twin twin_version)
reconcile_allocation_workspace new_id now p (some w) twin twin_version =
    merge_with w p twin_version (quantize 2 p.total_amount)

pub cons_option-eq-some {ℓ} :
    {A : Type ℓ} (first : Option A) (rest : Option (List A)) {out : List A}
    → cons_option first rest ≡ some out
    → (a : A) × (more : List A) × (first ≡ some a) × (rest ≡ some more) × (out ≡ a ∷ more)
cons_option-eq-some none rest h = cc
cons_option-eq-some (some a) none h = cc
cons_option-eq-some (some a) (some more) h = (a, more, refl, refl, cc)
