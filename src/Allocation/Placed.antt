-- ===== src/Allocation/Placed.antt =====
-- The assignments of `build_initial_allocation_workspace` and `reconcile_allocation_workspace`
-- (apps/server/backend/app/services/allocation_workspace.py).
use ynab_receipt_analyzer.Prelude.{
  ℕ, ◌≡◌, refl, sym, ◌∙◌, arith, Bool, true, false, ◌||◌, Option, none, some, List, [], ◌∷◌,
  contains, keep, Bool-cases, inl, inr, any-append,
}
use ynab_receipt_analyzer.Money.Decimals.{Decimal, quantize}
use ynab_receipt_analyzer.Sync.Draft.{ValidationPayload}
use ynab_receipt_analyzer.Allocation.Workspace.{
  LaneId, main, unassigned, split, other, lane_eq, lane_of, AllocationItem, AllocationLane,
  AllocationAssignment, AllocationWorkspace, TwinItem, lane_definitions_from_payload,
  is_primary_lane_id, primary_lanes,
}
use ynab_receipt_analyzer.Allocation.Greedy.{
  is_assignable, greedy_assign_items, build_initial_allocation_workspace,
}
use ynab_receipt_analyzer.Allocation.Assigned.{
  greedy_assign_items-contains, normalize_assignments-contains,
}
use ynab_receipt_analyzer.Allocation.Lanes.{
  AllPass, AllGo, greedy_over-AllGo, AllPass-keep, primary_lane_id-Passes, AllGo-append,
}
use ynab_receipt_analyzer.Allocation.Merge.{
  item_ids, assigned_ids, has_lane, remap_lane_id, remap_assignments, assign_rest,
  normalize_assignments, merge_lane, merge_lanes, with_pin, cons_option-eq-some,
  reconcile_allocation_workspace, lane_after, merge_with, with_lanes, merged_workspace,
}

lane_eq_self : (id : LaneId) → lane_eq id id ≡ true
lane_eq_self main = refl
lane_eq_self unassigned = refl
lane_eq_self (split i) = ground arith
lane_eq_self (other i) = ground arith

AllPass-weaken :
    (lane : AllocationLane) (more lanes : List AllocationLane)
    → AllPass (λ id. has_lane id more) lanes
    → AllPass (λ id. has_lane id (lane ∷ more)) lanes
AllPass-weaken lane more [] h = tt
AllPass-weaken lane more (next ∷ lanes) (h, k) = (ground arith, AllPass-weaken lane more lanes k)

-- Every lane is among the lanes.
lanes-AllPass : (lanes : List AllocationLane) → AllPass (λ id. has_lane id lanes) lanes
lanes-AllPass [] = tt
lanes-AllPass (lane ∷ lanes) =
    let here = lane_eq_self lane.lane_id in
    (ground arith, AllPass-weaken lane lanes lanes (lanes-AllPass lanes))

or_true : (b c : Bool) → c ≡ true → (b || c) ≡ true
or_true true c h = refl
or_true false c h = h

has_lane-unassigned :
    (p : ValidationPayload) → has_lane unassigned (lane_definitions_from_payload p) ≡ true
unfolding lane_definitions_from_payload
has_lane-unassigned p =
    any-append (λ lane. lane_eq lane.lane_id unassigned) (primary_lanes p p.splits)
      (lane_of unassigned none none ∷ [])
    ∙ or_true _ _ refl

remap_lane_id-There :
    (expected : List AllocationLane) (id : LaneId)
    → has_lane unassigned expected ≡ true
    → has_lane (remap_lane_id expected id) expected ≡ true
unfolding remap_lane_id
remap_lane_id-There expected id h =
    let first =
      primary_lane_id-Passes (λ i. has_lane i expected) expected h (lanes-AllPass expected) in
    elim (Bool-cases (has_lane id expected)) [
      | inl e ↦ simp e refl
      | inr e ↦ elim (Bool-cases (is_primary_lane_id id)) [
        | inl f ↦ simp (e, f) first
        | inr f ↦ simp (e, f) h
      ]
    ]

remap_assignments-AllGo :
    (expected : List AllocationLane) (ids : List ℕ) (rows : List AllocationAssignment)
    → has_lane unassigned expected ≡ true
    → AllGo (λ id. has_lane id expected) (remap_assignments expected ids rows)
unfolding remap_assignments
remap_assignments-AllGo expected ids [] h = tt
remap_assignments-AllGo expected ids (a ∷ rows) h =
    let rest = remap_assignments-AllGo expected ids rows h in
    elim (Bool-cases (contains a.item_id ids)) [
      | inl e ↦ simp e (remap_lane_id-There expected a.lane_id h, rest)
      | inr e ↦ simp e rest
    ]

assign_rest-AllGo :
    (expected : List AllocationLane) (assigned : List ℕ) (items : List AllocationItem)
    → has_lane unassigned expected ≡ true
    → AllGo (λ id. has_lane id expected) (assign_rest assigned items)
unfolding assign_rest
assign_rest-AllGo expected assigned [] h = tt
assign_rest-AllGo expected assigned (item ∷ items) h =
    let rest = assign_rest-AllGo expected assigned items h in
    elim (Bool-cases (contains item.item_id assigned)) [
      | inl e ↦ simp e rest
      | inr e ↦ simp e (h, rest)
    ]

normalize_assignments-AllGo :
    (expected : List AllocationLane) (items : List AllocationItem)
    (rows : List AllocationAssignment)
    → has_lane unassigned expected ≡ true
    → AllGo (λ id. has_lane id expected) (normalize_assignments expected items rows)
unfolding normalize_assignments
normalize_assignments-AllGo expected items rows h =
    AllGo-append (λ id. has_lane id expected) (remap_assignments expected (item_ids items) rows) _
      (remap_assignments-AllGo expected (item_ids items) rows h)
      (assign_rest-AllGo expected _ items h)

-- The items of the assignments are the workspace's, and so are their lanes.
abbrev pub IsPlaced : AllocationWorkspace → Type 0
IsPlaced w =
    ((x : ℕ) → contains x (assigned_ids w.assignments) ≡ contains x (item_ids w.items))
    × AllGo (λ id. has_lane id w.lanes) w.assignments

greedy_assign_items-AllGo :
    (items : List AllocationItem) (lanes : List AllocationLane)
    → has_lane unassigned lanes ≡ true
    → AllGo (λ id. has_lane id lanes) (greedy_assign_items items lanes)
unfolding greedy_assign_items
greedy_assign_items-AllGo items lanes h =
    greedy_over-AllGo (λ id. has_lane id lanes) items (keep is_assignable lanes) h
      (AllPass-keep (λ id. has_lane id lanes) is_assignable lanes (lanes-AllPass lanes))

build_initial-IsPlaced :
    (new_id : ℕ → ℕ) (now : ℕ) (p : ValidationPayload) (twin : Option (Option (List TwinItem)))
    (twin_version : ℕ)
    → IsPlaced (build_initial_allocation_workspace new_id now p twin twin_version)
unfolding build_initial_allocation_workspace
build_initial-IsPlaced new_id now p twin twin_version =
    let lanes = lane_definitions_from_payload p in
    (
      λ x. greedy_assign_items-contains x _ lanes,
      greedy_assign_items-AllGo _ lanes (has_lane-unassigned p),
    )

with_pin-lane :
    (lane : AllocationLane) (pin : Option (Option Decimal)) {out : AllocationLane}
    → with_pin lane pin ≡ some out
    → out.lane_id ≡ lane.lane_id
with_pin-lane lane none h = cc
with_pin-lane lane (some pin) h = ground arith

merge_lane-lane :
    (total : Decimal) (lane : AllocationLane) (found : Option AllocationLane) {out : AllocationLane}
    → merge_lane total lane found ≡ some out
    → out.lane_id ≡ lane.lane_id
unfolding merge_lane
merge_lane-lane total lane none h = ground arith
merge_lane-lane total lane (some existing) h = with_pin-lane lane _ h

-- The merged lanes have the identifiers of the expected ones.
merge_lanes-lanes :
    (id : LaneId) (total : Decimal) (existing lanes : List AllocationLane)
    {out : List AllocationLane}
    → merge_lanes total existing lanes ≡ some out
    → has_lane id out ≡ has_lane id lanes
unfolding merge_lanes
merge_lanes-lanes id total existing [] h = ground arith
merge_lanes-lanes id total existing (lane ∷ lanes) h =
    let found = lane_after lane.lane_id none existing in
    let (merged, more, e, f, g) =
      cons_option-eq-some (merge_lane total lane found) (merge_lanes total existing lanes) h in
    let same = merge_lane-lane total lane found e in
    rw (g, same, merge_lanes-lanes id total existing lanes f) refl

AllGo-map :
    (P Q : LaneId → Bool) (rows : List AllocationAssignment)
    → ((id : LaneId) → P id ≡ Q id)
    → AllGo P rows
    → AllGo Q rows
AllGo-map P Q [] h k = tt
AllGo-map P Q (a ∷ rows) h (k, l) = (sym (h a.lane_id) ∙ k, AllGo-map P Q rows h l)

merged_workspace-IsPlaced :
    (w : AllocationWorkspace) (p : ValidationPayload) (twin_version : ℕ) (total : Decimal)
    (lanes : List AllocationLane)
    → merge_lanes total w.lanes (lane_definitions_from_payload p) ≡ some lanes
    → IsPlaced (merged_workspace w p twin_version lanes)
unfolding merged_workspace
merged_workspace-IsPlaced w p twin_version total lanes e =
    let expected = lane_definitions_from_payload p in
    (
      λ x. normalize_assignments-contains x expected w.items w.assignments,
      AllGo-map (λ id. has_lane id expected) (λ id. has_lane id lanes) _
          (λ id. sym (merge_lanes-lanes id total w.lanes expected e))
          (normalize_assignments-AllGo expected w.items w.assignments (has_lane-unassigned p)),
    )

with_lanes-IsPlaced :
    (w : AllocationWorkspace) (p : ValidationPayload) (twin_version : ℕ) (total : Decimal)
    (found : Option (List AllocationLane)) {out : AllocationWorkspace}
    → merge_lanes total w.lanes (lane_definitions_from_payload p) ≡ found
    → with_lanes w p twin_version found ≡ some out
    → IsPlaced out
with_lanes-IsPlaced w p twin_version total none e h = cc
with_lanes-IsPlaced w p twin_version total (some lanes) {out = out} e h =
    let same : out ≡ merged_workspace w p twin_version lanes = cc in
    rw same (merged_workspace-IsPlaced w p twin_version total lanes e)

merge_with-IsPlaced :
    (w : AllocationWorkspace) (p : ValidationPayload) (twin_version : ℕ) (total : Option Decimal)
    {out : AllocationWorkspace}
    → merge_with w p twin_version total ≡ some out
    → IsPlaced out
merge_with-IsPlaced w p twin_version none h = cc
merge_with-IsPlaced w p twin_version (some total) h =
    with_lanes-IsPlaced w p twin_version total _ refl h

-- A workspace that is built or reconciled assigns just its own items, each at least once, and only to
-- its own lanes, whatever the saved one, the draft and the twin were.
pub reconcile_allocation_workspace-IsPlaced :
    (new_id : ℕ → ℕ) (now : ℕ) (p : ValidationPayload) (saved : Option AllocationWorkspace)
    (twin : Option (Option (List TwinItem))) (twin_version : ℕ) {out : AllocationWorkspace}
    → reconcile_allocation_workspace new_id now p saved twin twin_version ≡ some out
    → IsPlaced out
unfolding reconcile_allocation_workspace
reconcile_allocation_workspace-IsPlaced new_id now p none twin twin_version {out = out} h =
    let same : out ≡ build_initial_allocation_workspace new_id now p twin twin_version = cc in
    rw same (build_initial-IsPlaced new_id now p twin twin_version)
reconcile_allocation_workspace-IsPlaced new_id now p (some w) twin twin_version h =
    merge_with-IsPlaced w p twin_version (quantize 2 p.total_amount) h
