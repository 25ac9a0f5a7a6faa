-- ===== src/Allocation/Lanes.antt =====
-- The lanes that assignments name (`reconcile_allocation_workspace` of
-- apps/server/backend/app/services/allocation_workspace.py).
use ynab_receipt_analyzer.Prelude.{
  ◌≡◌, arith, Bool, true, false, not, List, [], ◌∷◌, ◌++◌, if◌then◌else◌, map, keep, is_some, All,
  Bool-cases, inl, inr,
}
use ynab_receipt_analyzer.Money.Decimals.{Decimal, less}
use ynab_receipt_analyzer.Allocation.Workspace.{
  LaneId, unassigned, lane_eq, AllocationItem, AllocationLane, AllocationAssignment,
}
use ynab_receipt_analyzer.Allocation.Greedy.{
  assign_all, assign_single, LaneLoad, load_of, sort_items, best_lane, add_running, assign_known,
  greedy_over, score, magnitude_or_zero,
}
use ynab_receipt_analyzer.Allocation.Merge.{primary_lane_id}

-- A test that every lane of a list passes.
abbrev pub AllPass : (LaneId → Bool) → List AllocationLane → Type 0
AllPass P = All (λ lane. P lane.lane_id ≡ true)

abbrev pub AllGo : (LaneId → Bool) → List AllocationAssignment → Type 0
AllGo P = All (λ a. P a.lane_id ≡ true)

module _ (P : LaneId → Bool) where
  best_lane-Passes :
      (m : Decimal) (best : LaneLoad) (loads : List LaneLoad)
      → P best.lane_id ≡ true
      → All (λ load. P load.lane_id ≡ true) loads
      → P (best_lane m best loads) ≡ true
  unfolding best_lane
  best_lane-Passes m best [] h k = h
  best_lane-Passes m best (load ∷ loads) h (k, l) =
      elim (Bool-cases (less (score m load) (score m best))) [
        | inl e ↦ simp e (best_lane-Passes m load loads k l)
        | inr e ↦ simp e (best_lane-Passes m best loads h l)
      ]

  add_running-Passes :
      (id : LaneId) (m : Decimal) (load : LaneLoad)
      → P load.lane_id ≡ true
      → P (add_running id m load).lane_id ≡ true
  add_running-Passes id m load h = ground arith

  add_running-AllPass :
      (id : LaneId) (m : Decimal) (loads : List LaneLoad)
      → All (λ load. P load.lane_id ≡ true) loads
      → All (λ load. P load.lane_id ≡ true) (map (add_running id m) loads)
  add_running-AllPass id m [] h = tt
  add_running-AllPass id m (load ∷ loads) (h, k) =
      (add_running-Passes id m load h, add_running-AllPass id m loads k)

  assign_known-AllGo :
      (items : List AllocationItem) (first : LaneLoad) (loads : List LaneLoad)
      → P first.lane_id ≡ true
      → All (λ load. P load.lane_id ≡ true) loads
      → AllGo P (assign_known first loads items)
  unfolding assign_known
  assign_known-AllGo [] first loads h k = tt
  assign_known-AllGo (item ∷ items) first loads h k = (
    best_lane-Passes (magnitude_or_zero item.amount) first loads h k,
    assign_known-AllGo items _ _ (add_running-Passes _ (magnitude_or_zero item.amount) first h)
        (add_running-AllPass _ (magnitude_or_zero item.amount) loads k),
  )

  assign_all-AllGo :
      (id : LaneId) (items : List AllocationItem) → P id ≡ true → AllGo P (assign_all id items)
  assign_all-AllGo id [] h = tt
  assign_all-AllGo id (item ∷ items) h = (h, assign_all-AllGo id items h)

  single_lane-Passes :
      (b : Bool) (id : LaneId)
      → P id ≡ true
      → P unassigned ≡ true
      → P (if b then id else unassigned) ≡ true
  single_lane-Passes true id h k = h
  single_lane-Passes false id h k = k

  assign_single-AllGo :
      (id : LaneId) (items : List AllocationItem)
      → P id ≡ true
      → P unassigned ≡ true
      → AllGo P (map (assign_single id) items)
  assign_single-AllGo id [] h k = tt
  assign_single-AllGo id (item ∷ items) h k =
      (single_lane-Passes (is_some item.amount) id h k, assign_single-AllGo id items h k)

  pub AllGo-append :
      (rows more : List AllocationAssignment) → AllGo P rows → AllGo P more → AllGo P (rows ++ more)
  AllGo-append [] more h k = k
  AllGo-append (a ∷ rows) more (h, l) k = (h, AllGo-append rows more l k)

  loads-AllPass :
      (lanes : List AllocationLane)
      → AllPass P lanes
      → All (λ load. P load.lane_id ≡ true) (map load_of lanes)
  loads-AllPass [] h = tt
  loads-AllPass (lane ∷ lanes) (h, k) = (h, loads-AllPass lanes k)

  pub greedy_over-AllGo :
      (items : List AllocationItem) (lanes : List AllocationLane)
      → P unassigned ≡ true
      → AllPass P lanes
      → AllGo P (greedy_over items lanes)
  unfolding greedy_over
  greedy_over-AllGo items [] h k = assign_all-AllGo unassigned items h
  greedy_over-AllGo items (lane ∷ []) h (k, l) = assign_single-AllGo lane.lane_id items k h
  greedy_over-AllGo items (lane ∷ next ∷ lanes) h (k, l) =
      AllGo-append
        (assign_known (load_of lane) (map load_of (next ∷ lanes))
          (sort_items (keep (λ item. is_some item.amount) items)))
        _
        (assign_known-AllGo _ (load_of lane) (map load_of (next ∷ lanes)) k
          (loads-AllPass (next ∷ lanes) l))
        (assign_all-AllGo unassigned (keep (λ item. not (is_some item.amount)) items) h)

  pub AllPass-keep :
      (q : AllocationLane → Bool) (lanes : List AllocationLane)
      → AllPass P lanes
      → AllPass P (keep q lanes)
  AllPass-keep q [] h = tt
  AllPass-keep q (lane ∷ lanes) (h, k) =
      let rest = AllPass-keep q lanes k in
      elim (Bool-cases (q lane)) [ inl e ↦ simp e (h, rest) | inr e ↦ simp e rest ]

  pub primary_lane_id-Passes :
      (lanes : List AllocationLane)
      → P unassigned ≡ true
      → AllPass P lanes
      → P (primary_lane_id lanes) ≡ true
  primary_lane_id-Passes [] h k = h
  primary_lane_id-Passes (lane ∷ lanes) h (k, l) =
      let rest = primary_lane_id-Passes lanes h l in
      elim (Bool-cases (lane_eq lane.lane_id unassigned)) [ inl e ↦ simp e rest | inr e ↦ simp e k ]
