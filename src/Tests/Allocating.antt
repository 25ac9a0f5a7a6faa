-- ===== src/Tests/Allocating.antt =====
-- An amount that is shared, and a workspace that follows its draft.
use ynab_receipt_analyzer.Prelude.{ℕ, ◌≡◌, refl, none, some, List, [], ◌∷◌, map, ap, arith, ◌≤◌}
use ynab_receipt_analyzer.Prelude.Int.{pos, abs, ◌+ℤ◌}
use ynab_receipt_analyzer.Money.Decimals.{
  Decimal, to_integral, quantize, rescale, sum_from, add, subtract,
}
use ynab_receipt_analyzer.Sync.Draft.{ValidationPayload, purchase}
use ynab_receipt_analyzer.Allocation.Workspace.{
  AllocationAssignment, AllocationItem, AllocationLane, AllocationWorkspace, LaneId, label_of,
  lane_definitions_from_payload, lane_of, main, primary_lanes, split, unassigned,
}
use ynab_receipt_analyzer.Allocation.Division.{
  half_even, digits_within, significant, multiply, divide,
}
use ynab_receipt_analyzer.Allocation.Shares.{
  cents, target_cents_of, weight_sum_of, sum_ℕ, largest_remainder_allocation, cent_shares,
  positive_shares, round_shares, raw_share, floor, slice_to, sort_fractions, insert_fraction,
  fractions_from, bump_each, bump,
}
use ynab_receipt_analyzer.Allocation.Quotients.{unit_limit}
use ynab_receipt_analyzer.Allocation.Weights.{units}
use ynab_receipt_analyzer.Allocation.Exact.{whole_shares}
use ynab_receipt_analyzer.Allocation.Raised.{IsRounding}
use ynab_receipt_analyzer.Allocation.Fair.{
  largest_remainder_allocation-sum, largest_remainder_allocation-IsRounding,
}
use ynab_receipt_analyzer.Allocation.Merge.{
  reconcile_allocation_workspace, merged_workspace, merge_lanes, merge_lane, preserved_pin,
  normalize_assignments, remap_assignments, remap_lane_id, assign_rest,
}
use ynab_receipt_analyzer.Allocation.Recompute.{
  Recomputed, stamped, suggested, recompute_payload_from_workspace, re_suggest, lane_weight,
  lane_total, next_splits, next_split, sort_indices, insert_index,
}
use ynab_receipt_analyzer.Allocation.Suggested.{splits_units, recompute_payload_from_workspace-sum}
use ynab_receipt_analyzer.Allocation.Placed.{IsPlaced, reconcile_allocation_workspace-IsPlaced}

-- 10.00, 5.5 and 0.25
abbrev weight : Decimal
weight = cents 1000

abbrev weights : List Decimal
weights = record { coef = pos 55; scale = 1 } ∷ cents 25 ∷ []

-- 7.83, 4.31 and 0.20 of 12.34
shares_of :
    map (units 2) (largest_remainder_allocation (cents 1234) (weight ∷ weights))
    ≡ 783 ∷ 431 ∷ 20 ∷ []
unfolding largest_remainder_allocation cent_shares positive_shares round_shares raw_share floor
    slice_to sort_fractions insert_fraction fractions_from bump_each bump half_even digits_within
    significant multiply divide to_integral rescale sum_from add subtract ◌+ℤ◌
shares_of = refl

target_cents : target_cents_of (cents 1234) ≡ pos 1234
unfolding to_integral rescale
target_cents = refl

weights_sum : weight_sum_of (weight ∷ weights) ≡ cents 1575
unfolding sum_from add ◌+ℤ◌
weights_sum = refl

weights_bound : abs (weight_sum_of (weight ∷ weights)).coef ≤ unit_limit
weights_bound = let same = ap (λ d. abs d.coef) weights_sum in omega arith

largest_remainder_allocation-sum_example :
    sum_ℕ (map (units 2) (largest_remainder_allocation (cents 1234) (weight ∷ weights))) ≡ 1234
largest_remainder_allocation-sum_example =
    largest_remainder_allocation-sum (cents 1234) weight weights 1234 target_cents
      (omega arith, weights_bound)

largest_remainder_allocation-IsRounding_example :
    IsRounding
      (whole_shares 1234 1575 (map (units 2) (weight ∷ weights)))
      (map (units 2) (largest_remainder_allocation (cents 1234) (weight ∷ weights)))
largest_remainder_allocation-IsRounding_example =
    largest_remainder_allocation-IsRounding (cents 1234) weight weights target_cents
      (omega arith, weights_bound)
      (weights_sum, (omega arith, (omega arith, (omega arith, tt))), refl) (omega arith)
      (omega arith)

-- A draft with one category, whose receipt was split before.
abbrev draft : ValidationPayload
draft = record {
  payee_name = [];
  account_id = some 1;
  transaction_date = some 20000;
  memo = [];
  total_amount = cents 1234;
  transaction_kind = purchase;
  category_id = some 7;
  splits = [];
}

abbrev item_at : ℕ → AllocationItem
item_at i = record {
  item_id = i;
  source_index = i;
  label = label_of [] i;
  amount = some (cents 617);
  tax_code = [];
  item_type = [];
}

abbrev assigned_to : ℕ → LaneId → AllocationAssignment
assigned_to i lane = record { item_id = i; lane_id = lane }

abbrev saved : AllocationWorkspace
saved = record {
  version = 3;
  twin_version = 1;
  generated_at = 0;
  items = item_at 1 ∷ item_at 2 ∷ item_at 3 ∷ [];
  lanes =
      lane_of (split 0) (some 7) none
      ∷ lane_of (split 1) (some 8) none
      ∷ lane_of unassigned none none
      ∷ [];
  assignments = assigned_to 1 (split 0) ∷ assigned_to 2 (split 1) ∷ assigned_to 9 (split 0) ∷ [];
  warnings = [];
}

-- The first lane's item follows to the main lane; the other split's and the new one are unassigned.
reconciled_assignments :
    (merged_workspace saved draft 1 []).assignments
    ≡ (assigned_to 1 main ∷ assigned_to 2 unassigned ∷ assigned_to 3 unassigned ∷ [])
unfolding merged_workspace normalize_assignments remap_assignments remap_lane_id assign_rest
    lane_definitions_from_payload primary_lanes
reconciled_assignments = refl

reconciled :
    reconcile_allocation_workspace (λ i. i) 0 draft (some saved) none 1
    ≡ some (
        merged_workspace saved draft 1
          (lane_of main (some 7) (some (cents 1234)) ∷ lane_of unassigned none none ∷ []))
unfolding reconcile_allocation_workspace quantize rescale merge_lanes merge_lane preserved_pin
    lane_definitions_from_payload primary_lanes
reconciled = refl

reconcile_allocation_workspace-IsPlaced_example :
    (IsPlaced (
      merged_workspace saved draft 1
        (lane_of main (some 7) (some (cents 1234)) ∷ lane_of unassigned none none ∷ [])))
reconcile_allocation_workspace-IsPlaced_example =
    reconcile_allocation_workspace-IsPlaced (λ i. i) 0 draft (some saved) none 1 reconciled

abbrev split_lanes_of : List AllocationLane
split_lanes_of =
    lane_of (split 0) (some 7) none
    ∷ lane_of (split 1) none none
    ∷ lane_of unassigned none none
    ∷ []

abbrev shared_out : Recomputed
shared_out = record {
  category_id = none;
  splits =
      record { category_id = some 7; amount = cents 617; memo = [] }
      ∷ record { category_id = none; amount = cents 617; memo = [] }
      ∷ [];
  workspace = stamped 5 (record saved { lanes = split_lanes_of }) [];
  warnings = [];
}

recomputed :
    recompute_payload_from_workspace suggested 5 draft (record saved { lanes = split_lanes_of })
    ≡ some shared_out
unfolding recompute_payload_from_workspace re_suggest lane_weight lane_total next_splits next_split
    sort_indices insert_index quantize largest_remainder_allocation cent_shares positive_shares
    round_shares raw_share floor slice_to sort_fractions insert_fraction fractions_from bump_each
    bump half_even digits_within significant multiply divide to_integral rescale sum_from add
    subtract ◌+ℤ◌
recomputed = refl

lane_weights_bound :
    abs
      (weight_sum_of
        (map (lane_weight (record saved { lanes = split_lanes_of })) (map split (0 ∷ 1 ∷ [])))).coef
    ≤ unit_limit
unfolding lane_weight lane_total sum_from add ◌+ℤ◌
lane_weights_bound = omega arith

draft_total : quantize 2 draft.total_amount ≡ some (cents 1234)
unfolding quantize rescale
draft_total = refl

recompute_payload_from_workspace-sum_example : splits_units shared_out.splits ≡ 1234
recompute_payload_from_workspace-sum_example =
    recompute_payload_from_workspace-sum 5 draft (record saved { lanes = split_lanes_of }) 0 1234
      (1 ∷ []) (cents 1234) refl (refl, (refl, tt)) draft_total target_cents
      (omega arith, lane_weights_bound) recomputed
