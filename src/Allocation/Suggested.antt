-- ===== src/Allocation/Suggested.antt =====
-- The splits of `recompute_payload_from_workspace`
-- (apps/server/backend/app/services/allocation_workspace.py).
use ynab_receipt_analyzer.Prelude.{
  ℕ, ◌+◌, ◌≤◌, ◌≡◌, refl, sym, ap, ◌∙◌, arith, true, false, Option, none, some, List, [], ◌∷◌, ◌==◌,
  map, contains, Bool-cases, inl, inr, length, ltb, ◌/◌,
}
use ynab_receipt_analyzer.Prelude.Int.{ℤ, pos, negsuc}
use ynab_receipt_analyzer.Money.Decimals.{Decimal, quantize, rescale, integral, less, magnitude}
use ynab_receipt_analyzer.Sync.Draft.{ValidationPayload}
use ynab_receipt_analyzer.Allocation.Shares.{
  sum_ℕ, cents, target_cents_of, cent_shares, largest_remainder_allocation, positive_shares,
  round_shares, equal_shares, weight_sum_of, floor, raw_share,
}
use ynab_receipt_analyzer.Allocation.Weights.{units}
use ynab_receipt_analyzer.Allocation.Exact.{IsShared, length-map}
use ynab_receipt_analyzer.Allocation.Fair.{cent_shares-positive}
use ynab_receipt_analyzer.Allocation.Raised.{length-bump_each}
use ynab_receipt_analyzer.Allocation.Workspace.{split, AllocationWorkspace, Warning}
use ynab_receipt_analyzer.Allocation.Merge.{cons_option-eq-some}
use ynab_receipt_analyzer.Allocation.Recompute.{
  LaneAmounts, amount_after, distribute, insert_index, sort_indices, split_indices, next_split,
  next_splits, with_amount, NextSplit, Recomputed, re_suggest, lane_weight, suggested,
  recompute_payload_from_workspace, assignable_ids, split_result, recomputed_for, recompute_over,
}

-- No two of the numbers agree.
abbrev pub AllDistinct : List ℕ → Type 0
AllDistinct [] = Unit
AllDistinct (i ∷ is) = (contains i is ≡ false) × AllDistinct is

sum-insert :
    (F : ℕ → ℕ) (i : ℕ) (is : List ℕ) → sum_ℕ (map F (insert_index i is)) ≡ F i + sum_ℕ (map F is)
unfolding insert_index
sum-insert F i [] = refl
sum-insert F i (next ∷ is) = ground (arith, sum-insert F i is)

sum-sort : (F : ℕ → ℕ) (is : List ℕ) → sum_ℕ (map F (sort_indices is)) ≡ sum_ℕ (map F is)
unfolding sort_indices
sum-sort F [] = refl
sum-sort F (i ∷ is) = omega (arith, sum-insert F i (sort_indices is), sum-sort F is)

abbrev pub splits_units : List NextSplit → ℕ
splits_units splits = sum_ℕ (map (λ s. units 2 s.amount) splits)

quantized :
    (c : ℤ) (s : ℕ) {x : Decimal}
    → s ≤ 2
    → quantize 2 (record { coef = c; scale = s }) ≡ some x
    → units 2 x ≡ units 2 (record { coef = c; scale = s })
unfolding quantize rescale
quantized (pos n) s h e = ground arith
quantized (negsuc n) s h e = ground arith

-- The amount that a lane gets.
abbrev amount_at : LaneAmounts → ℕ → Decimal
amount_at amounts i = amount_after (split i) (integral 0) amounts

with_amount-units :
    (category : Option ℕ) (memo : List ℕ) (found : Option Decimal) (n : ℕ) {out : NextSplit}
    → ((x : Decimal) → found ≡ some x → units 2 x ≡ n)
    → with_amount category memo found ≡ some out
    → units 2 out.amount ≡ n
with_amount-units category memo none n h e = cc
with_amount-units category memo (some amount) n h e = let same = h amount refl in ground arith

next_splits-units :
    (p : ValidationPayload) (w : AllocationWorkspace) (amounts : LaneAmounts) (is : List ℕ)
    {out : List NextSplit}
    → ((i : ℕ) → (amount_at amounts i).scale ≤ 2)
    → next_splits p w amounts is ≡ some out
    → splits_units out ≡ sum_ℕ (map (λ i. units 2 (amount_at amounts i)) is)
unfolding next_splits next_split
next_splits-units p w amounts [] h e = ground arith
next_splits-units p w amounts (i ∷ is) h e =
    let (s, more, first, rest, whole) =
      cons_option-eq-some (next_split p w amounts i) (next_splits p w amounts is) e in
    let d = amount_at amounts i in
    let here =
      with_amount-units _ _ (quantize 2 d) (units 2 d) (λ x k. quantized d.coef d.scale (h i) k)
        first in
    let later = next_splits-units p w amounts is h rest in rw whole (omega arith)

amount_after_missing :
    (k : ℕ) (found : Decimal) (is : List ℕ) (ds : List Decimal)
    → contains k is ≡ false
    → amount_after (split k) found (distribute (map split is) ds) ≡ found
amount_after_missing k found [] ds h = refl
amount_after_missing k found (i ∷ is) [] h = refl
amount_after_missing k found (i ∷ is) (d ∷ ds) h =
    let other_lane : (i == k) ≡ false = ground arith in
    simp other_lane (amount_after_missing k found is ds (ground arith))

amount_after-scale :
    (k : ℕ) (found : Decimal) (is ns : List ℕ)
    → found.scale ≤ 2
    → (amount_after (split k) found (distribute (map split is) (map cents ns))).scale ≤ 2
amount_after-scale k found [] ns h = h
amount_after-scale k found (i ∷ is) [] h = h
amount_after-scale k found (i ∷ is) (n ∷ ns) h =
    let rest = amount_after-scale k found is ns h in
    let fresh = amount_after-scale k (cents n) is ns (omega arith) in
    elim (Bool-cases (i == k)) [ inl e ↦ simp e fresh | inr e ↦ simp e rest ]

sum_skip :
    (i n : ℕ) (js is ns : List ℕ)
    → contains i js ≡ false
    → sum_ℕ
        (map (λ k. units 2 (amount_at (distribute (map split (i ∷ is)) (map cents (n ∷ ns))) k)) js)
      ≡ sum_ℕ (map (λ k. units 2 (amount_at (distribute (map split is) (map cents ns)) k)) js)
sum_skip i n [] is ns h = refl
sum_skip i n (j ∷ js) is ns h =
    let other_lane : (i == j) ≡ false = ground arith in
    let rest = sum_skip i n js is ns (ground arith) in simp other_lane (omega arith)

sum-distribute :
    (is ns : List ℕ)
    → AllDistinct is
    → length ns ≡ length is
    → sum_ℕ (map (λ k. units 2 (amount_at (distribute (map split is) (map cents ns)) k)) is)
      ≡ sum_ℕ ns
sum-distribute [] [] h e = refl
sum-distribute [] (n ∷ ns) h e = omega arith
sum-distribute (i ∷ is) [] h e = omega arith
sum-distribute (i ∷ is) (n ∷ ns) (fresh, h) e =
    let here : (i == i) ≡ true = ground arith in
    let first = amount_after_missing i (cents n) is (map cents ns) fresh in
    let rest = sum-distribute is ns h (omega arith) in
    let skipped = sum_skip i n is is ns fresh in
    let all = distribute (map split (i ∷ is)) (map cents (n ∷ ns)) in
    let head : amount_at all i ≡ cents n = simp here first in
    let whole = ap (units 2) head in omega arith

length-round_shares :
    (n : ℕ) (shares : List Decimal) → length (round_shares n shares) ≡ length shares
unfolding round_shares
length-round_shares n shares = length-bump_each _ (map floor shares) ∙ length-map floor shares

length-equal_shares : (n : ℕ) (ws : List Decimal) → length (equal_shares n ws) ≡ length ws
unfolding equal_shares
length-equal_shares n ws =
    length-bump_each _ (map (λ weight. n / length ws) ws) ∙ length-map (λ weight. n / length ws) ws

length-positive_shares : (n : ℕ) (ws : List Decimal) → length (positive_shares n ws) ≡ length ws
unfolding positive_shares
length-positive_shares n ws = elim (Bool-cases (less (integral 0) (weight_sum_of ws))) [
  | inl e ↦ simp e (
      length-round_shares n _
      ∙ length-map (raw_share n (weight_sum_of ws)) (map magnitude ws)
      ∙ length-map magnitude ws)
  | inr e ↦ simp e (length-equal_shares n ws)
]

length-cent_shares : (n : ℕ) (ws : List Decimal) → length (cent_shares (pos n) ws) ≡ length ws
unfolding cent_shares
length-cent_shares n ws = elim (Bool-cases (ltb 0 n)) [
  | inl e ↦ simp e (length-positive_shares n ws)
  | inr e ↦ simp e (length-map (λ weight. 0) ws)
]

split_indices-split : (is : List ℕ) → split_indices (map split is) ≡ is
split_indices-split [] = refl
split_indices-split (i ∷ is) = ap (λ js. i ∷ js) (split_indices-split is)

split_result-splits :
    (now : ℕ) (w : AllocationWorkspace) (warnings : List Warning) (found : Option (List NextSplit))
    {out : Recomputed}
    → split_result now w warnings found ≡ some out
    → found ≡ some out.splits
split_result-splits now w warnings none h = cc
split_result-splits now w warnings (some splits) h = ground arith

-- The amounts that the split lanes get, when they are the shares `ns`.
shared_splits :
    (p : ValidationPayload) (w : AllocationWorkspace) (is ns : List ℕ) {out : List NextSplit}
    → AllDistinct is
    → length ns ≡ length is
    → next_splits p w (distribute (map split is) (map cents ns)) (sort_indices is) ≡ some out
    → splits_units out ≡ sum_ℕ ns
shared_splits p w is ns h e done =
    let amounts = distribute (map split is) (map cents ns) in
    next_splits-units p w amounts (sort_indices is)
      (λ i. amount_after-scale i (integral 0) is ns (omega arith)) done
    ∙ sum-sort (λ i. units 2 (amount_at amounts i)) is
    ∙ sum-distribute is ns h e

suggested_splits :
    (p : ValidationPayload) (w : AllocationWorkspace) (i n : ℕ) (is : List ℕ) (total : Decimal)
    {out : List NextSplit}
    → AllDistinct (i ∷ is)
    → target_cents_of total ≡ pos n
    → IsShared n (map (lane_weight w) (map split (i ∷ is)))
    → next_splits p w (re_suggest w (map split (i ∷ is)) total) (sort_indices (i ∷ is)) ≡ some out
    → splits_units out ≡ n
unfolding re_suggest largest_remainder_allocation
suggested_splits p w i n is total h e shared done =
    let weights = map (lane_weight w) (map split (i ∷ is)) in
    let size =
      ap (λ c. length (cent_shares c weights)) e
      ∙ length-cent_shares n weights
      ∙ length-map (lane_weight w) (map split (i ∷ is))
      ∙ length-map split (i ∷ is) in
    shared_splits p w (i ∷ is) (cent_shares (target_cents_of total) weights) h size done
    ∙ ap (λ c. sum_ℕ (cent_shares c weights)) e
    ∙ cent_shares-positive n _ _ shared

recompute_for_splits :
    (now : ℕ) (p : ValidationPayload) (w : AllocationWorkspace) (i n : ℕ) (is : List ℕ)
    (total : Decimal) {out : Recomputed}
    → AllDistinct (i ∷ is)
    → target_cents_of total ≡ pos n
    → IsShared n (map (lane_weight w) (map split (i ∷ is)))
    → recomputed_for suggested now p w (map split (i ∷ is)) (some total) ≡ some out
    → splits_units out.splits ≡ n
recompute_for_splits now p w i n is total h e shared done =
    let same = split_indices-split is in
    let ready = (simp same at done) in
    suggested_splits p w i n is total h e shared (split_result-splits now w _ _ ready)

-- Where all lanes but the unassigned one are splits, of different numbers, the splits of a draft that is
-- recomputed anew add up to its total, `n` cents (below 10 ^ 14), whatever the items, the assignments
-- and the pins are; the weights of the lanes must sum to at most 10 ^ 14 units of their last digit.
pub recompute_payload_from_workspace-sum :
    (now : ℕ) (p : ValidationPayload) (w : AllocationWorkspace) (i n : ℕ) (is : List ℕ)
    (total : Decimal) {out : Recomputed}
    → assignable_ids w.lanes ≡ map split (i ∷ is)
    → AllDistinct (i ∷ is)
    → quantize 2 p.total_amount ≡ some total
    → target_cents_of total ≡ pos n
    → IsShared n (map (lane_weight w) (map split (i ∷ is)))
    → recompute_payload_from_workspace suggested now p w ≡ some out
    → splits_units out.splits ≡ n
unfolding recompute_payload_from_workspace
recompute_payload_from_workspace-sum now p w i n is total lanes h q e shared done =
    let over = sym (ap (recompute_over suggested now p w) lanes) ∙ done in
    let for = sym (ap (recomputed_for suggested now p w (map split (i ∷ is))) q) ∙ over in
    recompute_for_splits now p w i n is total h e shared for
