-- ===== src/Allocation/Assigned.antt =====
-- The lanes of the first assignment (`_greedy_assign_items` of
-- apps/server/backend/app/services/allocation_workspace.py).
use ynab_receipt_analyzer.Prelude.{
  ℕ, ◌≡◌, refl, ap, arith, Bool, true, not, ◌&&◌, ◌||◌, List, [], ◌∷◌, ◌++◌, ◌==◌, map, contains,
  keep, is_some,
}
use ynab_receipt_analyzer.Allocation.Workspace.{
  LaneId, unassigned, AllocationItem, AllocationLane, AllocationAssignment,
}
use ynab_receipt_analyzer.Allocation.Greedy.{
  assign_all, is_assignable, assign_single, LaneLoad, load_of, insert_item, sort_items,
  assign_known, greedy_over, greedy_assign_items,
}
use ynab_receipt_analyzer.Allocation.Merge.{
  item_ids, assigned_ids, remap_assignments, assign_rest, normalize_assignments,
}

contains-append :
    (x : ℕ) (xs ys : List ℕ) → contains x (xs ++ ys) ≡ (contains x xs || contains x ys)
contains-append x [] ys = refl
contains-append x (y ∷ xs) ys = ground (arith, contains-append x xs ys)

assigned_ids-append :
    (rows bs : List AllocationAssignment)
    → assigned_ids (rows ++ bs) ≡ assigned_ids rows ++ assigned_ids bs
assigned_ids-append [] bs = refl
assigned_ids-append (a ∷ rows) bs = ap (λ ids. a.item_id ∷ ids) (assigned_ids-append rows bs)

-- The items of the assignments, and where each goes.
assigned_ids-all :
    (id : LaneId) (items : List AllocationItem)
    → assigned_ids (assign_all id items) ≡ item_ids items
assigned_ids-all id [] = refl
assigned_ids-all id (item ∷ items) = ap (λ ids. item.item_id ∷ ids) (assigned_ids-all id items)

assigned_ids-single :
    (id : LaneId) (items : List AllocationItem)
    → assigned_ids (map (assign_single id) items) ≡ item_ids items
assigned_ids-single id [] = refl
assigned_ids-single id (item ∷ items) =
    ap (λ ids. item.item_id ∷ ids) (assigned_ids-single id items)

assigned_ids-known :
    (items : List AllocationItem) (first : LaneLoad) (loads : List LaneLoad)
    → assigned_ids (assign_known first loads items) ≡ item_ids items
unfolding assign_known
assigned_ids-known [] first loads = refl
assigned_ids-known (item ∷ items) first loads =
    ap (λ ids. item.item_id ∷ ids) (assigned_ids-known items _ _)

contains-insert :
    (x : ℕ) (item : AllocationItem) (items : List AllocationItem)
    → contains x (item_ids (insert_item item items)) ≡ contains x (item_ids (item ∷ items))
unfolding insert_item
contains-insert x item [] = refl
contains-insert x item (next ∷ items) = ground (arith, contains-insert x item items)

contains-sort :
    (x : ℕ) (items : List AllocationItem)
    → contains x (item_ids (sort_items items)) ≡ contains x (item_ids items)
unfolding sort_items
contains-sort x [] = refl
contains-sort x (item ∷ items) =
    let step = contains-insert x item (sort_items items) in
    let rest = contains-sort x items in ground arith

contains-keep :
    (x : ℕ) (p : AllocationItem → Bool) (items : List AllocationItem)
    → (contains x (item_ids (keep p items))
        || contains x (item_ids (keep (λ item. not (p item)) items)))
      ≡ contains x (item_ids items)
contains-keep x p [] = refl
contains-keep x p (item ∷ items) = ground (arith, contains-keep x p items)

greedy_over-contains :
    (x : ℕ) (items : List AllocationItem) (lanes : List AllocationLane)
    → contains x (assigned_ids (greedy_over items lanes)) ≡ contains x (item_ids items)
unfolding greedy_over
greedy_over-contains x items [] = ap (contains x) (assigned_ids-all unassigned items)
greedy_over-contains x items (lane ∷ []) = ap (contains x) (assigned_ids-single lane.lane_id items)
greedy_over-contains x items (lane ∷ next ∷ lanes) =
    let known = keep (λ item. is_some item.amount) items in
    let unknown = keep (λ item. not (is_some item.amount)) items in
    let loads = map load_of (next ∷ lanes) in
    rw
      (
        assigned_ids-append (assign_known (load_of lane) loads (sort_items known))
            (assign_all unassigned unknown),
        assigned_ids-known (sort_items known) (load_of lane) loads,
        assigned_ids-all unassigned unknown,
        contains-append x (item_ids (sort_items known)) (item_ids unknown),
        contains-sort x known,
      )
      (contains-keep x (λ item. is_some item.amount) items)

pub greedy_assign_items-contains :
    (x : ℕ) (items : List AllocationItem) (lanes : List AllocationLane)
    → contains x (assigned_ids (greedy_assign_items items lanes)) ≡ contains x (item_ids items)
unfolding greedy_assign_items
greedy_assign_items-contains x items lanes = greedy_over-contains x items (keep is_assignable lanes)

contains-eq : (x y : ℕ) (ids : List ℕ) → (x == y) ≡ true → contains x ids ≡ contains y ids
contains-eq x y ids h = let same : x ≡ y = ground arith in ap (λ z. contains z ids) same

-- The same of a saved workspace.
contains-remap :
    (x : ℕ) (expected : List AllocationLane) (ids : List ℕ) (rows : List AllocationAssignment)
    → contains x (assigned_ids (remap_assignments expected ids rows))
      ≡ (contains x (assigned_ids rows) && contains x ids)
unfolding remap_assignments
contains-remap x expected ids [] = refl
contains-remap x expected ids (a ∷ rows) =
    let same = contains-eq x a.item_id ids in ground (arith, contains-remap x expected ids rows)

contains-assign_rest :
    (x : ℕ) (assigned : List ℕ) (items : List AllocationItem)
    → contains x (assigned_ids (assign_rest assigned items))
      ≡ (contains x (item_ids items) && not (contains x assigned))
unfolding assign_rest
contains-assign_rest x assigned [] = refl
contains-assign_rest x assigned (item ∷ items) =
    let same = contains-eq x item.item_id assigned in
    ground (arith, contains-assign_rest x assigned items)

pub normalize_assignments-contains :
    (x : ℕ) (expected : List AllocationLane) (items : List AllocationItem)
    (rows : List AllocationAssignment)
    → contains x (assigned_ids (normalize_assignments expected items rows))
      ≡ contains x (item_ids items)
unfolding normalize_assignments
normalize_assignments-contains x expected items rows =
    let kept = remap_assignments expected (item_ids items) rows in
    rw
      (
        assigned_ids-append kept (assign_rest (assigned_ids kept) items),
        contains-append x (assigned_ids kept)
            (assigned_ids (assign_rest (assigned_ids kept) items)),
        contains-assign_rest x (assigned_ids kept) items,
        contains-remap x expected (item_ids items) rows,
      )
      (ground arith)
