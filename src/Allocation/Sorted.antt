-- ===== src/Allocation/Sorted.antt =====
-- The sorted rows of `fractions` in `_largest_remainder_allocation`
-- (apps/server/backend/app/services/allocation_workspace.py).
use ynab_receipt_analyzer.Prelude.{
  ℕ, zero, suc, ◌+◌, ◌≤◌, ◌<◌, ◌≡◌, refl, ap, ◌∙◌, arith, Bool-cases, inl, inr, ◌==◌, List, [], ◌∷◌,
  map, All, length, take,
}
use ynab_receipt_analyzer.Money.Decimals.{Decimal, less}
use ynab_receipt_analyzer.Allocation.Raised.{count}
use ynab_receipt_analyzer.Allocation.Shares.{
  range_from, Fraction, insert_fraction, sort_fractions, fractions_from,
}

-- The positions of rows.
abbrev pub indices : List Fraction → List ℕ
indices = map (λ row. row.index)

length-insert :
    (row : Fraction) (rows : List Fraction) → length (insert_fraction row rows) ≡ suc (length rows)
unfolding insert_fraction
length-insert row [] = refl
length-insert row (next ∷ rows) = ground (arith, length-insert row rows)

pub length-sort : (rows : List Fraction) → length (sort_fractions rows) ≡ length rows
unfolding sort_fractions
length-sort [] = refl
length-sort (row ∷ rows) = length-insert row (sort_fractions rows) ∙ ap suc (length-sort rows)

count-insert :
    (i : ℕ) (row : Fraction) (rows : List Fraction)
    → count i (indices (insert_fraction row rows)) ≡ count i (row.index ∷ indices rows)
unfolding insert_fraction
count-insert i row [] = refl
count-insert i row (next ∷ rows) = ground (arith, count-insert i row rows)

pub count-sort :
    (i : ℕ) (rows : List Fraction)
    → count i (indices (sort_fractions rows)) ≡ count i (indices rows)
unfolding sort_fractions
count-sort i [] = refl
count-sort i (row ∷ rows) =
    let step = count-insert i row (sort_fractions rows) in
    let rest = count-sort i rows in ground arith

All-insert :
    (n : ℕ) (row : Fraction) (rows : List Fraction)
    → row.index < n
    → All (λ i. i < n) (indices rows)
    → All (λ i. i < n) (indices (insert_fraction row rows))
unfolding insert_fraction
All-insert n row [] h k = (h, tt)
All-insert n row (next ∷ rows) h (k, l) =
    let rest = All-insert n row rows h l in
    elim (Bool-cases (less row.fraction next.fraction)) [
      | inl e ↦ simp e (k, rest)
      | inr e ↦ simp e (h, (k, l))
    ]

pub All-sort :
    (n : ℕ) (rows : List Fraction)
    → All (λ i. i < n) (indices rows)
    → All (λ i. i < n) (indices (sort_fractions rows))
unfolding sort_fractions
All-sort n [] h = tt
All-sort n (row ∷ rows) (h, k) = All-insert n row (sort_fractions rows) h (All-sort n rows k)

pub All-take :
    (n k : ℕ) (rows : List Fraction)
    → All (λ i. i < n) (indices rows)
    → All (λ i. i < n) (indices (take k rows))
All-take n zero rows h = tt
All-take n (suc k) [] h = tt
All-take n (suc k) (row ∷ rows) (h, l) = (h, All-take n k rows l)

pub count-take :
    (i k : ℕ) (rows : List Fraction) → count i (indices (take k rows)) ≤ count i (indices rows)
count-take i zero rows = omega arith
count-take i (suc k) [] = omega arith
count-take i (suc k) (row ∷ rows) = ground (arith, count-take i k rows)

pub length-indices-take :
    (k : ℕ) (rows : List Fraction) → k ≤ length rows → length (indices (take k rows)) ≡ k
length-indices-take zero rows h = refl
length-indices-take (suc k) [] h = omega arith
length-indices-take (suc k) (row ∷ rows) h = ap suc (length-indices-take k rows (omega arith))

pub indices-fractions :
    (i : ℕ) (shares : List Decimal)
    → indices (fractions_from i shares) ≡ range_from i (length shares)
unfolding fractions_from
indices-fractions i [] = refl
indices-fractions i (share ∷ shares) = simp (indices-fractions (suc i) shares) refl

pub length-fractions :
    (i : ℕ) (shares : List Decimal) → length (fractions_from i shares) ≡ length shares
unfolding fractions_from
length-fractions i [] = refl
length-fractions i (share ∷ shares) = ap suc (length-fractions (suc i) shares)

pub All-range : (s k n : ℕ) → s + k ≤ n → All (λ i. i < n) (range_from s k)
All-range s zero n h = tt
All-range s (suc k) n h = (omega arith, All-range (suc s) k n (omega arith))

count-range_below : (i s k : ℕ) → i < s → count i (range_from s k) ≡ 0
count-range_below i s zero h = refl
count-range_below i s (suc k) h = ground (arith, count-range_below i (suc s) k (omega arith))

pub count-range : (i s k : ℕ) → count i (range_from s k) ≤ 1
count-range i s zero = omega arith
count-range i s (suc k) =
    let later = count-range i (suc s) k in
    elim (Bool-cases (i == s)) [
      | inl e ↦ let gone = count-range_below i (suc s) k (ground arith) in simp e (omega arith)
      | inr e ↦ simp e later
    ]

pub length-range : (s k : ℕ) → length (range_from s k) ≡ k
length-range s zero = refl
length-range s (suc k) = ap suc (length-range (suc s) k)
