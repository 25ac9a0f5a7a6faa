-- ===== src/Correctness/Rows.antt =====
-- Reading the week rows after a write (apps/server/backend/app/services/correctness.py).
use ynab_receipt_analyzer.Prelude.{
  ℕ, ◌≡◌, refl, List, [], ◌∷◌, arith, ◌==◌, if◌then◌else◌, Bool-cases, inl, inr, ==_iff,
}
use ynab_receipt_analyzer.Correctness.Tables.{WeekFire, row_at, put_row, ensure_row}

pub row_at-week : (w : ℕ) (rows : List WeekFire) → (row_at w rows).week_start_at ≡ w
unfolding row_at
row_at-week w [] = refl
row_at-week w (r ∷ rs) = ground (arith, row_at-week w rs)

pub row_at-put_row :
    (w : ℕ) (r : WeekFire) (rows : List WeekFire)
    → row_at w (put_row r rows) ≡ (if r.week_start_at == w then r else row_at w rows)
unfolding row_at put_row
row_at-put_row w r [] = ground arith
row_at-put_row w r (x ∷ xs) = ground (arith, row_at-put_row w r xs)

-- The same row for every week.
abbrev pub SameRows : List WeekFire → List WeekFire → Type 0
SameRows a b = (w : ℕ) → row_at w a ≡ row_at w b

pub SameRows-put_row :
    (a b : List WeekFire) (r s : WeekFire)
    → SameRows a b
    → r ≡ s
    → SameRows (put_row r a) (put_row s b)
SameRows-put_row a b r s h e w = rw (row_at-put_row w r a, row_at-put_row w s b, e, h w)

pub SameRows-ensure_row : (w : ℕ) (rows : List WeekFire) → SameRows (ensure_row w rows) rows
unfolding ensure_row
SameRows-ensure_row w rows v =
    rw (row_at-put_row v (row_at w rows) rows, row_at-week w rows)
      (elim (Bool-cases (w == v)) [
        | inl e ↦ let same : w ≡ v = (==_iff w v).0 e in rw (e, same)
        | inr e ↦ rw e
      ])
