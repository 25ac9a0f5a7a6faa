-- ===== src/Learned/Payees.antt =====
-- The learned category or splits of a payee (payee_memory.py, and `normalize_payee_key` of duplicates.py). A
-- template of splits is a number. Letters are those of ASCII.
use ynab_receipt_analyzer.Prelude.{
  ℕ, ◌≡◌, refl, Bool, true, false, ◌&&◌, ◌||◌, not, Option, none, some, List, [], ◌∷◌, keep,
  contains, leb, ◌==◌, is_some, All, Bool-cases, inl, inr, arith, if◌then◌else◌,
}
use ynab_receipt_analyzer.Sync.Text.{Text, strip, lower}
use ynab_receipt_analyzer.Sync.Draft.{ValidationPayload}
use ynab_receipt_analyzer.Learned.Table.{Row, get_row, put_row, is_at}
use ynab_receipt_analyzer.Learned.Cards.{is_digit, is_blank, same_card}

abbrev pub is_letter : ℕ → Bool
is_letter c = leb b'a' c && leb c b'z'

abbrev pub is_alnum : ℕ → Bool
is_alnum c = is_letter c || is_digit c

-- Apostrophes of three kinds (8217 is the curly one, 96 the backquote).
abbrev pub is_apostrophe : ℕ → Bool
is_apostrophe c = (c == 39) || ((c == 96) || (c == 8217))

-- Runs of other characters become one space.
unfoldable pub squeeze : Bool → Text → Text
squeeze gap [] = if gap then b' ' ∷ [] else []
squeeze gap (c ∷ s) =
    let in_gap = squeeze true s in
    let outside = squeeze false s in
    if is_alnum c then (if gap then b' ' ∷ c ∷ outside else c ∷ outside) else in_gap

abbrev pub nonempty : Text → Option Text
nonempty [] = none
nonempty (c ∷ s) = some (c ∷ s)

unfoldable pub normalize_payee_key : Text → Option Text
normalize_payee_key value =
    nonempty (strip (squeeze false (keep (λ c. not (is_apostrophe c)) (lower (strip value)))))

-- The two columns of a row, each of which may be empty.
pub record Memory : Type 0 where
  pub category_id : Option ℕ
  pub template : Option ℕ

abbrev pub lookup_memory : List (Row Memory) → Text → Option Text → Option Memory
lookup_memory rows b none = none
lookup_memory rows b (some k) = if is_blank b then none else get_row b k rows

unfoldable pub lookup_payee_memory : List (Row Memory) → Text → Text → Option Memory
lookup_payee_memory rows b payee = lookup_memory rows b (normalize_payee_key payee)

-- The columns that are written: the template wins where both are given. Without both there are none.
abbrev pub effective : Option ℕ → Option ℕ → Option Memory
effective category (some t) = some (record { category_id = none; template = some t })
effective (some c) none = some (record { category_id = some c; template = none })
effective none none = none

abbrev pub upsert_memory :
    List (Row Memory) → Text → Option Text → Option Memory → List (Row Memory)
upsert_memory rows b none m = rows
upsert_memory rows b (some k) none = rows
upsert_memory rows b (some k) (some m) = if is_blank b then rows else put_row b k m rows

unfoldable pub upsert_payee_memory :
    List (Row Memory) → Text → Text → Option ℕ → Option ℕ → List (Row Memory)
upsert_payee_memory rows b payee category template =
    upsert_memory rows b (normalize_payee_key payee) (effective category template)

abbrev pub apply_category :
    List ℕ → List ℕ → Option ℕ → ValidationPayload → ValidationPayload × Bool
apply_category allowed cached none p = (p, false)
apply_category allowed cached (some c) p =
    if contains c allowed && contains c cached
    then (record p { category_id = some c; splits = [] }, true)
    else (p, false)

-- The memory overrides the category of a draft, where it is one that is allowed and in the cache.
unfoldable pub apply_single_category_memory :
    List ℕ → List ℕ → Memory → ValidationPayload → ValidationPayload × Bool
apply_single_category_memory allowed cached memory p =
    apply_category allowed cached memory.category_id p

-- What is learned of a payee by an upsert: its columns where it is accepted and of this payee.
abbrev pub after_upsert :
    List (Row Memory) → Text → Option Text → Option Memory → Text → Option Text → Option Memory
after_upsert rows b k m b' k' =
    if is_some m && (not (is_blank b) && same_card b k b' k') then m else lookup_memory rows b' k'

-- Not both columns of a row are filled.
abbrev pub IsExclusive : Memory → Type 0
IsExclusive m = (is_some m.category_id && is_some m.template) ≡ false

abbrev pub AllExclusive : List (Row Memory) → Type 0
AllExclusive rows = All (λ row. IsExclusive row.value) rows

effective-IsExclusive :
    (category template : Option ℕ) (m : Memory)
    → effective category template ≡ some m
    → IsExclusive m
effective-IsExclusive category (some t) m e = ground arith
effective-IsExclusive (some c) none m e = ground arith
effective-IsExclusive none none m e = cc

put_row-AllExclusive :
    (b k : Text) (m : Memory) (rows : List (Row Memory))
    → IsExclusive m
    → AllExclusive rows
    → AllExclusive (put_row b k m rows)
unfolding put_row
put_row-AllExclusive b k m [] h hs = (h, tt)
put_row-AllExclusive b k m (row ∷ rows) h (here, rest) = elim (Bool-cases (is_at b k row)) [
  | inl e ↦ simp e (h, rest)
  | inr e ↦ simp e (here, put_row-AllExclusive b k m rows h rest)
]

upsert_memory-AllExclusive :
    (rows : List (Row Memory)) (b : Text) (k : Option Text) (m : Option Memory)
    → ((x : Memory) → m ≡ some x → IsExclusive x)
    → AllExclusive rows
    → AllExclusive (upsert_memory rows b k m)
upsert_memory-AllExclusive rows b none m h hs = hs
upsert_memory-AllExclusive rows b (some k) none h hs = hs
upsert_memory-AllExclusive rows b (some k) (some m) h hs = elim (Bool-cases (is_blank b)) [
  | inl e ↦ simp e hs
  | inr e ↦ simp e (put_row-AllExclusive b k m rows (h m refl) hs)
]

-- An upsert never leaves a row with both a category and a template, whatever it is given, if no row had both before.
pub upsert_payee_memory-AllExclusive :
    (rows : List (Row Memory)) (b payee : Text) (category template : Option ℕ)
    → AllExclusive rows
    → AllExclusive (upsert_payee_memory rows b payee category template)
unfolding upsert_payee_memory
upsert_payee_memory-AllExclusive rows b payee category template h =
    upsert_memory-AllExclusive rows b (normalize_payee_key payee) (effective category template)
      (λ m e. effective-IsExclusive category template m e) h
