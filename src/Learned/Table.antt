-- ===== src/Learned/Table.antt =====
-- A table with one row for each budget and key (apps/server/backend/app/services/card_mapping.py and
-- payee_memory.py). Another writer between the look and the insertion is left out.
use ynab_receipt_analyzer.Prelude.{
  ◌≡◌, refl, sym, ap, Bool, true, ◌&&◌, Option, none, some, List, [], ◌∷◌, arith, if◌then◌else◌,
  Bool-cases, inl, inr,
}
use ynab_receipt_analyzer.Sync.Text.{Text, text_eq, text_eq_iff}

pub record Row (A : Type 0) : Type 0 where
  pub budget_id : Text
  pub key : Text
  pub value : A

module _ {A : Type 0} where
  abbrev pub is_at : Text → Text → Row A → Bool
  is_at b k r = text_eq r.budget_id b && text_eq r.key k

  -- The row of a key.
  unfoldable pub get_row : Text → Text → List (Row A) → Option A
  get_row b k [] = none
  get_row b k (r ∷ rs) = if is_at b k r then some r.value else get_row b k rs

  unfoldable pub put_row : Text → Text → A → List (Row A) → List (Row A)
  put_row b k a [] = record { budget_id = b; key = k; value = a } ∷ []
  put_row b k a (r ∷ rs) = if is_at b k r then record r { value = a } ∷ rs else r ∷ put_row b k a rs

abbrev pub same_key : Text → Text → Text → Text → Bool
same_key b k b' k' = text_eq b b' && text_eq k k'

text_eq-left : (s t u : Text) → text_eq s t ≡ true → text_eq s u ≡ text_eq t u
text_eq-left s t u e = ap (λ x. text_eq x u) ((text_eq_iff s t).0 e)

text_eq-right : (s t u : Text) → text_eq t u ≡ true → text_eq s u ≡ text_eq s t
text_eq-right s t u e = ap (λ x. text_eq s x) (sym ((text_eq_iff t u).0 e))

both : (x y : Bool) → (x && y) ≡ true → (x ≡ true) × (y ≡ true)
both x y e = ground arith

module _ {A : Type 0} where
  is_at-same :
      (b k b' k' : Text) (r : Row A) → is_at b k r ≡ true → is_at b' k' r ≡ same_key b k b' k'
  is_at-same b k b' k' r e =
      let (eb, ek) = both (text_eq r.budget_id b) (text_eq r.key k) e in
      rw (text_eq-left r.budget_id b b' eb, text_eq-left r.key k k' ek) refl

  same_key-at :
      (b k b' k' : Text) (r : Row A) → same_key b k b' k' ≡ true → is_at b' k' r ≡ is_at b k r
  same_key-at b k b' k' r e =
      let (eb, ek) = both (text_eq b b') (text_eq k k') e in
      rw (text_eq-right r.budget_id b b' eb, text_eq-right r.key k k' ek) refl

  -- A table after a write: the key has the new value, every other key what it had.
  pub get_row-put_row :
      (b k b' k' : Text) (a : A) (rs : List (Row A))
      → get_row b' k' (put_row b k a rs) ≡ (if same_key b k b' k' then some a else get_row b' k' rs)
  unfolding get_row put_row
  get_row-put_row b k b' k' a [] = refl
  get_row-put_row b k b' k' a (r ∷ rs) = elim (Bool-cases (is_at b k r)) [
    | inl at ↦ elim (Bool-cases (same_key b k b' k')) [
      | inl same ↦ simp (at, is_at-same b k b' k' r at, same) refl
      | inr other ↦ simp (at, is_at-same b k b' k' r at, other) refl
    ]
    | inr elsewhere ↦ elim (Bool-cases (same_key b k b' k')) [
      | inl same ↦
          simp (elsewhere, same_key-at b k b' k' r same, same, get_row-put_row b k b' k' a rs) refl
      | inr other ↦ simp (elsewhere, get_row-put_row b k b' k' a rs, other) refl
    ]
  ]

text_eq_refl : (s : Text) → text_eq s s ≡ true
text_eq_refl s = (text_eq_iff s s).1 refl

pub same_key_refl : (b k : Text) → same_key b k b k ≡ true
same_key_refl b k = rw (text_eq_refl b, text_eq_refl k) refl
