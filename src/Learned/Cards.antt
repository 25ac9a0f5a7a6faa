-- ===== src/Learned/Cards.antt =====
-- The learned account of a card (card_mapping.py, and `normalize_card_last_four` of
-- apps/server/shared/receipt_shared/contracts.py). The cache holds the accounts of each budget.
use ynab_receipt_analyzer.Prelude.{
  ℕ, zero, suc, ◌-◌, ◌≡◌, refl, Bool, true, false, ◌&&◌, not, Option, none, some, List, [], ◌∷◌,
  any, keep, length, drop, leb, ltb, ◌==◌, arith, if◌then◌else◌, Bool-cases, inl, inr,
}
use ynab_receipt_analyzer.Sync.Text.{Text, text_eq, text_eq_iff, strip}
use ynab_receipt_analyzer.Sync.Draft.{is_empty}
use ynab_receipt_analyzer.Learned.Table.{Row, get_row, put_row, same_key, get_row-put_row}

abbrev pub is_digit : ℕ → Bool
is_digit c = leb b'0' c && leb c b'9'

abbrev pub all_digits : Text → Bool
all_digits [] = true
all_digits (c ∷ s) = is_digit c && all_digits s

-- `re.sub(r"\.\d+$", "", s)`
unfoldable pub drop_decimals : Text → Text
drop_decimals [] = []
drop_decimals (c ∷ s) =
    let rest = drop_decimals s in
    if (c == b'.') && (not (is_empty s) && all_digits s) then [] else c ∷ rest

-- The last four of the digits, if there are as many.
abbrev pub last_four : Text → Option Text
last_four digits = if ltb (length digits) 4 then none else some (drop (length digits - 4) digits)

-- The argument is the text of the value (`str(value)`).
unfoldable pub normalize_card_last_four : Option Text → Option Text
normalize_card_last_four none = none
normalize_card_last_four (some value) = last_four (keep is_digit (drop_decimals (strip value)))

abbrev pub is_blank : Text → Bool
is_blank s = is_empty (strip s)

-- An account of the cache, under its budget.
pub record CachedAccount : Type 0 where
  pub budget_id : Text
  pub entity_id : Text

abbrev pub is_entry : Text → Text → CachedAccount → Bool
is_entry b a c = text_eq c.budget_id b && text_eq c.entity_id a

-- `UNKNOWN_ACCOUNT_ID`
abbrev pub unknown_account : Text
unknown_account = b'_' ∷ b'_' ∷ b'u' ∷ b'n' ∷ b'k' ∷ b'n' ∷ b'o' ∷ b'w' ∷ b'n' ∷ b'_' ∷ b'_' ∷ []

unfoldable pub account_exists : List CachedAccount → Text → Text → Bool
account_exists cache b a =
    not (is_blank a) && (not (text_eq a unknown_account) && any (is_entry b a) cache)

abbrev pub if_exists : List CachedAccount → Text → Option Text → Option Text
if_exists cache b none = none
if_exists cache b (some a) = if account_exists cache b a then some a else none

abbrev pub lookup_key : List CachedAccount → List (Row Text) → Text → Option Text → Option Text
lookup_key cache rows b none = none
lookup_key cache rows b (some k) = if is_blank b then none else if_exists cache b (get_row b k rows)

unfoldable pub lookup_account_for_card :
    List CachedAccount → List (Row Text) → Text → Option Text → Option Text
lookup_account_for_card cache rows b card = lookup_key cache rows b (normalize_card_last_four card)

abbrev pub upsert_key :
    List CachedAccount → List (Row Text) → Text → Option Text → Text → List (Row Text)
upsert_key cache rows b none a = rows
upsert_key cache rows b (some k) a =
    if not (is_blank b) && account_exists cache b a then put_row b k a rows else rows

unfoldable pub upsert_card_mapping :
    List CachedAccount → List (Row Text) → Text → Option Text → Text → List (Row Text)
upsert_card_mapping cache rows b card a = upsert_key cache rows b (normalize_card_last_four card) a

-- Whether a mapping of the first card and budget is one of the second.
abbrev pub same_card : Text → Option Text → Text → Option Text → Bool
same_card b none b' k' = false
same_card b (some k) b' none = false
same_card b (some k) b' (some k') = same_key b k b' k'

accepted :
    (blank exists : Bool) (a : Text) (rest : Option Text)
    → (not blank && exists) ≡ true
    → (if blank then none else if exists then some a else none)
      ≡ (if exists && (not blank && true) then some a else rest)
accepted true true a rest e = ground arith
accepted true false a rest e = ground arith
accepted false true a rest e = refl
accepted false false a rest e = ground arith

missed :
    (exists blank : Bool) (a rest : Option Text)
    → rest ≡ (if exists && (not blank && false) then a else rest)
missed true true a rest = refl
missed true false a rest = refl
missed false blank a rest = refl

rejected :
    (exists blank same : Bool) (a rest : Option Text)
    → (not blank && exists) ≡ false
    → rest ≡ (if exists && (not blank && same) then a else rest)
rejected true true same a rest e = refl
rejected true false same a rest e = ground arith
rejected false blank same a rest e = refl

same_key-budget : (b k b' k' : Text) → same_key b k b' k' ≡ true → b ≡ b'
same_key-budget b k b' k' e = (text_eq_iff b b').0 (ground arith)

module _ (cache : List CachedAccount) (rows : List (Row Text)) where
  -- The account of a card after an upsert: that of the upsert where it is accepted and is of this card.
  abbrev pub after_upsert : Text → Option Text → Text → Text → Option Text → Option Text
  after_upsert b k a b' k' =
      if account_exists cache b a && (not (is_blank b) && same_card b k b' k')
      then some a
      else lookup_key cache rows b' k'

  hit :
      (b b' a : Text) (rest : Option Text)
      → b ≡ b'
      → (not (is_blank b) && account_exists cache b a) ≡ true
      → (if is_blank b' then none else if account_exists cache b' a then some a else none)
        ≡ (if account_exists cache b a && (not (is_blank b) && true) then some a else rest)
  hit b b' a rest e taken = rw (← e) (accepted (is_blank b) (account_exists cache b a) a rest taken)

  key_upsert :
      (b : Text) (k : Option Text) (a : Text) (b' : Text) (k' : Option Text)
      → lookup_key cache (upsert_key cache rows b k a) b' k' ≡ after_upsert b k a b' k'
  key_upsert b none a b' k' = ground arith
  key_upsert b (some k) a b' none = ground arith
  key_upsert b (some k) a b' (some k') =
      elim (Bool-cases (not (is_blank b) && account_exists cache b a)) [
        | inl taken ↦ elim (Bool-cases (same_key b k b' k')) [
          | inl same ↦ simp taken (
              simp (get_row-put_row b k b' k' a rows)
                (simp same (hit b b' a _ (same_key-budget b k b' k' same) taken)))
          | inr other ↦
              simp taken (simp (get_row-put_row b k b' k' a rows) (simp other (missed _ _ _ _)))
        ]
        | inr refused ↦ simp refused (
            rejected (account_exists cache b a) (is_blank b) (same_key b k b' k') (some a) _
              refused)
      ]

  -- After an upsert, a card has the account of it where the upsert was accepted (a budget that is not blank, a readable
  -- card and an account that the cache has) and was of this budget and card; every other card has what it had.
  pub upsert_card_mapping-lookup :
      (b : Text) (card : Option Text) (a : Text) (b' : Text) (card' : Option Text)
      → lookup_account_for_card cache (upsert_card_mapping cache rows b card a) b' card' ≡ (
          if account_exists cache b a
            && (not (is_blank b)
                && same_card b (normalize_card_last_four card) b' (normalize_card_last_four card'))
          then some a
          else lookup_account_for_card cache rows b' card')
  unfolding lookup_account_for_card upsert_card_mapping
  upsert_card_mapping-lookup b card a b' card' =
      key_upsert b (normalize_card_last_four card) a b' (normalize_card_last_four card')

-- Four digits.
abbrev pub IsFourDigits : Option Text → Type 0
IsFourDigits none = Unit
IsFourDigits (some k) = (length k ≡ 4) × (all_digits k ≡ true)

keep-all_digits : (s : Text) → all_digits (keep is_digit s) ≡ true
keep-all_digits [] = refl
keep-all_digits (c ∷ s) = ground (arith, keep-all_digits s)

drop-all_digits : (n : ℕ) (s : Text) → all_digits s ≡ true → all_digits (drop n s) ≡ true
drop-all_digits zero s h = h
drop-all_digits (suc n) [] h = refl
drop-all_digits (suc n) (c ∷ s) h = drop-all_digits n s (ground arith)

length-drop : (n : ℕ) (s : Text) → length (drop n s) ≡ length s - n
length-drop zero s = omega arith
length-drop (suc n) [] = omega arith
length-drop (suc n) (c ∷ s) = omega (arith, length-drop n s)

long_enough : (s : Text) → ltb (length s) 4 ≡ false → length (drop (length s - 4) s) ≡ 4
long_enough s e = ground (arith, length-drop (length s - 4) s)

last_four-IsFourDigits : (s : Text) → all_digits s ≡ true → IsFourDigits (last_four s)
last_four-IsFourDigits s h = elim (Bool-cases (ltb (length s) 4)) [
  | inl short ↦ simp short tt
  | inr long ↦ simp long (long_enough s long, drop-all_digits (length s - 4) s h)
]

-- A card is known by four digits, whatever text it is read from.
pub normalize_card_last_four-IsFourDigits :
    (value : Option Text) → IsFourDigits (normalize_card_last_four value)
unfolding normalize_card_last_four
normalize_card_last_four-IsFourDigits none = tt
normalize_card_last_four-IsFourDigits (some value) =
    last_four-IsFourDigits _ (keep-all_digits (drop_decimals (strip value)))
