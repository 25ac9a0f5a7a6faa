-- ===== src/Tests/Learning.antt =====
-- A card and a payee that are learned from a sync.
use ynab_receipt_analyzer.Prelude.{◌≡◌, refl, ◌&&◌, not, Option, some, List, [], ◌∷◌, if◌then◌else◌}
use ynab_receipt_analyzer.Sync.Text.{Text, strip}
use ynab_receipt_analyzer.Learned.Table.{get_row, put_row}
use ynab_receipt_analyzer.Learned.Cards.{
  drop_decimals, normalize_card_last_four, CachedAccount, account_exists, is_blank, same_card,
  lookup_account_for_card, upsert_card_mapping, upsert_card_mapping-lookup,
}
use ynab_receipt_analyzer.Learned.Payees.{
  AllExclusive, upsert_payee_memory-AllExclusive, squeeze, normalize_payee_key, upsert_payee_memory,
}

abbrev budget : Text
budget = b'b' ∷ []

abbrev checking : Text
checking = b'c' ∷ []

abbrev accounts : List CachedAccount
accounts = record { budget_id = budget; entity_id = checking } ∷ []

-- 5830.0, which a float of the card's digits prints as.
abbrev card : Option Text
card = some (b'5' ∷ b'8' ∷ b'3' ∷ b'0' ∷ b'.' ∷ b'0' ∷ [])

card_digits : normalize_card_last_four card ≡ some (b'5' ∷ b'8' ∷ b'3' ∷ b'0' ∷ [])
unfolding normalize_card_last_four drop_decimals strip
card_digits = refl

card_learned :
    lookup_account_for_card accounts
      (upsert_card_mapping accounts [] budget card checking)
      budget
      card
    ≡ some checking
unfolding lookup_account_for_card upsert_card_mapping normalize_card_last_four drop_decimals strip
    account_exists get_row put_row
card_learned = refl

upsert_card_mapping-lookup_example :
    lookup_account_for_card accounts
      (upsert_card_mapping accounts [] budget card checking)
      budget
      card
    ≡ (if account_exists accounts budget checking
          && (not (is_blank budget)
              && same_card budget
                  (normalize_card_last_four card)
                  budget
                  (normalize_card_last_four card))
        then some checking
        else lookup_account_for_card accounts [] budget card)
upsert_card_mapping-lookup_example =
    upsert_card_mapping-lookup accounts [] budget card checking budget card

-- "Joe's" and "JOES!"
abbrev shop : Text
shop = b'J' ∷ b'o' ∷ b'e' ∷ 39 ∷ b's' ∷ []

abbrev shouted : Text
shouted = b'J' ∷ b'O' ∷ b'E' ∷ b'S' ∷ b'!' ∷ []

abbrev shop_key : Text
shop_key = b'j' ∷ b'o' ∷ b'e' ∷ b's' ∷ []

shop_key_of : normalize_payee_key shop ≡ some shop_key
unfolding normalize_payee_key squeeze strip
shop_key_of = refl

shouted_key_of : normalize_payee_key shouted ≡ some shop_key
unfolding normalize_payee_key squeeze strip
shouted_key_of = refl

upsert_payee_memory-AllExclusive_example :
    AllExclusive (upsert_payee_memory [] budget shop (some 4) (some 9))
upsert_payee_memory-AllExclusive_example =
    upsert_payee_memory-AllExclusive [] budget shop (some 4) (some 9) tt
