-- ===== src/Tests/Copies.antt =====
-- Duplicate detection at concrete inputs.
use ynab_receipt_analyzer.Prelude.{◌+◌, ◌≡◌, false, none, some, List, [], ◌∷◌}
use ynab_receipt_analyzer.Prelude.Int.{pos, abs}
use ynab_receipt_analyzer.Duplicates.{
  needs_review, synced, purchase, refund, Keys, Receipt, Digest, in_review,
  apply_semantic_duplicate_state,
}
use ynab_receipt_analyzer.Duplicates.Blocking.{
  id_of, blocking_row, is_blocked, apply_semantic_duplicate_state-blocks,
}

abbrev digest : Digest
digest p d t c = p + d + t + abs c

abbrev keys : Keys
keys = record {
  payee_key = some 1;
  date_key = some 20;
  time_key = some 300;
  total_cents = some (pos 4000);
}

abbrev incoming : Receipt
incoming = record {
  id = 9;
  status = needs_review;
  status_reason = none;
  deleted = false;
  kind = purchase;
  keys = keys;
  semantic_signature = none;
  duplicate_override_signature = none;
  duplicate_of_receipt_id = none;
}

-- A refund and a purchase with the same signature.
abbrev rows : List Receipt
rows =
    record incoming { id = 3; status = synced; kind = refund; semantic_signature = some 4321 }
    ∷ record incoming { id = 5; status = synced; semantic_signature = some 4321 }
    ∷ []

apply_semantic_duplicate_state-blocks_example :
    (in_review (apply_semantic_duplicate_state digest rows purchase keys incoming).status
      ≡ is_blocked digest rows purchase keys incoming)
    × ((apply_semantic_duplicate_state digest rows purchase keys incoming).duplicate_of_receipt_id
        ≡ id_of (blocking_row digest rows purchase keys incoming))
apply_semantic_duplicate_state-blocks_example =
    apply_semantic_duplicate_state-blocks digest rows purchase keys incoming
