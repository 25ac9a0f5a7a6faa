-- ===== src/Sync/ImportId.antt =====
-- The import id of a transaction (apps/server/backend/app/services/ynab.py).
use ynab_receipt_analyzer.Prelude.{
  ◌≤◌, ◌≡◌, ◌↔◌, ap, not, ◌++◌, arith, ◌==◌, keep, take, drop, length, length-take-le,
}
use ynab_receipt_analyzer.Sync.Text.{Text}
use ynab_receipt_analyzer.Sync.Memo.{build_import_id, import_id_prefix}

-- The characters of a receipt id that an import id keeps: the first 31 that are no dashes.
abbrev pub kept : Text → Text
kept receipt_id = take 31 (keep (λ c. not (c == b'-')) receipt_id)

-- An import id has at most 36 characters, and two receipts share one just when the first 31 characters
-- of their ids, dashes left out, agree.
pub build_import_id-bounded :
    (a b : Text)
    → (length (build_import_id a) ≤ 36)
      × ((build_import_id a ≡ build_import_id b) ↔ (kept a ≡ kept b))
unfolding build_import_id
build_import_id-bounded a b = (
  omega (arith, length-take-le 31 (keep (λ c. not (c == b'-')) a)),
  (λ h. ap (drop 5) h, λ h. ap (λ s. import_id_prefix ++ s) h),
)
