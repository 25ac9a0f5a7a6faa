-- ===== src/Sync/Memo.antt =====
-- The memo texts of a YNAB transaction and its import id
-- (apps/server/backend/app/services/ynab.py).
use ynab_receipt_analyzer.Prelude.{not, List, [], ◌∷◌, ◌++◌, ◌==◌, any, keep, take, if◌then◌else◌}
use ynab_receipt_analyzer.Sync.Text.{Text, strip, lower, starts_with, has_infix}

-- "RA:1:"
abbrev pub import_id_prefix : Text
import_id_prefix = b'R' ∷ b'A' ∷ b':' ∷ b'1' ∷ b':' ∷ []

unfoldable pub build_import_id : Text → Text
build_import_id receipt_id = import_id_prefix ++ take 31 (keep (λ c. not (c == b'-')) receipt_id)

-- "[receipt_id:"
abbrev pub receipt_id_marker_prefix : Text
receipt_id_marker_prefix =
    b'[' ∷ b'r' ∷ b'e' ∷ b'c' ∷ b'e' ∷ b'i' ∷ b'p' ∷ b't' ∷ b'_' ∷ b'i' ∷ b'd' ∷ b':' ∷ []

unfoldable pub receipt_id_marker : Text → Text
receipt_id_marker receipt_id = receipt_id_marker_prefix ++ (receipt_id ++ (b']' ∷ []))

-- `f"{memo_text} {marker}"`, or the marker alone where the memo is empty.
abbrev pub with_marker : Text → Text → Text
with_marker [] marker = marker
with_marker (c ∷ s) marker = (c ∷ s) ++ (b' ' ∷ marker)

unfoldable pub append_receipt_id_marker : Text → Text → Text
append_receipt_id_marker memo receipt_id =
    let memo_text = strip memo in
    let marker = receipt_id_marker receipt_id in
    if has_infix memo_text marker then memo_text else with_marker memo_text marker

-- "return:", "returning" and "refund"
abbrev pub refund_words : List Text
refund_words =
    (b'r' ∷ b'e' ∷ b't' ∷ b'u' ∷ b'r' ∷ b'n' ∷ b':' ∷ [])
    ∷ (b'r' ∷ b'e' ∷ b't' ∷ b'u' ∷ b'r' ∷ b'n' ∷ b'i' ∷ b'n' ∷ b'g' ∷ [])
    ∷ (b'r' ∷ b'e' ∷ b'f' ∷ b'u' ∷ b'n' ∷ b'd' ∷ [])
    ∷ []

-- "Return: "
abbrev pub refund_memo_prefix : Text
refund_memo_prefix = b'R' ∷ b'e' ∷ b't' ∷ b'u' ∷ b'r' ∷ b'n' ∷ b':' ∷ b' ' ∷ []

unfoldable pub ensure_refund_memo_prefix : Text → Text
ensure_refund_memo_prefix memo =
    let memo_text = strip memo in
    if any (starts_with (lower memo_text)) refund_words
    then memo_text
    else strip (refund_memo_prefix ++ memo_text)
