-- ===== src/Duplicates/Blocking.antt =====
-- When `apply_semantic_duplicate_state` (apps/server/backend/app/services/duplicates.py) blocks a
-- receipt as a duplicate.
use ynab_receipt_analyzer.Prelude.{
  ℕ, ◌≡◌, refl, ◌∙◌, Bool, true, false, ◌&&◌, not, none, some, List, [], ◌∷◌, arith, any, keep,
  find, if◌then◌else◌, Option, sym, Bool-cases, Option-cases, inl, inr,
}
use ynab_receipt_analyzer.Duplicates.{
  ReceiptStatus, Kind, Keys, Receipt, Digest, build_semantic_signature, holds, in_review, released,
  same_kind, has_signature, is_match, Verdict, duplicate, verdict_timeless, near_verdict,
  verdict_matches, verdict_signed, verdict_of, apply_verdict, apply_semantic_duplicate_state,
  is_timeless_match,
}

module _ {ℓ} {A : Type ℓ} where
  abbrev nonempty : List A → Bool
  nonempty [] = false
  nonempty (x ∷ xs) = true

  nonempty-keep : (p : A → Bool) (xs : List A) → nonempty (keep p xs) ≡ any p xs
  nonempty-keep p [] = refl
  nonempty-keep p (x ∷ xs) = elim (Bool-cases (p x)) [
    | inl e ↦ rw e refl
    | inr e ↦ rw e (nonempty-keep p xs)
  ]

  nonempty-keep-keep :
      (p q : A → Bool) (xs : List A) → nonempty (keep q (keep p xs)) ≡ any (λ x. p x && q x) xs
  nonempty-keep-keep p q [] = refl
  nonempty-keep-keep p q (x ∷ xs) = elim (Bool-cases (p x)) [
    | inl e ↦ elim (Bool-cases (q x)) [
      | inl e' ↦ rw (e, e') refl
      | inr e' ↦ rw (e, e') (nonempty-keep-keep p q xs)
    ]
    | inr e ↦ rw e (nonempty-keep-keep p q xs)
  ]

  any-and : (p q : A → Bool) (xs : List A) → any (λ x. p x && q x) xs ≡ true → any p xs ≡ true
  any-and p q [] h = h
  any-and p q (x ∷ xs) h = elim (Bool-cases (p x)) [
    | inl e ↦ rw e refl
    | inr e ↦ rw e (any-and p q xs (rw e at h))
  ]

-- A verdict that blocks.
abbrev blocks_as : Verdict → Bool
blocks_as (duplicate row n) = true
blocks_as _ = false

verdict_matches-blocks :
    (found pool same : List Receipt)
    → blocks_as (verdict_matches found pool same)
      ≡ (nonempty found && (nonempty pool && nonempty same))
verdict_matches-blocks [] pool same = refl
verdict_matches-blocks (m ∷ ms) [] same = refl
verdict_matches-blocks (m ∷ ms) (x ∷ xs) [] = refl
verdict_matches-blocks (m ∷ ms) (x ∷ xs) (y ∷ ys) = refl

chain : (a b c : Bool) → (c ≡ true → b ≡ true) → (b ≡ true → a ≡ true) → (a && (b && c)) ≡ c
chain a b c h h' = ground (arith, h, h')

-- The rows that block a receipt with this signature.
abbrev pub has_twin : List Receipt → Receipt → Kind → ℕ → Bool
has_twin rows r kind signature =
    any (λ row. is_match r signature row && same_kind row.kind kind) rows

verdict_signed-blocks :
    (rows : List Receipt) (r : Receipt) (kind : Kind) (signature : ℕ)
    → blocks_as (verdict_signed rows r kind signature)
      ≡ (not (holds r.duplicate_override_signature signature) && has_twin rows r kind signature)
unfolding verdict_signed
verdict_signed-blocks rows r kind signature =
    let matches = is_match r signature in
    let alike = λ (row : Receipt). same_kind row.kind kind in
    elim (Bool-cases (holds r.duplicate_override_signature signature)) [
      | inl e ↦ rw e refl
      | inr e ↦
          rw
            (
              e,
              verdict_matches-blocks (keep (has_signature r signature) rows) (keep matches rows)
                  (keep alike (keep matches rows)),
              nonempty-keep (has_signature r signature) rows,
              nonempty-keep matches rows,
              nonempty-keep-keep matches alike rows,
            )
            (chain _ _ _ (any-and matches alike rows)
              (any-and (has_signature r signature) (λ row. not (in_review row.status)) rows))
    ]

-- The receipt that a verdict names, and the id of the first of some rows.
abbrev named : Verdict → Option ℕ
named (duplicate row n) = some row.id
named _ = none

abbrev head_id : List Receipt → Option ℕ
head_id [] = none
head_id (row ∷ rows) = some row.id

abbrev pub id_of : Option Receipt → Option ℕ
id_of none = none
id_of (some row) = some row.id

named_without_block : (v : Verdict) → blocks_as v ≡ false → named v ≡ none
named_without_block Verdict.incomplete h = refl
named_without_block Verdict.overridden h = refl
named_without_block Verdict.no_match h = refl
named_without_block Verdict.only_reviews h = refl
named_without_block (Verdict.near_timeless row n) h = refl
named_without_block (Verdict.near_other_kind row n) h = refl
named_without_block (duplicate row n) h = cc

head_id-keep :
    (p : Receipt → Bool) (rows : List Receipt) → head_id (keep p rows) ≡ id_of (find p rows)
head_id-keep p [] = refl
head_id-keep p (row ∷ rows) = elim (Bool-cases (p row)) [
  | inl e ↦ rw e refl
  | inr e ↦ rw e (head_id-keep p rows)
]

head_id-keep-keep :
    (p q : Receipt → Bool) (rows : List Receipt)
    → head_id (keep q (keep p rows)) ≡ id_of (find (λ row. p row && q row) rows)
head_id-keep-keep p q [] = refl
head_id-keep-keep p q (row ∷ rows) = elim (Bool-cases (p row)) [
  | inl e ↦ elim (Bool-cases (q row)) [
    | inl e' ↦ rw (e, e') refl
    | inr e' ↦ rw (e, e') (head_id-keep-keep p q rows)
  ]
  | inr e ↦ rw e (head_id-keep-keep p q rows)
]

verdict_matches-named :
    (found pool same : List Receipt)
    → (nonempty same ≡ true → nonempty pool ≡ true)
    → (nonempty pool ≡ true → nonempty found ≡ true)
    → named (verdict_matches found pool same) ≡ head_id same
verdict_matches-named [] pool [] h k = refl
verdict_matches-named [] pool (y ∷ ys) h k = let impossible = k (h refl) in cc
verdict_matches-named (m ∷ ms) [] [] h k = refl
verdict_matches-named (m ∷ ms) [] (y ∷ ys) h k = let impossible = h refl in cc
verdict_matches-named (m ∷ ms) (x ∷ xs) [] h k = refl
verdict_matches-named (m ∷ ms) (x ∷ xs) (y ∷ ys) h k = refl

-- The first row that blocks a receipt with this signature.
abbrev pub first_twin : List Receipt → Receipt → Kind → ℕ → Option Receipt
first_twin rows r kind signature =
    find (λ row. is_match r signature row && same_kind row.kind kind) rows

verdict_signed-named :
    (rows : List Receipt) (r : Receipt) (kind : Kind) (signature : ℕ)
    → named (verdict_signed rows r kind signature) ≡ (
        if holds r.duplicate_override_signature signature
        then none
        else id_of (first_twin rows r kind signature))
unfolding verdict_signed
verdict_signed-named rows r kind signature =
    let matches = is_match r signature in
    let alike = λ (row : Receipt). same_kind row.kind kind in
    let pool = keep matches rows in
    elim (Bool-cases (holds r.duplicate_override_signature signature)) [
      | inl e ↦ rw e refl
      | inr e ↦ rw e (
          verdict_matches-named (keep (has_signature r signature) rows) pool (keep alike pool)
            (λ h.
              nonempty-keep matches rows
              ∙ any-and matches alike rows (sym (nonempty-keep-keep matches alike rows) ∙ h))
            (λ h.
              nonempty-keep (has_signature r signature) rows
              ∙ any-and (has_signature r signature) (λ row. not (in_review row.status)) rows
                  (sym (nonempty-keep matches rows) ∙ h))
          ∙ head_id-keep-keep matches alike rows)
    ]

near_verdict-blocks : (rows : List Receipt) → blocks_as (near_verdict rows) ≡ false
near_verdict-blocks [] = refl
near_verdict-blocks (x ∷ xs) = refl

verdict_timeless-blocks :
    (rows : List Receipt) (r : Receipt) (k : Keys) → blocks_as (verdict_timeless rows r k) ≡ false
verdict_timeless-blocks rows r k = elim (Option-cases k.payee_key) [
  | inl e ↦ rw e refl
  | inr (p, e) ↦ elim (Option-cases k.date_key) [
    | inl e' ↦ rw (e, e') refl
    | inr (d, e') ↦ elim (Option-cases k.total_cents) [
      | inl e'' ↦ rw (e, e', e'') refl
      | inr (c, e'') ↦ rw (e, e', e'') (near_verdict-blocks (keep (is_timeless_match r p d c) rows))
    ]
  ]
]

in_review-released : (s : ReceiptStatus) → in_review (released s) ≡ false
in_review-released s = ground arith

apply_verdict-blocks :
    (v : Verdict) (kind : Kind) (r : Receipt)
    → (in_review (apply_verdict v kind r).status ≡ blocks_as v)
      × ((apply_verdict v kind r).duplicate_of_receipt_id ≡ named v)
unfolding apply_verdict
apply_verdict-blocks Verdict.incomplete kind r = (in_review-released r.status, refl)
apply_verdict-blocks Verdict.overridden kind r = (in_review-released r.status, refl)
apply_verdict-blocks Verdict.no_match kind r = (in_review-released r.status, refl)
apply_verdict-blocks Verdict.only_reviews kind r = (in_review-released r.status, refl)
apply_verdict-blocks (Verdict.near_timeless row n) kind r = (in_review-released r.status, refl)
apply_verdict-blocks (Verdict.near_other_kind row n) kind r = (in_review-released r.status, refl)
apply_verdict-blocks (duplicate row n) kind r = (refl, refl)

-- Whether a receipt with these keys is to be blocked.
abbrev pub is_blocked : Digest → List Receipt → Kind → Keys → Receipt → Bool
is_blocked digest rows kind k r = elim (build_semantic_signature digest k) [
  | none ↦ false
  | some signature ↦
      not (holds r.duplicate_override_signature signature) && has_twin rows r kind signature
]

-- The row that a blocked receipt duplicates.
abbrev pub blocking_row : Digest → List Receipt → Kind → Keys → Receipt → Option Receipt
blocking_row digest rows kind k r = elim (build_semantic_signature digest k) [
  | none ↦ none
  | some signature ↦
      if holds r.duplicate_override_signature signature
      then none
      else first_twin rows r kind signature
]

id_of-unless :
    (b : Bool) (row : Option Receipt)
    → (if b then none else id_of row) ≡ id_of (if b then none else row)
id_of-unless true row = refl
id_of-unless false row = refl

-- After the check a receipt is in duplicate review just when its four keys are complete, its signature
-- is not overridden, and some other row that is not deleted and not itself in duplicate review has the
-- same signature and the same kind. It names the first such row then, and no receipt otherwise.
pub apply_semantic_duplicate_state-blocks :
    (digest : Digest) (rows : List Receipt) (kind : Kind) (k : Keys) (r : Receipt)
    → (in_review (apply_semantic_duplicate_state digest rows kind k r).status
        ≡ is_blocked digest rows kind k r)
      × ((apply_semantic_duplicate_state digest rows kind k r).duplicate_of_receipt_id
          ≡ id_of (blocking_row digest rows kind k r))
unfolding apply_semantic_duplicate_state verdict_of
apply_semantic_duplicate_state-blocks digest rows kind k r =
    let written = record r { keys = k; semantic_signature = build_semantic_signature digest k } in
    let (status, target) = apply_verdict-blocks (verdict_of digest rows r kind k) kind written in
    let same : blocks_as (verdict_of digest rows r kind k) ≡ is_blocked digest rows kind k r =
      elim (Option-cases (build_semantic_signature digest k)) [
        | inl e ↦ rw (e, verdict_of, is_blocked) (verdict_timeless-blocks rows r k)
        | inr (signature, e) ↦
            rw (e, verdict_of, is_blocked) (verdict_signed-blocks rows r kind signature)
      ] in
    let names : named (verdict_of digest rows r kind k)
        ≡ id_of (blocking_row digest rows kind k r) =
      elim (Option-cases (build_semantic_signature digest k)) [
        | inl e ↦
            rw (e, verdict_of, blocking_row)
              (named_without_block _ (verdict_timeless-blocks rows r k))
        | inr (signature, e) ↦
            rw (e, verdict_of, blocking_row)
              (verdict_signed-named rows r kind signature
                ∙ id_of-unless _ (first_twin rows r kind signature))
      ] in
    (status ∙ same, target ∙ names)
