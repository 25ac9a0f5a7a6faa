-- ===== src/Streak/Passes.antt =====
-- The awards of passes (`_evaluate_passes` of apps/server/backend/app/services/game.py).
use ynab_receipt_analyzer.Prelude.{
  ℕ, ◌+◌, ◌%◌, ◌≡◌, refl, Bool, true, false, Option, none, some, List, [], ◌∷◌, arith, ◌==◌,
  contains, if◌then◌else◌, Bool-cases, Option-cases, inl, inr,
}
use ynab_receipt_analyzer.Correctness.Tables.{WeekFire}
use ynab_receipt_analyzer.Streak.{
  ReceiptRow, sorted_weeks, judge, Tokens, award_pass, award_weeks, evaluate_passes,
}

-- The weeks at which the loop means to award a pass.
abbrev due : (ℕ → Option Bool) → ℕ → List ℕ → ℕ → List ℕ
due verdict threshold [] run = []
due verdict threshold (w ∷ ws) run = elim (verdict w) [
  | none ↦ due verdict threshold ws run
  | some clean ↦
      if clean
      then if (run + 1) % threshold == 0
        then w ∷ due verdict threshold ws (run + 1)
        else due verdict threshold ws (run + 1)
      else due verdict threshold ws 0
]

abbrev award_all : List ℕ → Tokens → Tokens
award_all [] t = t
award_all (w ∷ ws) t = award_all ws (award_pass w t)

award_weeks-eq :
    (verdict : ℕ → Option Bool) (threshold : ℕ) (ws : List ℕ) (run : ℕ) (t : Tokens)
    → award_weeks verdict threshold ws run t ≡ award_all (due verdict threshold ws run) t
unfolding award_weeks
award_weeks-eq verdict threshold [] run t = refl
award_weeks-eq verdict threshold (w ∷ ws) run t = elim (Option-cases (verdict w)) [
  | inl e ↦ rw (e, award_weeks, due) (award_weeks-eq verdict threshold ws run t)
  | inr (true, e) ↦ elim (Bool-cases ((run + 1) % threshold == 0)) [
    | inl e' ↦
        rw (e, award_weeks, due, e')
          (award_weeks-eq verdict threshold ws (run + 1) (award_pass w t))
    | inr e' ↦ rw (e, award_weeks, due, e') (award_weeks-eq verdict threshold ws (run + 1) t)
  ]
  | inr (false, e) ↦ rw (e, award_weeks, due) (award_weeks-eq verdict threshold ws 0 t)
]

-- An awarded week stays awarded.
award_all-keeps :
    (w : ℕ) (ws : List ℕ) (t : Tokens)
    → contains w t.passes ≡ true
    → contains w (award_all ws t).passes ≡ true
unfolding award_pass
award_all-keeps w [] t h = h
award_all-keeps w (v ∷ ws) t h = award_all-keeps w ws (award_pass v t) (ground arith)

award_pass-awarded : (w : ℕ) (t : Tokens) → contains w (award_pass w t).passes ≡ true
unfolding award_pass
award_pass-awarded w t = elim (Bool-cases (contains w t.passes)) [
  | inl e ↦ rw (e, e) refl
  | inr e ↦ rw e (ground arith)
]

-- The weeks are all awarded.
abbrev IsAwarded : List ℕ → Tokens → Type 0
IsAwarded [] t = Unit
IsAwarded (w ∷ ws) t = (contains w t.passes ≡ true) × IsAwarded ws t

award_all-IsAwarded : (ws : List ℕ) (t : Tokens) → IsAwarded ws (award_all ws t)
award_all-IsAwarded [] t = tt
award_all-IsAwarded (w ∷ ws) t = (
  award_all-keeps w ws (award_pass w t) (award_pass-awarded w t),
  award_all-IsAwarded ws (award_pass w t),
)

award_all-idle : (ws : List ℕ) (t : Tokens) → IsAwarded ws t → award_all ws t ≡ t
unfolding award_pass
award_all-idle [] t h = refl
award_all-idle (w ∷ ws) t (there, h) = rw there (award_all-idle ws t h)

-- Evaluating the passes a second time, over the same weeks, awards nothing.
pub evaluate_passes-twice :
    (week_of : ℕ → ℕ) (threshold : ℕ) (rows : List ReceiptRow) (fires : List WeekFire) (now : ℕ)
    (t : Tokens)
    → evaluate_passes week_of threshold rows fires now
        (evaluate_passes week_of threshold rows fires now t)
      ≡ evaluate_passes week_of threshold rows fires now t
unfolding evaluate_passes
evaluate_passes-twice week_of threshold rows fires now t =
    let verdict = judge week_of rows fires now in
    let weeks = sorted_weeks week_of rows in
    let awards = due verdict threshold weeks 0 in
    rw
      (
        award_weeks-eq verdict threshold weeks 0 t,
        award_weeks-eq verdict threshold weeks 0 (award_all awards t),
      )
      (award_all-idle awards (award_all awards t) (award_all-IsAwarded awards t))
