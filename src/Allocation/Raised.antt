-- ===== src/Allocation/Raised.antt =====
-- The cents that `_largest_remainder_allocation` adds by fraction
-- (apps/server/backend/app/services/allocation_workspace.py).
use ynab_receipt_analyzer.Prelude.{
  ℕ, zero, suc, ◌+◌, ◌≤◌, ◌<◌, ◌≡◌, true, false, refl, ap, sym, ◌∙◌, arith, ◌==◌, List, [], ◌∷◌,
  All, length, if◌then◌else◌,
}
use ynab_receipt_analyzer.Allocation.Shares.{sum_ℕ, bump, bump_each}

-- How often `i` is among the positions.
abbrev pub count : ℕ → List ℕ → ℕ
count i [] = 0
count i (x ∷ xs) = if i == x then suc (count i xs) else count i xs

-- The values from position `s` on, with the positions that occur counted in.
abbrev pub raised : List ℕ → ℕ → List ℕ → List ℕ
raised is s [] = []
raised is s (v ∷ vs) = (v + count s is) ∷ raised is (suc s) vs

raised_nothing : (s : ℕ) (vs : List ℕ) → raised [] s vs ≡ vs
raised_nothing s [] = refl
raised_nothing s (v ∷ vs) =
    let same : v + 0 ≡ v = omega arith in simp (same, raised_nothing (suc s) vs) refl

raised_before : (i s : ℕ) (is vs : List ℕ) → i < s → raised (i ∷ is) s vs ≡ raised is s vs
raised_before i s is [] h = refl
raised_before i s is (v ∷ vs) h =
    let other : (s == i) ≡ false = ground arith in
    simp (other, raised_before i (suc s) is vs (omega arith)) refl

raised-bump : (j s : ℕ) (is vs : List ℕ) → raised is s (bump j vs) ≡ raised ((s + j) ∷ is) s vs
unfolding bump
raised-bump j s is [] = refl
raised-bump zero s is (v ∷ vs) =
    let here : (s == s + 0) ≡ true = ground arith in
    let more : suc v + count s is ≡ v + suc (count s is) = omega arith in
    simp (here, more, raised_before (s + 0) (suc s) is vs (omega arith)) refl
raised-bump (suc j) s is (v ∷ vs) =
    let shape : s + suc j ≡ suc s + j = omega arith in
    let other : (s == s + suc j) ≡ false = ground arith in
    simp (other, raised-bump j (suc s) is vs)
      (ap (λ k. (v + count s is) ∷ raised (k ∷ is) (suc s) vs) (sym shape))

pub bump_each-raised : (is vs : List ℕ) → bump_each is vs ≡ raised is 0 vs
unfolding bump_each
bump_each-raised [] vs = sym (raised_nothing 0 vs)
bump_each-raised (i ∷ is) vs =
    let shape : 0 + i ≡ i = omega arith in
    bump_each-raised is (bump i vs) ∙ raised-bump i 0 is vs ∙ ap (λ k. raised (k ∷ is) 0 vs) shape

-- Each value stays or grows by one.
abbrev pub IsRounding : List ℕ → List ℕ → Type 0
IsRounding [] [] = Unit
IsRounding [] (u ∷ us) = ⊥
IsRounding (v ∷ vs) [] = ⊥
IsRounding (v ∷ vs) (u ∷ us) = (v ≤ u) × (u ≤ suc v) × IsRounding vs us

pub raised-IsRounding :
    (is : List ℕ) (s : ℕ) (vs : List ℕ)
    → ((i : ℕ) → count i is ≤ 1)
    → IsRounding vs (raised is s vs)
raised-IsRounding is s [] h = tt
raised-IsRounding is s (v ∷ vs) h =
    let once = h s in (omega arith, omega arith, raised-IsRounding is (suc s) vs h)

length-bump : (i : ℕ) (vs : List ℕ) → length (bump i vs) ≡ length vs
unfolding bump
length-bump i [] = refl
length-bump zero (v ∷ vs) = refl
length-bump (suc i) (v ∷ vs) = ap suc (length-bump i vs)

sum-bump : (i : ℕ) (vs : List ℕ) → i < length vs → sum_ℕ (bump i vs) ≡ suc (sum_ℕ vs)
unfolding bump
sum-bump i [] h = omega arith
sum-bump zero (v ∷ vs) h = omega arith
sum-bump (suc i) (v ∷ vs) h = omega (arith, sum-bump i vs (omega arith))

pub sum-bump_each :
    (is vs : List ℕ) (n : ℕ)
    → length vs ≡ n
    → All (λ i. i < n) is
    → sum_ℕ (bump_each is vs) ≡ sum_ℕ vs + length is
unfolding bump_each
sum-bump_each [] vs n h k = omega arith
sum-bump_each (i ∷ is) vs n h (inside, rest) =
    omega (
      arith,
      sum-bump_each is (bump i vs) n (length-bump i vs ∙ h) rest,
      sum-bump i vs (omega arith),
    )

pub length-bump_each : (is vs : List ℕ) → length (bump_each is vs) ≡ length vs
unfolding bump_each
length-bump_each [] vs = refl
length-bump_each (i ∷ is) vs = length-bump_each is (bump i vs) ∙ length-bump i vs
