-- ===== src/Ynab/Calls.antt =====
-- Counting the requests that a statement of a sync sends (apps/server/backend/app/services/ynab.py).
use mathlib.Core.List.{append_assoc}
use ynab_receipt_analyzer.Prelude.{
  ℕ, ◌+◌, ◌≤◌, ◌≡◌, refl, sym, ◌∙◌, Bool, true, false, Option, List, [], ◌∷◌, ◌++◌, arith,
  if◌then◌else◌,
}
use ynab_receipt_analyzer.Sync.Draft.{ValidationPayload, Result, ok, err}
use ynab_receipt_analyzer.Ynab.Session.{
  Call, list_since, get, create, update, Problem, Answer, Session, Outcome, value, raised, Act,
  continue, ◌>>=◌, from_result, request, raise_if, the_row, set_row, set_payload, set_status, give,
  SyncRow, ReceiptStatus, StatusReason,
}

abbrev pub is_create : Call → Bool
is_create (create d flag) = true
is_create (list_since since) = false
is_create (get i) = false
is_create (update i u) = false

abbrev pub is_write : Call → Bool
is_write (create d flag) = true
is_write (update i u) = true
is_write (list_since since) = false
is_write (get i) = false

module _ (k : Call → Bool) where
  abbrev pub count : List Call → ℕ
  count [] = 0
  count (c ∷ cs) = (if k c then 1 else 0) + count cs

  count-append : (xs ys : List Call) → count (xs ++ ys) ≡ count xs + count ys
  count-append [] ys = omega arith
  count-append (x ∷ xs) ys = omega (arith, count-append xs ys)

  -- The requests so far, with at most `n` more of the kind.
  abbrev pub HasSent : ℕ → List Call → List Call → Type 0
  HasSent n before after = (new : List Call) × (after ≡ new ++ before) × (count new ≤ n)

  -- A statement that sends at most `n` requests of the kind, also when it raises, and works on one row.
  pub record Sends {A : Type 0} (n : ℕ) (act : Act A) : Type 0 where
    pub sent : (s : Session) → HasSent n s.calls (act s).0.calls
    pub same_row : (s : Session) → (act s).0.sync_row.id ≡ s.sync_row.id

  HasSent-more :
      (m n : ℕ) (before after : List Call) → m ≤ n → HasSent m before after → HasSent n before after
  HasSent-more m n before after le (new, e, h) = (new, e, omega arith)

  HasSent-trans :
      (m n : ℕ) (a b c : List Call) → HasSent m a b → HasSent n b c → HasSent (m + n) a c
  HasSent-trans m n a b c (new, e, h) (new', e', h') =
      (new' ++ new, e' ∙ rw e (sym (append_assoc new' new a)), omega (arith, count-append new' new))

  continue-HasSent :
      {A B : Type 0} (m n : ℕ) (before : List Call) (r : Session × Outcome A) (f : A → Act B)
      → HasSent m before r.0.calls
      → ((a : A) → Sends n (f a))
      → HasSent (m + n) before (continue r f).0.calls
  continue-HasSent m n before (s, value a) f h g =
      HasSent-trans m n before s.calls (f a s).0.calls h ((g a).sent s)
  continue-HasSent m n before (s, raised p) f h g =
      HasSent-more m (m + n) before s.calls (omega arith) h

  continue-same_row :
      {A B : Type 0} (n i : ℕ) (r : Session × Outcome A) (f : A → Act B)
      → r.0.sync_row.id ≡ i
      → ((a : A) → Sends n (f a))
      → (continue r f).0.sync_row.id ≡ i
  continue-same_row n i (s, value a) f h g = (g a).same_row s ∙ h
  continue-same_row n i (s, raised p) f h g = h

  pub bind-Sends :
      {A B : Type 0} (m n : ℕ) (act : Act A) (f : A → Act B)
      → Sends m act
      → ((a : A) → Sends n (f a))
      → Sends (m + n) (act >>= f)
  unfolding ◌>>=◌
  bind-Sends m n act f h g = record {
    sent = λ s. continue-HasSent m n s.calls (act s) f (h.sent s) g;
    same_row = λ s. continue-same_row n s.sync_row.id (act s) f (h.same_row s) g;
  }

  pub at_most : {A : Type 0} (m n : ℕ) (act : Act A) → m ≤ n → Sends m act → Sends n act
  at_most m n act le h = record {
    sent = λ s. HasSent-more m n s.calls _ le (h.sent s);
    same_row = h.same_row;
  }

  -- A statement that sends no request at all.
  pub silent :
      {A : Type 0} (act : Act A)
      → ((s : Session) → ((act s).0.calls ≡ s.calls) × ((act s).0.sync_row.id ≡ s.sync_row.id))
      → Sends 0 act
  silent act h = record { sent = λ s. ([], (h s).0, omega arith); same_row = λ s. (h s).1 }

  pub the_row-Sends : Sends 0 the_row
  the_row-Sends = silent the_row (λ s. (refl, refl))

  pub set_row-Sends : (r : SyncRow) → Sends 0 (set_row r)
  set_row-Sends r = silent (set_row r) (λ s. (refl, refl))

  pub set_payload-Sends : (p : ValidationPayload) → Sends 0 (set_payload p)
  set_payload-Sends p = silent (set_payload p) (λ s. (refl, refl))

  pub set_status-Sends :
      (status : ReceiptStatus) (reason : Option StatusReason) → Sends 0 (set_status status reason)
  set_status-Sends status reason = silent (set_status status reason) (λ s. (refl, refl))

  pub give-Sends : {A : Type 0} (a : A) → Sends 0 (give a)
  give-Sends a = silent (give a) (λ s. (refl, refl))

  -- The first statement sends nothing of the kind.
  pub then-Sends :
      {A B : Type 0} (n : ℕ) (act : Act A) (f : A → Act B)
      → Sends 0 act
      → ((a : A) → Sends n (f a))
      → Sends n (act >>= f)
  then-Sends n act f h g = at_most (0 + n) n (act >>= f) (omega arith) (bind-Sends 0 n act f h g)

  -- The second does not.
  pub last-Sends :
      {A B : Type 0} (n : ℕ) (act : Act A) (f : A → Act B)
      → Sends n act
      → ((a : A) → Sends 0 (f a))
      → Sends n (act >>= f)
  last-Sends n act f h g = at_most (n + 0) n (act >>= f) (omega arith) (bind-Sends n 0 act f h g)

  pub request-Sends :
      {A : Type 0} (n : ℕ) (call : Call) (answer : List Call → Answer A)
      → (if k call then 1 else 0) ≤ n
      → Sends n (request call answer)
  unfolding request
  request-Sends n call answer h = record {
    sent = λ s. (call ∷ [], refl, omega arith);
    same_row = λ s. refl;
  }

  pub from_result-Sends : {A : Type 0} (r : Result A) → Sends 0 (from_result r)
  from_result-Sends (ok a) = silent (from_result (ok a)) (λ s. (refl, refl))
  from_result-Sends (err e) = silent (from_result (err e)) (λ s. (refl, refl))

  pub raise_if-Sends : (b : Bool) (p : Problem) → Sends 0 (raise_if b p)
  raise_if-Sends true p = silent (raise_if true p) (λ s. (refl, refl))
  raise_if-Sends false p = silent (raise_if false p) (λ s. (refl, refl))

  pub branch-Sends :
      {A : Type 0} (n : ℕ) (b : Bool) (x y : Act A)
      → Sends n x
      → Sends n y
      → Sends n (if b then x else y)
  branch-Sends n true x y hx hy = hx
  branch-Sends n false x y hx hy = hy
