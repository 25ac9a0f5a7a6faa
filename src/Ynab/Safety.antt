-- ===== src/Ynab/Safety.antt =====
-- The requests of a whole run of `sync_receipt_to_ynab` (apps/server/backend/app/services/ynab.py).
use ynab_receipt_analyzer.Prelude.{
  ℕ, any, ◌≡◌, refl, Bool, true, false, ◌&&◌, not, Option, none, some, List, [], ◌∷◌, arith,
  if◌then◌else◌,
}
use ynab_receipt_analyzer.Sync.Draft.{ValidationPayload}
use ynab_receipt_analyzer.Ynab.Session.{
  Call, Client, Problem, SyncRow, Act, ◌>>=◌, ◌>>◌, raise_if, no_budget, sync_disabled, no_token,
}
use ynab_receipt_analyzer.Ynab.Calls.{
  is_create, is_write, HasSent, Sends, at_most, silent, then-Sends, from_result-Sends,
  raise_if-Sends,
}
use ynab_receipt_analyzer.Ynab.Budget.{CountsWrites}
use ynab_receipt_analyzer.Ynab.Sync.{
  Settings, Store, Job, is_success, latest_successful_sync, Prior, no_prior, prior_of, sync_live,
  try_sync, sync_receipt_to_ynab,
}
use ynab_receipt_analyzer.Ynab.Runs.{sync-HasSent, apply_dry_run-Sends}
use ynab_receipt_analyzer.Ynab.Live.{try_sync-Sends, any_write-Sends, update_write-Sends}

reads-CountsWrites : CountsWrites is_write
reads-CountsWrites = record { lists = λ since. omega arith; gets = λ i. omega arith }

creates-CountsWrites : CountsWrites is_create
creates-CountsWrites = record { lists = λ since. omega arith; gets = λ i. omega arith }

-- Whatever YNAB answers, a run of the sync sends at most one request that writes: the requests after it are
-- those before it with new ones in front, of which at most one creates or updates a transaction. This holds for
-- all settings, jobs and stores.
pub sync_receipt_to_ynab_one_write :
    (settings : Settings) (client : Client) (job : Job) (store : Store)
    → HasSent is_write 1 store.calls (sync_receipt_to_ynab settings client job store).0.calls
sync_receipt_to_ynab_one_write settings client job store =
    sync-HasSent is_write client settings job 1 store (λ p r.
      try_sync-Sends is_write reads-CountsWrites client settings job 1 p _ (
        any_write-Sends is_write reads-CountsWrites client settings job 1 (λ i u. omega arith)
          (λ d flag. omega arith) p _))

abbrev pub has_success : List SyncRow → Bool
has_success rows = any (λ (r : SyncRow). is_success r.status) rows

latest-some :
    (rows : List SyncRow) → has_success rows ≡ true → ¬ (latest_successful_sync rows ≡ none)
unfolding latest_successful_sync
latest-some [] h e = ground arith
latest-some (r ∷ rs) h e = ground (arith, latest-some rs)

prior_of-some :
    (r : SyncRow) (latest : Option SyncRow) → ¬ (latest ≡ none) → ¬ (prior_of r latest ≡ no_prior)
prior_of-some r none h e = h refl
prior_of-some r (some p) h e = ground arith

-- While a stored row of the receipt has a successful status (a failed retry or a dry run of the same row takes
-- it away) and a create is not forced, a run creates no transaction, whatever YNAB answers.
pub sync_receipt_to_ynab_no_second_create :
    (settings : Settings) (client : Client) (job : Job) (store : Store)
    → has_success store.rows ≡ true
    → job.force_create ≡ false
    → HasSent is_create 0 store.calls (sync_receipt_to_ynab settings client job store).0.calls
sync_receipt_to_ynab_no_second_create settings client job store success force =
    sync-HasSent is_create client settings job 0 store (λ p r.
      try_sync-Sends is_create creates-CountsWrites client settings job 0 p _ (λ d.
        update_write-Sends is_create creates-CountsWrites client settings job 0 (λ i u. omega arith)
          p _ d (prior_of-some r _ (latest-some store.rows success)) force))

abbrev pub is_request : Call → Bool
is_request c = true

-- A guard that holds stops a statement; what follows it may use that it does not.
guard-Sends :
    {A : Type 0} (k : Call → Bool) (n : ℕ) (b : Bool) (problem : Problem) (m : Act A)
    → (b ≡ false → Sends k n m)
    → Sends k n (raise_if b problem >> m)
unfolding ◌>>=◌
guard-Sends k n true problem m h = at_most k 0 n _ (omega arith) (silent k _ (λ s. (refl, refl)))
guard-Sends k n false problem m h =
    then-Sends k n _ _ (raise_if-Sends k false problem) (λ done. h refl)

-- Each branch may use the test.
split-Sends :
    {A : Type 0} (k : Call → Bool) (n : ℕ) (b : Bool) (x y : Act A)
    → (b ≡ true → Sends k n x)
    → (b ≡ false → Sends k n y)
    → Sends k n (if b then x else y)
split-Sends k n true x y hx hy = hx refl
split-Sends k n false x y hx hy = hy refl

-- What must hold for a run to reach YNAB.
abbrev pub may_reach_ynab : Settings → Bool
may_reach_ynab settings =
    settings.has_budget
    && (settings.ynab_sync_enabled && (not settings.ynab_dry_run && settings.has_token))

not_blocked :
    (settings : Settings)
    → may_reach_ynab settings ≡ false
    → not settings.has_budget ≡ false
    → not settings.ynab_sync_enabled ≡ false
    → settings.ynab_dry_run ≡ false
    → not settings.has_token ≡ false
    → ⊥
not_blocked settings blocked budget enabled live token = ground arith

pub none_sent : (before after : List Call) → HasSent is_request 0 before after → after ≡ before
none_sent before after ([], e, h) = e
none_sent before after (c ∷ cs, e, h) = absurd (ground arith)

try_sync-quiet :
    (settings : Settings) (client : Client) (job : Job) (p : ValidationPayload) (prior : Prior)
    → may_reach_ynab settings ≡ false
    → Sends is_request 0 (try_sync settings client job p prior)
unfolding try_sync sync_live
try_sync-quiet settings client job p prior blocked =
    guard-Sends is_request 0 _ no_budget _ (λ budget.
      guard-Sends is_request 0 _ sync_disabled _ (λ enabled.
        then-Sends is_request 0 _ _ (from_result-Sends is_request _) (λ t.
          split-Sends is_request 0 settings.ynab_dry_run _ _
            (λ dry. apply_dry_run-Sends is_request job _ settings.flags.new_flag)
            (λ live.
              guard-Sends is_request 0 _ no_token _
                (λ token. absurd (not_blocked settings blocked budget enabled live token))))))

-- A run that may not reach YNAB, since it has no budget, the sync is disabled, it is a dry run or there is no
-- token, sends no request at all, neither to read nor to write.
pub sync_receipt_to_ynab_blocked :
    (settings : Settings) (client : Client) (job : Job) (store : Store)
    → may_reach_ynab settings ≡ false
    → (sync_receipt_to_ynab settings client job store).0.calls ≡ store.calls
sync_receipt_to_ynab_blocked settings client job store blocked = none_sent store.calls _ (
    sync-HasSent is_request client settings job 0 store
      (λ p r. try_sync-quiet settings client job p _ blocked))
