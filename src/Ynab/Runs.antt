-- ===== src/Ynab/Runs.antt =====
-- The requests of a run of `sync_receipt_to_ynab` (apps/server/backend/app/services/ynab.py), from those of its
-- attempt.
use ynab_receipt_analyzer.Prelude.{
  ℕ, suc, length, refl, Bool, true, false, Option, none, some, List, [], arith, if◌then◌else◌,
}
use ynab_receipt_analyzer.Sync.Draft.{ValidationPayload}
use ynab_receipt_analyzer.Ynab.Remote.{Desired}
use ynab_receipt_analyzer.Ynab.Session.{
  Call, Client, Problem, SyncRow, Session, Outcome, value, raised,
}
use ynab_receipt_analyzer.Ynab.Calls.{
  HasSent, Sends, then-Sends, the_row-Sends, silent, set_status-Sends, give-Sends,
}
use ynab_receipt_analyzer.Ynab.Sync.{
  Settings, Validation, Store, Job, latest_successful_sync, new_row, prior_of, Report,
  apply_post_sync, apply_dry_run, try_sync, conclude, claim, Result, run_claimed, sync_validation,
  run_row, sync_draft, unless_duplicate, checked_store, sync_receipt_to_ynab,
}

module _ (k : Call → Bool) (job : Job) where
  pub apply_post_sync-Sends :
      (applied : Bool) (why : Option Problem) → Sends k 0 (apply_post_sync job applied why)
  unfolding apply_post_sync
  apply_post_sync-Sends applied why = then-Sends k 0 _ _ (the_row-Sends k) (λ row.
      then-Sends k 0 _ _ (silent k _ (λ s. (refl, refl)))
        (λ noted. then-Sends k 0 _ _ (set_status-Sends k _ _) (λ done. give-Sends k _)))

  pub apply_dry_run-Sends : (d : Desired) (flag : Option ℕ) → Sends k 0 (apply_dry_run job d flag)
  unfolding apply_dry_run
  apply_dry_run-Sends d flag = then-Sends k 0 _ _ (the_row-Sends k) (λ row.
      then-Sends k 0 _ _ (silent k _ (λ s. (refl, refl)))
        (λ noted. then-Sends k 0 _ _ (set_status-Sends k _ _) (λ done. give-Sends k _)))

module _ (k : Call → Bool) (client : Client) (settings : Settings) (job : Job) where
  unchanged : (n : ℕ) (calls : List Call) → HasSent k n calls calls
  unchanged n calls = ([], refl, omega arith)

  conclude-HasSent :
      (n : ℕ) (calls : List Call) (out : Session × Outcome Report)
      → HasSent k n calls out.0.calls
      → HasSent k n calls (conclude job out).0.calls
  conclude-HasSent n calls (s, value r) h = h
  conclude-HasSent n calls (s, raised e) h = h

  -- What each attempt sends is bounded, so what the run sends is.
  module _ (n : ℕ) (store : Store)
      (tries : (p : ValidationPayload) (r : SyncRow)
        → Sends k n
            (try_sync settings client job p (prior_of r (latest_successful_sync store.rows)))) where
    run_claimed-HasSent :
        (v : Validation) (r : SyncRow)
        → HasSent k n store.calls (run_claimed settings client job v store r).0.calls
    unfolding run_claimed
    run_claimed-HasSent v r =
        conclude-HasSent n store.calls _ ((tries v.payload r).sent (claim job v store.calls r))

    -- A part of a run that ends in one of two ways.
    either_way :
        (b : Bool) (x y : Store × Result)
        → HasSent k n store.calls x.0.calls
        → HasSent k n store.calls y.0.calls
        → HasSent k n store.calls (if b then x else y).0.calls
    either_way true x y hx hy = hx
    either_way false x y hx hy = hy

    run_row-HasSent :
        (v : Validation) (row : Option SyncRow)
        → HasSent k n store.calls (run_row settings client job v store row).0.calls
    unfolding run_row
    run_row-HasSent v none = run_claimed-HasSent v (new_row (suc (length store.rows)) v.id job)
    run_row-HasSent v (some r) =
        either_way _ _ _ (unchanged n store.calls) (run_claimed-HasSent v r)

    unless_duplicate-HasSent :
        (i : Option ℕ) (rest : Store × Result)
        → HasSent k n store.calls rest.0.calls
        → HasSent k n store.calls (unless_duplicate i store rest).0.calls
    unless_duplicate-HasSent none rest h = h
    unless_duplicate-HasSent (some i) rest h = unchanged n store.calls

  module _ (n : ℕ) (store : Store)
      (tries : (p : ValidationPayload) (r : SyncRow)
        → Sends k n
            (try_sync settings client job p (prior_of r (latest_successful_sync store.rows)))) where
    sync_draft-HasSent :
        (v : Option Validation)
        → HasSent k n store.calls (sync_draft settings client job store v).0.calls
    unfolding sync_draft sync_validation
    sync_draft-HasSent none = unchanged n store.calls
    sync_draft-HasSent (some v) =
        either_way n (checked_store job store) tries v.is_valid _ _
          (unless_duplicate-HasSent n (checked_store job store) tries job.duplicate_of _
            (run_row-HasSent n (checked_store job store) tries v _))
          (unchanged n store.calls)

    pub sync-HasSent :
        HasSent k n store.calls (sync_receipt_to_ynab settings client job store).0.calls
    unfolding sync_receipt_to_ynab
    sync-HasSent = sync_draft-HasSent store.validation
