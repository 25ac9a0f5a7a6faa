-- ===== src/Ynab/Live.antt =====
-- The requests of one attempt of a sync (`sync_receipt_to_ynab` of
-- apps/server/backend/app/services/ynab.py).
use ynab_receipt_analyzer.Prelude.{
  ℕ, ◌≤◌, ◌≡◌, refl, Bool, true, false, not, Option, none, some, arith, if◌then◌else◌,
}
use ynab_receipt_analyzer.Sync.Draft.{ValidationPayload}
use ynab_receipt_analyzer.Ynab.Remote.{RemoteTransaction, Desired, desired_of}
use ynab_receipt_analyzer.Ynab.Requests.{Update}
use ynab_receipt_analyzer.Ynab.Session.{
  Call, create, update, Client, no_budget, sync_disabled, no_token,
}
use ynab_receipt_analyzer.Ynab.Calls.{
  Sends, at_most, then-Sends, last-Sends, the_row-Sends, silent, give-Sends, from_result-Sends,
  raise_if-Sends, branch-Sends,
}
use ynab_receipt_analyzer.Ynab.Budget.{
  cost, CountsWrites, get-Sends, sync_update_existing-Sends, sync_match_or_create-Sends,
}
use ynab_receipt_analyzer.Ynab.Sync.{
  Settings, Job, Prior, no_prior, same_row, other_row, apply_dry_run, write_fresh, write_receipt,
  write_and_finish, after_check, check_created, sync_live, try_sync,
}
use ynab_receipt_analyzer.Ynab.Runs.{apply_post_sync-Sends, apply_dry_run-Sends}

module _ (k : Call → Bool) (reads : CountsWrites k) (client : Client) (settings : Settings)
    (job : Job) where
  module _ (n : ℕ) (p : ValidationPayload) where
    module _ (prior : Prior)
        (writes : (d : Desired) → Sends k n (write_receipt settings client job p prior d)) where
      write_and_finish-Sends :
          (d : Desired) → Sends k n (write_and_finish settings client job p prior d)
      unfolding write_and_finish
      write_and_finish-Sends d =
          last-Sends k n _ _ (writes d) (λ written. apply_post_sync-Sends k job written.0 written.1)

      after_check-Sends :
          (d : Desired) (live : Option RemoteTransaction)
          → Sends k n (after_check settings client job p prior d live)
      unfolding after_check
      after_check-Sends d none = then-Sends k n _ _ (the_row-Sends k) (λ row.
          then-Sends k n _ _ (silent k _ (λ s. (refl, refl))) (λ done. write_and_finish-Sends d))
      after_check-Sends d (some t) = then-Sends k n _ _ (the_row-Sends k) (λ row.
          then-Sends k n _ _ (silent k _ (λ s. (refl, refl)))
            (λ done. at_most k 0 n _ (omega arith) (apply_post_sync-Sends k job true none)))

      check_created-Sends :
          (d : Desired) (i : Option ℕ) → Sends k n (check_created settings client job p prior d i)
      unfolding check_created
      check_created-Sends d none = write_and_finish-Sends d
      check_created-Sends d (some i) =
          then-Sends k n _ _ (get-Sends k reads client i) (after_check-Sends d)

      sync_live-Sends : (d : Desired) → Sends k n (sync_live settings client job p prior d)
      unfolding sync_live
      sync_live-Sends d =
          then-Sends k n _ _ (raise_if-Sends k (not settings.has_token) no_token)
            (λ allowed. then-Sends k n _ _ (the_row-Sends k) (λ row. check_created-Sends d _))

      dry_or_live-Sends :
          (d : Desired)
          → Sends k n (
              if settings.ynab_dry_run
              then apply_dry_run job d settings.flags.new_flag
              else sync_live settings client job p prior d)
      dry_or_live-Sends d =
          branch-Sends k n settings.ynab_dry_run _ _
            (at_most k 0 n _ (omega arith) (apply_dry_run-Sends k job d settings.flags.new_flag))
            (sync_live-Sends d)

      pub try_sync-Sends : Sends k n (try_sync settings client job p prior)
      unfolding try_sync
      try_sync-Sends =
          then-Sends k n _ _ (raise_if-Sends k (not settings.has_budget) no_budget) (λ budget.
            then-Sends k n _ _ (raise_if-Sends k (not settings.ynab_sync_enabled) sync_disabled)
              (λ enabled.
                then-Sends k n _ _ (from_result-Sends k _) (λ t. dry_or_live-Sends (desired_of t))))

module _ (k : Call → Bool) (reads : CountsWrites k) (client : Client) (settings : Settings)
    (job : Job) (n : ℕ) (updates : (i : ℕ) (u : Update) → cost k (update i u) ≤ n) where
  -- With creates bounded too, every write is.
  module _ (creates : (d : Desired) (flag : Option ℕ) → cost k (create d flag) ≤ n) where
    write_fresh-Sends :
        (p : ValidationPayload) (d : Desired) → Sends k n (write_fresh settings client job p d)
    write_fresh-Sends p d =
        last-Sends k n _ _
          (sync_match_or_create-Sends k reads client n updates creates settings.flags
            job.allow_update_match job.force_create job.receipt_id d p)
          (λ applied. give-Sends k _)

    pub any_write-Sends :
        (p : ValidationPayload) (prior : Prior) (d : Desired)
        → Sends k n (write_receipt settings client job p prior d)
    unfolding write_receipt
    any_write-Sends p no_prior d = write_fresh-Sends p d
    any_write-Sends p same_row d = branch-Sends k n job.force_create _ _ (write_fresh-Sends p d) (
        then-Sends k n _ _ (the_row-Sends k)
          (λ row. sync_update_existing-Sends k reads client n updates settings.flags row d))
    any_write-Sends p (other_row prior) d =
        branch-Sends k n job.force_create _ _ (write_fresh-Sends p d)
          (sync_update_existing-Sends k reads client n updates settings.flags prior d)

  -- With an earlier success and no forced create.
  pub update_write-Sends :
      (p : ValidationPayload) (prior : Prior) (d : Desired)
      → ¬ (prior ≡ no_prior)
      → job.force_create ≡ false
      → Sends k n (write_receipt settings client job p prior d)
  unfolding write_receipt
  update_write-Sends p no_prior d h force = absurd (h refl)
  update_write-Sends p same_row d h force = rw force (
      then-Sends k n _ _ (the_row-Sends k)
        (λ row. sync_update_existing-Sends k reads client n updates settings.flags row d))
  update_write-Sends p (other_row prior) d h force =
      rw force (sync_update_existing-Sends k reads client n updates settings.flags prior d)
