-- ===== src/Ynab/Budget.antt =====
-- The requests of the steps of a sync (apps/server/backend/app/services/ynab.py). A parameter `k` says
-- which requests are counted; reads are not.
use ynab_receipt_analyzer.Prelude.{
  ℕ, ◌≤◌, refl, Bool, true, false, Option, none, some, List, [], ◌∷◌, arith, if◌then◌else◌,
  Bool-cases, Option-cases, inl, inr,
}
use ynab_receipt_analyzer.Money.{milliunits_to_dollars}
use ynab_receipt_analyzer.Money.Decimals.{Decimal}
use ynab_receipt_analyzer.Sync.Text.{Text}
use ynab_receipt_analyzer.Sync.Draft.{ValidationPayload, is_empty}
use ynab_receipt_analyzer.Ynab.Remote.{
  RemoteSplit, RemoteTransaction, Desired, active, ynab_has_user_data,
}
use ynab_receipt_analyzer.Ynab.Requests.{Update}
use ynab_receipt_analyzer.Ynab.Session.{
  Call, list_since, get, create, update, Answer, answered, conflict, not_found, failed, Client,
  SyncRow, Act, list_transactions_since, get_transaction_by_id, update_transaction, found, checked,
  raise, no_date,
}
use ynab_receipt_analyzer.Ynab.Writes.{
  Flags, is_resolution, resolve_conflict, adopt_splits, adopt_category, adopt_active, adopted_base,
  adopt_payload, is_mixed, settle_create, create_transaction_idempotent,
  update_or_replace_transaction, ask_for, look_up, find_existing, find_exact_transaction_match,
  sync_update_existing, deleted_before, adopt_transaction, overwrite, update_matched, create_new,
  candidates_for, match_or_create_with, sync_match_or_create, match_or_create_on, or_else, locate,
  update_found,
}
use ynab_receipt_analyzer.Ynab.Calls.{
  Sends, silent, at_most, then-Sends, last-Sends, request-Sends, the_row-Sends, set_payload-Sends,
  set_status-Sends, give-Sends,
}

abbrev pub cost : (Call → Bool) → Call → ℕ
cost k c = if k c then 1 else 0

-- Reads are not counted.
pub record CountsWrites (k : Call → Bool) : Type 0 where
  pub lists : (since : Option ℕ) → cost k (list_since since) ≤ 0
  pub gets : (i : ℕ) → cost k (get i) ≤ 0

module _ (k : Call → Bool) (float_text : Decimal → Decimal) where
  adopt_splits-Sends : (ss : List RemoteSplit) → Sends k 0 (adopt_splits float_text ss)
  unfolding adopt_splits
  adopt_splits-Sends [] = silent k _ (λ s. (refl, refl))
  adopt_splits-Sends (x ∷ xs) = elim (Option-cases (milliunits_to_dollars float_text x.amount)) [
    | inl e ↦ rw (e, adopt_splits) (silent k _ (λ s. (refl, refl)))
    | inr (d, e) ↦
        rw (e, adopt_splits)
          (then-Sends k 0 _ _ (adopt_splits-Sends xs) (λ rest. silent k _ (λ s'. (refl, refl))))
  ]

  adopt_category-Sends :
      (base : ValidationPayload) (c : Option ℕ) → Sends k 0 (adopt_category base c)
  adopt_category-Sends base none = silent k _ (λ s. (refl, refl))
  adopt_category-Sends base (some c) =
      then-Sends k 0 _ _ (set_payload-Sends k _) (λ done. give-Sends k true)

  adopt_active-Sends :
      (base : ValidationPayload) (ss : List RemoteSplit) (mixed : Bool)
      → Sends k 0 (adopt_active float_text base ss mixed)
  adopt_active-Sends base ss true =
      then-Sends k 0 _ _ (set_status-Sends k _ _) (λ done. give-Sends k false)
  adopt_active-Sends base ss false =
      then-Sends k 0 _ _ (adopt_splits-Sends ss)
        (λ found_splits. then-Sends k 0 _ _ (set_payload-Sends k _) (λ done. give-Sends k true))

  pub adopt_payload-Sends :
      (t : RemoteTransaction) (p : ValidationPayload) → Sends k 0 (adopt_payload float_text t p)
  unfolding adopt_payload
  adopt_payload-Sends t p = elim (Bool-cases (is_empty (active t.subtransactions))) [
    | inl e ↦ rw e (adopt_category-Sends (adopted_base t p) t.category_id)
    | inr e ↦ rw e (
        adopt_active-Sends (adopted_base t p) (active t.subtransactions)
          (is_mixed (active t.subtransactions)))
  ]

module _ (k : Call → Bool) (reads : CountsWrites k) (client : Client) where
  checked-Sends : {A : Type 0} (a : Answer A) → Sends k 0 (checked a)
  checked-Sends a = silent k _ (λ s. (refl, refl))

  found-Sends : (a : Answer RemoteTransaction) → Sends k 0 (found client a)
  found-Sends (answered t) = silent k _ (λ s. (refl, refl))
  found-Sends conflict = silent k _ (λ s. (refl, refl))
  found-Sends not_found = silent k _ (λ s. (refl, refl))
  found-Sends (failed n) = silent k _ (λ s. (refl, refl))

  list-Sends : (since : Option ℕ) → Sends k 0 (list_transactions_since client since)
  list-Sends since =
      then-Sends k 0 _ _ (request-Sends k 0 (list_since since) _ (reads.lists since)) checked-Sends

  pub get-Sends : (i : ℕ) → Sends k 0 (get_transaction_by_id client i)
  get-Sends i = then-Sends k 0 _ _ (request-Sends k 0 (get i) _ (reads.gets i)) found-Sends

  resolve_conflict-Sends :
      (receipt_id : Text) (ts : List RemoteTransaction) → Sends k 0 (resolve_conflict receipt_id ts)
  unfolding resolve_conflict
  resolve_conflict-Sends receipt_id [] = silent k _ (λ s. (refl, refl))
  resolve_conflict-Sends receipt_id (t ∷ ts) = elim (Bool-cases (is_resolution receipt_id t)) [
    | inl e ↦ rw e (silent k _ (λ s. (refl, refl)))
    | inr e ↦ rw e (resolve_conflict-Sends receipt_id ts)
  ]

  ask_for-Sends : (d : Desired) (flag : Option ℕ) → Sends k 0 (ask_for client d flag)
  ask_for-Sends d flag =
      then-Sends k 0 _ _ (the_row-Sends k) (λ row. silent k _ (λ s. (refl, refl)))

  settle_create-Sends :
      (receipt_id : Text) (d : Desired) (a : Answer (Option RemoteTransaction))
      → Sends k 0 (settle_create client receipt_id d a)
  unfolding settle_create
  settle_create-Sends receipt_id d (answered t) = silent k _ (λ s. (refl, refl))
  settle_create-Sends receipt_id d conflict =
      then-Sends k 0 _ _ (list-Sends d.date) (resolve_conflict-Sends receipt_id)
  settle_create-Sends receipt_id d not_found = silent k _ (λ s. (refl, refl))
  settle_create-Sends receipt_id d (failed n) = silent k _ (λ s. (refl, refl))

  look_up-Sends : (target : Option ℕ) → Sends k 0 (look_up client target)
  look_up-Sends none = silent k _ (λ s. (refl, refl))
  look_up-Sends (some i) = get-Sends i

  find_exact-Sends :
      (d : Desired) (since : Option ℕ) → Sends k 0 (find_exact_transaction_match client d since)
  find_exact-Sends d since =
      then-Sends k 0 _ _ (list-Sends since) (λ ts. silent k _ (λ s. (refl, refl)))

  located-Sends :
      (target : Option ℕ) (previous : Desired) (since : Option ℕ) (live : Option RemoteTransaction)
      → Sends k 0 (locate client target previous since live)
  located-Sends target previous since (some t) = silent k _ (λ s. (refl, refl))
  located-Sends target previous since none =
      then-Sends k 0 _ _ (find_exact-Sends previous since) (λ exact. silent k _ (λ s. (refl, refl)))

  find_existing-Sends : (prior : SyncRow) (d : Desired) → Sends k 0 (find_existing client prior d)
  unfolding find_existing
  find_existing-Sends prior d =
      then-Sends k 0 _ _
        (look_up-Sends (or_else prior.created_transaction_id prior.matched_transaction_id))
        (located-Sends _ _ _)

  candidates_for-Sends :
      (force : Bool) (d : Desired) (payee : Text) (day : ℕ)
      → Sends k 0 (candidates_for client force d payee day)
  candidates_for-Sends true d payee day = silent k _ (λ s. (refl, refl))
  candidates_for-Sends false d payee day =
      then-Sends k 0 _ _ (list-Sends d.date) (λ ts. silent k _ (λ s. (refl, refl)))

  -- With at most `n` for each update.
  module _ (n : ℕ) (updates : (i : ℕ) (u : Update) → cost k (update i u) ≤ n) where
    update-Sends : (i : ℕ) (u : Update) → Sends k n (update_transaction client i u)
    update-Sends i u =
        last-Sends k n _ _ (request-Sends k n (update i u) _ (updates i u)) checked-Sends

    update_or_replace-Sends :
        (i : ℕ) (d : Desired) (flag : Option ℕ) (t : RemoteTransaction)
        → Sends k n (update_or_replace_transaction client i d flag t)
    unfolding update_or_replace_transaction
    update_or_replace-Sends i d flag t = last-Sends k n _ _ (update-Sends i _) (λ answer.
        then-Sends k 0 _ _ (the_row-Sends k)
          (λ row. then-Sends k 0 _ _ (silent k _ (λ s. (refl, refl))) (λ done. give-Sends k _)))

    overwrite-Sends :
        (flags : Flags) (d : Desired) (i : ℕ) (t : RemoteTransaction)
        → Sends k n (overwrite client flags d i t)
    overwrite-Sends flags d i t =
        then-Sends k n _ _ (ask_for-Sends d flags.updated_flag)
          (λ asked. update_or_replace-Sends i d flags.updated_flag t)

    no_more : {A : Type 0} (m : Act A) → Sends k 0 m → Sends k n m
    no_more m h = at_most k 0 n m (omega arith) h

    update_found-Sends :
        (flags : Flags) (d : Desired) (existing : Option (ℕ × RemoteTransaction))
        → Sends k n (update_found client flags d existing)
    update_found-Sends flags d none = no_more (deleted_before client d) (
        then-Sends k 0 _ _ (ask_for-Sends d none) (λ asked.
          then-Sends k 0 _ _ (the_row-Sends k)
            (λ row. then-Sends k 0 _ _ (silent k _ (λ s. (refl, refl))) (λ done. give-Sends k _))))
    update_found-Sends flags d (some (i, t)) =
        last-Sends k n _ _ (overwrite-Sends flags d i t) (λ applied. give-Sends k _)

    -- The update of an earlier transaction sends at most `n`, and never creates.
    pub sync_update_existing-Sends :
        (flags : Flags) (prior : SyncRow) (d : Desired)
        → Sends k n (sync_update_existing client flags prior d)
    unfolding sync_update_existing
    sync_update_existing-Sends flags prior d =
        then-Sends k n _ _ (find_existing-Sends prior d) (update_found-Sends flags d)

    adopt_transaction-Sends :
        (flags : Flags) (receipt_id : Text) (p : ValidationPayload) (t : RemoteTransaction)
        → Sends k n (adopt_transaction client flags receipt_id p t)
    unfolding adopt_transaction
    adopt_transaction-Sends flags receipt_id p t = then-Sends k n _ _ (ask_for-Sends _ _) (λ asked.
        last-Sends k n _ _ (update-Sends t.id _) (λ answer.
          then-Sends k 0 _ _ (the_row-Sends k) (λ row.
            then-Sends k 0 _ _ (silent k _ (λ s. (refl, refl)))
              (λ written. adopt_payload-Sends k client.float_text t p))))

    update_matched-Sends :
        (flags : Flags) (receipt_id : Text) (d : Desired) (p : ValidationPayload)
        (t : RemoteTransaction)
        → Sends k n (update_matched client flags receipt_id d p t)
    unfolding update_matched
    update_matched-Sends flags receipt_id d p t = elim (Bool-cases (ynab_has_user_data t d)) [
      | inl e ↦ rw e (adopt_transaction-Sends flags receipt_id p t)
      | inr e ↦ rw e (overwrite-Sends flags d t.id t)
    ]

    module _ (creates : (d : Desired) (flag : Option ℕ) → cost k (create d flag) ≤ n) where
      create_new-Sends :
          (flags : Flags) (receipt_id : Text) (d : Desired)
          → Sends k n (create_new client flags receipt_id d)
      unfolding create_new create_transaction_idempotent
      create_new-Sends flags receipt_id d =
          then-Sends k n _ _ (ask_for-Sends d flags.new_flag) (λ asked.
            last-Sends k n _ _
              (last-Sends k n _ _
                (request-Sends k n (create d flags.new_flag) _ (creates d flags.new_flag))
                (settle_create-Sends receipt_id d))
              (λ answer. then-Sends k 0 _ _ (the_row-Sends k) (λ row.
                then-Sends k 0 _ _ (silent k _ (λ s. (refl, refl))) (λ done. give-Sends k _))))

      match_or_create_with-Sends :
          (flags : Flags) (allow : Bool) (receipt_id : Text) (d : Desired) (p : ValidationPayload)
          (matched : Option RemoteTransaction)
          → Sends k n (match_or_create_with client flags allow receipt_id d p matched)
      match_or_create_with-Sends flags allow receipt_id d p none =
          create_new-Sends flags receipt_id d
      match_or_create_with-Sends flags true receipt_id d p (some t) =
          update_matched-Sends flags receipt_id d p t
      match_or_create_with-Sends flags false receipt_id d p (some t) =
          create_new-Sends flags receipt_id d

      match_or_create_on-Sends :
          (flags : Flags) (allow force : Bool) (receipt_id : Text) (d : Desired)
          (p : ValidationPayload) (day : Option ℕ)
          → Sends k n (match_or_create_on client flags allow force receipt_id d p day)
      match_or_create_on-Sends flags allow force receipt_id d p none =
          no_more (raise no_date) (silent k _ (λ s. (refl, refl)))
      match_or_create_on-Sends flags allow force receipt_id d p (some day) =
          then-Sends k n _ _ (candidates_for-Sends force d p.payee_name day)
            (match_or_create_with-Sends flags allow receipt_id d p)

      pub sync_match_or_create-Sends :
          (flags : Flags) (allow force : Bool) (receipt_id : Text) (d : Desired)
          (p : ValidationPayload)
          → Sends k n (sync_match_or_create client flags allow force receipt_id d p)
      unfolding sync_match_or_create
      sync_match_or_create-Sends flags allow force receipt_id d p =
          match_or_create_on-Sends flags allow force receipt_id d p d.date
