-- ===== src/Shipper/Passes.antt =====
-- One file, and one pass over the outbox (edge/pi-outbox-shipper/shipper/sender.py).
use ynab_receipt_analyzer.Prelude.{
  ℕ, ◌≡◌, refl, ◌∙◌, ◌⊎◌, Bool, true, false, Option, none, some, List, arith, ◌==◌, Option-cases,
  inl, inr,
}
use ynab_receipt_analyzer.Shipper.{
  DeliveryRecord, get_record, current, retried, delivered, conclude, unless, unless_there, choose,
  mark_sent, Commands, Answer, raised, answered, Config, Shipper, cleanup_local, finish, try_send,
  fail_send, send_one, backoff_of,
}
use ynab_receipt_analyzer.Shipper.Delivery.{row_of, get_record-mark_sent, get_record-mark_retry}

pub cleanup_local-deliveries :
    (c : Commands) (f : ℕ) (s : Shipper) → (cleanup_local c f s).0.deliveries ≡ s.deliveries
unfolding cleanup_local
cleanup_local-deliveries c f s = elim (Option-cases (c.remove_local f)) [
  | inl e ↦ rw (e, cleanup_local) refl
  | inr (x, e) ↦ rw (e, cleanup_local) refl
]

-- An attempt marks the file as sent, or it raises and leaves the table alone.
abbrev HasTried : ℕ → ℕ → Shipper → Shipper × Option ℕ → Type 0
HasTried now f s (s', failure) =
    (s'.deliveries ≡ mark_sent f now s.deliveries)
    ⊎ ((s'.deliveries ≡ s.deliveries) × ((e : ℕ) × (failure ≡ some e)))

finish-HasTried : (c : Commands) (now f : ℕ) (s : Shipper) → HasTried now f s (finish c now f s)
unfolding finish
finish-HasTried c now f s = inl (cleanup_local-deliveries c f _)

unless-HasTried :
    (o : Option ℕ) (now f : ℕ) (s : Shipper) (r : Shipper × Option ℕ)
    → HasTried now f s r
    → HasTried now f s (unless o s r)
unless-HasTried none now f s r h = h
unless-HasTried (some e) now f s r h = inr (refl, (e, refl))

unless_there-HasTried :
    (a : Answer) (now f : ℕ) (s : Shipper) (r r' : Shipper × Option ℕ)
    → HasTried now f s r
    → HasTried now f s r'
    → HasTried now f s (unless_there a s r r')
unless_there-HasTried (raised e) now f s r r' h h' = inr (refl, (e, refl))
unless_there-HasTried (answered true) now f s r r' h h' = h
unless_there-HasTried (answered false) now f s r r' h h' = h'

choose-HasTried :
    (b : Bool) (now f : ℕ) (s : Shipper) (r r' : Shipper × Option ℕ)
    → HasTried now f s r
    → HasTried now f s r'
    → HasTried now f s (choose b r r')
choose-HasTried true now f s r r' h h' = h
choose-HasTried false now f s r r' h h' = h'

try_send-HasTried :
    (config : Config) (c : Commands) (now f : ℕ) (s : Shipper)
    → HasTried now f s (try_send config c now f s)
unfolding try_send
try_send-HasTried config c now f s =
    let finished = finish-HasTried c now f s in
    choose-HasTried config.dry_run now f s _ _ finished (
      unless-HasTried c.ensure_remote_dirs now f s _ (
        unless_there-HasTried (c.remote_file_exists f) now f s _ _ finished (
          unless-HasTried (c.rsync_to_remote f) now f s _ (
            choose-HasTried config.rsync_dry_run now f s _ _ finished
              (unless-HasTried (c.promote_remote f) now f s _ finished)))))

-- The row that `_send_one` leaves for the file.
abbrev pub IsRecorded : Config → ℕ → ℕ → Shipper → Shipper × Bool → Type 0
IsRecorded config now f s (s', true) =
    get_record f s'.deliveries ≡ some (delivered now (row_of f s.deliveries))
IsRecorded config now f s (s', false) =
    (e : ℕ) × (r : DeliveryRecord) × (get_record f s'.deliveries
      ≡ some (retried e (backoff_of config f s.deliveries) now r))
    × (r.attempts ≡ (current f s.deliveries).attempts)

pub itself : (f : ℕ) → (f == f) ≡ true
itself f = ground arith

attempts-mark_sent :
    (f now : ℕ) (table : List DeliveryRecord)
    → (current f (mark_sent f now table)).attempts ≡ (current f table).attempts
attempts-mark_sent f now table = rw (current, get_record-mark_sent f f now table, itself f) refl

fail_send-IsRecorded :
    (config : Config) (now f : ℕ) (s s' : Shipper) (e : ℕ)
    → (current f s'.deliveries).attempts ≡ (current f s.deliveries).attempts
    → IsRecorded config now f s (fail_send config now f s' e, false)
unfolding fail_send
fail_send-IsRecorded config now f s s' e same = (
  e,
  row_of f s'.deliveries,
  (get_record-mark_retry f f e _ now s'.deliveries ∙ rw (itself f, same) refl),
  same,
)

conclude-IsRecorded :
    (config : Config) (now f : ℕ) (s : Shipper) (r : Shipper × Option ℕ)
    → HasTried now f s r
    → IsRecorded config now f s (conclude config now f r)
conclude-IsRecorded config now f s (s', none) (inl h) =
    rw h (get_record-mark_sent f f now s.deliveries ∙ ground arith)
conclude-IsRecorded config now f s (s', none) (inr (same, (e, h))) = absurd cc
conclude-IsRecorded config now f s (s', some e) (inl h) =
    fail_send-IsRecorded config now f s s' e (rw h (attempts-mark_sent f now s.deliveries))
conclude-IsRecorded config now f s (s', some e) (inr (h, why)) =
    fail_send-IsRecorded config now f s s' e (rw h refl)

conclude-others :
    (config : Config) (now f : ℕ) (s : Shipper) (r : Shipper × Option ℕ)
    → HasTried now f s r
    → (g : ℕ) → (f == g) ≡ false
    → get_record g (conclude config now f r).0.deliveries ≡ get_record g s.deliveries
unfolding fail_send
conclude-others config now f s (s', none) (inl h) g other =
    rw h (get_record-mark_sent g f now s.deliveries ∙ rw other refl)
conclude-others config now f s (s', none) (inr (same, (e, h))) g other = absurd cc
conclude-others config now f s (s', some e) (inl h) g other =
    get_record-mark_retry g f e _ now s'.deliveries
    ∙ rw (other, h) (get_record-mark_sent g f now s.deliveries ∙ rw other refl)
conclude-others config now f s (s', some e) (inr (h, why)) g other =
    get_record-mark_retry g f e _ now s'.deliveries ∙ rw (other, h) refl

pub send_one-IsRecorded :
    (config : Config) (c : Commands) (now f : ℕ) (s : Shipper)
    → IsRecorded config now f s (send_one config c now f s)
      × ((g : ℕ)
          → (f == g) ≡ false
          → get_record g (send_one config c now f s).0.deliveries ≡ get_record g s.deliveries)
unfolding send_one
send_one-IsRecorded config c now f s =
    let tried = try_send-HasTried config c now f s in
    (
      conclude-IsRecorded config now f s (try_send config c now f s) tried,
      conclude-others config now f s (try_send config c now f s) tried,
    )
