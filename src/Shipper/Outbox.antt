-- ===== src/Shipper/Outbox.antt =====
-- Whole passes of `send_available` (edge/pi-outbox-shipper/shipper/sender.py).
use ynab_receipt_analyzer.Prelude.{
  ℕ, suc, ◌+◌, ◌≡◌, refl, ◌∙◌, sym, ◌⊎◌, Bool, true, false, Option, none, some, List, [], ◌∷◌,
  arith, ◌==◌, length, Bool-cases, inl, inr,
}
use ynab_receipt_analyzer.Shipper.{
  DeliveryRecord, Status, pending, sent, retry, get_record, current, ensure_record, Commands,
  Config, Shipper, by_status, cleanup_local, send_one, SendSummary, Pass, done, escaped,
  clean_again, tally, attempt, visit, send_files, send_available, due_for_send,
}
use ynab_receipt_analyzer.Shipper.Delivery.{get_record-ensure_record}
use ynab_receipt_analyzer.Shipper.Passes.{cleanup_local-deliveries, itself, send_one-IsRecorded}

-- The state that a pass leaves, also where an exception escapes from it.
abbrev pub after : Pass → Shipper
after (done s sum) = s
after (escaped s e) = s

clean_again-after : (r : Shipper × Option ℕ) (sum : SendSummary) → after (clean_again r sum) ≡ r.0
clean_again-after (s, none) sum = refl
clean_again-after (s, some e) sum = refl

attempt-Keeps :
    (due : Bool) (g : ℕ) (table : List DeliveryRecord) (s : Shipper) (r : Shipper × Bool)
    (sum : SendSummary)
    → get_record g s.deliveries ≡ get_record g table
    → get_record g r.0.deliveries ≡ get_record g table
    → get_record g (after (attempt due s r sum)).deliveries ≡ get_record g table
attempt-Keeps true g table s r sum h h' = h'
attempt-Keeps false g table s r sum h h' = h

by_status-Keeps :
    (t : Status) (g : ℕ) (table : List DeliveryRecord) (p q : Pass)
    → get_record g (after p).deliveries ≡ get_record g table
    → get_record g (after q).deliveries ≡ get_record g table
    → get_record g (after (by_status t p q)).deliveries ≡ get_record g table
by_status-Keeps sent g table p q h h' = h
by_status-Keeps pending g table p q h h' = h'
by_status-Keeps retry g table p q h h' = h'

by_status-sent : (t : Status) (p q : Pass) → t ≡ sent → by_status t p q ≡ p
by_status-sent t p q h = rw h refl

Pass-cases :
    (p : Pass)
    → ((s : Shipper) × (sum : SendSummary) × (p ≡ done s sum))
      ⊎ ((s : Shipper) × (e : ℕ) × (p ≡ escaped s e))
Pass-cases (done s sum) = inl (s, sum, refl)
Pass-cases (escaped s e) = inr (s, e, refl)

cleaned-row :
    (c : Commands) (g f : ℕ) (s : Shipper) (sum : SendSummary)
    → get_record g (after (clean_again (cleanup_local c f s) sum)).deliveries
      ≡ get_record g s.deliveries
cleaned-row c g f s sum =
    rw (clean_again-after (cleanup_local c f s) sum, cleanup_local-deliveries c f s) refl

visit-others :
    (config : Config) (c : Commands) (now f g : ℕ) (s : Shipper) (sum : SendSummary)
    → (f == g) ≡ false
    → get_record g (after (visit config c now f s sum)).deliveries ≡ get_record g s.deliveries
unfolding visit
visit-others config c now f g s sum other =
    let s₁ = record s { deliveries = ensure_record f s.deliveries } in
    let kept : get_record g s₁.deliveries ≡ get_record g s.deliveries =
      get_record-ensure_record g f s.deliveries ∙ rw other refl in
    let attempted =
      attempt-Keeps (due_for_send f now s₁.deliveries) g s.deliveries s₁
        (send_one config c now f s₁) sum kept
        ((send_one-IsRecorded config c now f s₁).1 g other ∙ kept) in
    by_status-Keeps (current f s.deliveries).status g s.deliveries _ _
      (cleaned-row c g f s₁ sum ∙ kept) attempted

visit-sent :
    (config : Config) (c : Commands) (now f : ℕ) (s : Shipper) (sum : SendSummary)
    (r : DeliveryRecord)
    → get_record f s.deliveries ≡ some r
    → r.status ≡ sent
    → get_record f (after (visit config c now f s sum)).deliveries ≡ some r
unfolding visit
visit-sent config c now f s sum r h was_sent =
    let s₁ = record s { deliveries = ensure_record f s.deliveries } in
    let row : get_record f s₁.deliveries ≡ some r =
      get_record-ensure_record f f s.deliveries ∙ rw (itself f, current, h) refl in
    let marked : (current f s.deliveries).status ≡ sent = rw (current, h) was_sent in
    rw (by_status-sent (current f s.deliveries).status _ _ marked) (cleaned-row c f f s₁ sum ∙ row)

send_files-done :
    (config : Config) (c : Commands) (now f : ℕ) (fs : List ℕ) (s s' : Shipper)
    (sum sum' : SendSummary)
    → visit config c now f s sum ≡ done s' sum'
    → send_files config c now (f ∷ fs) s sum ≡ send_files config c now fs s' sum'
unfolding send_files
send_files-done config c now f fs s s' sum sum' e = rw (e, send_files) refl

send_files-escaped :
    (config : Config) (c : Commands) (now f : ℕ) (fs : List ℕ) (s s' : Shipper) (sum : SendSummary)
    (x : ℕ)
    → visit config c now f s sum ≡ escaped s' x
    → send_files config c now (f ∷ fs) s sum ≡ escaped s' x
unfolding send_files
send_files-escaped config c now f fs s s' sum x e = rw (e, send_files) refl

send_files-sent :
    (config : Config) (c : Commands) (now g : ℕ) (fs : List ℕ) (s : Shipper) (sum : SendSummary)
    (r : DeliveryRecord)
    → get_record g s.deliveries ≡ some r
    → r.status ≡ sent
    → get_record g (after (send_files config c now fs s sum)).deliveries ≡ some r
unfolding send_files
send_files-sent config c now g [] s sum r h was_sent = h
send_files-sent config c now g (f ∷ fs) s sum r h was_sent =
    let kept : get_record g (after (visit config c now f s sum)).deliveries ≡ some r =
      elim (Bool-cases (f == g)) [
        | inl e ↦
            let same : f ≡ g = ground arith in
            rw (sym same) (visit-sent config c now f s sum r (rw (sym same) at h) was_sent)
        | inr e ↦ visit-others config c now f g s sum e ∙ h
      ] in
    elim (Pass-cases (visit config c now f s sum)) [
      | inl (s', sum', e) ↦
          rw (send_files-done config c now f fs s s' sum sum' e)
            (send_files-sent config c now g fs s' sum' r (rw e at kept) was_sent)
      | inr (s', x, e) ↦ rw (send_files-escaped config c now f fs s s' sum x e) (rw e at kept)
    ]

-- A file that is marked as sent keeps its row through a whole pass, whatever the commands answer and
-- also where an exception escapes from the pass.
pub send_available-keeps_sent :
    (config : Config) (c : Commands) (now g : ℕ) (s : Shipper) (r : DeliveryRecord)
    → get_record g s.deliveries ≡ some r
    → r.status ≡ sent
    → get_record g (after (send_available config c now s)).deliveries ≡ some r
unfolding send_available
send_available-keeps_sent config c now g s r h was_sent =
    send_files-sent config c now g s.outbox s _ r h was_sent

abbrev pub total : SendSummary → ℕ
total sum = sum.sent_count + sum.failed + sum.skipped

-- A pass that ends has the total of its summary raised by this much.
abbrev Adds : ℕ → SendSummary → Pass → Type 0
Adds n sum (done s sum') = total sum' ≡ total sum + n
Adds n sum (escaped s e) = Unit

clean_again-Adds : (r : Shipper × Option ℕ) (sum : SendSummary) → Adds 1 sum (clean_again r sum)
clean_again-Adds (s, none) sum = omega arith
clean_again-Adds (s, some e) sum = tt

tally-Adds : (r : Shipper × Bool) (sum : SendSummary) → Adds 1 sum (tally r sum)
tally-Adds (s, true) sum = omega arith
tally-Adds (s, false) sum = omega arith

attempt-Adds :
    (due : Bool) (s : Shipper) (r : Shipper × Bool) (sum : SendSummary)
    → Adds 1 sum (attempt due s r sum)
attempt-Adds true s r sum = tally-Adds r sum
attempt-Adds false s r sum = omega arith

by_status-Adds :
    (t : Status) (sum : SendSummary) (p q : Pass)
    → Adds 1 sum p
    → Adds 1 sum q
    → Adds 1 sum (by_status t p q)
by_status-Adds sent sum p q h h' = h
by_status-Adds pending sum p q h h' = h'
by_status-Adds retry sum p q h h' = h'

Adds-more :
    (n : ℕ) (sum sum' : SendSummary) (p : Pass)
    → total sum' ≡ total sum + 1
    → Adds n sum' p
    → Adds (suc n) sum p
Adds-more n sum sum' (done s last) one rest = omega arith
Adds-more n sum sum' (escaped s e) one rest = tt

visit-Adds :
    (config : Config) (c : Commands) (now f : ℕ) (s : Shipper) (sum : SendSummary)
    → Adds 1 sum (visit config c now f s sum)
unfolding visit
visit-Adds config c now f s sum =
    by_status-Adds (current f s.deliveries).status sum _ _ (clean_again-Adds _ sum)
      (attempt-Adds (due_for_send f now (ensure_record f s.deliveries)) _ _ sum)

send_files-Adds :
    (config : Config) (c : Commands) (now : ℕ) (fs : List ℕ) (s : Shipper) (sum : SendSummary)
    → Adds (length fs) sum (send_files config c now fs s sum)
unfolding send_files
send_files-Adds config c now [] s sum = omega arith
send_files-Adds config c now (f ∷ fs) s sum = elim (Pass-cases (visit config c now f s sum)) [
  | inl (s', sum', e) ↦
      let one : total sum' ≡ total sum + 1 = rw e at (visit-Adds config c now f s sum) in
      rw (send_files-done config c now f fs s s' sum sum' e)
        (Adds-more (length fs) sum sum' _ one (send_files-Adds config c now fs s' sum'))
  | inr (s', x, e) ↦ rw (send_files-escaped config c now f fs s s' sum x e) tt
]

-- The summary of a pass that ends counts each file of the outbox once, as sent, failed or skipped.
pub send_available-counts :
    (config : Config) (c : Commands) (now : ℕ) (s s' : Shipper) (sum : SendSummary)
    → send_available config c now s ≡ done s' sum
    → sum.sent_count + sum.failed + sum.skipped ≡ length s.outbox
unfolding send_available
send_available-counts config c now s s' sum h =
    let zeros : SendSummary = record { sent_count = 0; failed = 0; skipped = 0 } in
    let counts = send_files-Adds config c now s.outbox s zeros in omega (arith, rw h at counts)
