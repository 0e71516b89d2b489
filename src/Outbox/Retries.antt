-- ===== src/Outbox/Retries.antt =====
-- An event that cannot be delivered does not stay in the queue.
use filum_reforge.Base.{
  ℕ, suc, ◌+◌, ◌≤◌, ◌<◌, String, ◌≡◌, refl, ◌∙◌, true, false, some, List, [], ◌∷◌, arith,
  if◌then◌else◌, Bool-cases, inl, inr, length, leb,
}
use filum_reforge.Outbox.{
  OutboxStatus, retrying, given_up, OutboxEvent, Surroundings, is_undelivered, send_notice,
  message_of, delivery_error, mark_failure, dispatch_event, claim_event, handle_event,
}

undelivered_given_up : (status : OutboxStatus) → status ≡ given_up → is_undelivered status ≡ false
unfolding is_undelivered
undelivered_given_up status e = rw e refl

undelivered_retrying : (status : OutboxStatus) → status ≡ retrying → is_undelivered status ≡ true
unfolding is_undelivered
undelivered_retrying status e = rw e refl

too_few : (n : ℕ) → n < 5 → 5 ≤ n + 0 → ⊥
too_few n h k = omega arith

module _ (around : Surroundings) where
  -- The worker comes by at these times, and handles the event while it is undelivered.
  unfoldable pub handle_at : List ℕ → OutboxEvent → OutboxEvent
  handle_at [] event = event
  handle_at (now ∷ times) event =
      handle_at times (if is_undelivered event.status then handle_event around now event else event)

  delivery_error-claim_event :
      (now : ℕ) (event : OutboxEvent)
      → delivery_error around (claim_event around now event) ≡ delivery_error around event
  unfolding delivery_error send_notice message_of claim_event
  delivery_error-claim_event now event = refl

  delivery_error-mark_failure :
      (now : ℕ) (error : String) (event : OutboxEvent)
      → delivery_error around (mark_failure around now error event) ≡ delivery_error around event
  unfolding delivery_error send_notice message_of mark_failure
  delivery_error-mark_failure now error event = elim (Bool-cases (leb 5 event.attempt_count)) [
    | inl e ↦ rw e refl
    | inr e ↦ rw e refl
  ]

  handle_event-failing :
      (now : ℕ) (error : String) (event : OutboxEvent)
      → delivery_error around event ≡ some error
      → handle_event around now event ≡ mark_failure around now error (claim_event around now event)
  unfolding handle_event dispatch_event
  handle_event-failing now error event e =
      let same = delivery_error-claim_event now event ∙ e in rw (same, dispatch_event) refl

  handle_at-done :
      (times : List ℕ) (event : OutboxEvent)
      → is_undelivered event.status ≡ false
      → handle_at times event ≡ event
  unfolding handle_at
  handle_at-done [] event e = refl
  handle_at-done (now ∷ times) event e = rw e (handle_at-done times event e)

  mark_failure-status :
      (now : ℕ) (error : String) (event : OutboxEvent)
      → ((mark_failure around now error event).attempt_count ≡ event.attempt_count)
        × ((mark_failure around now error event).status
            ≡ (if leb 5 event.attempt_count then given_up else retrying))
  unfolding mark_failure
  mark_failure-status now error event = elim (Bool-cases (leb 5 event.attempt_count)) [
    | inl e ↦ rw e (refl, refl)
    | inr e ↦ rw e (refl, refl)
  ]

  failed_fields :
      (now : ℕ) (error : String) (event : OutboxEvent)
      → ((mark_failure around now error (claim_event around now event)).attempt_count
          ≡ suc event.attempt_count)
        × ((mark_failure around now error (claim_event around now event)).status
            ≡ (if leb 5 (suc event.attempt_count) then given_up else retrying))
  unfolding claim_event
  failed_fields now error event = mark_failure-status now error (claim_event around now event)

  handle_at-failing :
      (error : String) (times : List ℕ) (event : OutboxEvent)
      → delivery_error around event ≡ some error
      → is_undelivered event.status ≡ true
      → event.attempt_count < 5
      → 5 ≤ event.attempt_count + length times
      → ((handle_at times event).status ≡ given_up) × ((handle_at times event).attempt_count ≡ 5)
  unfolding handle_at
  handle_at-failing error [] event e o few enough =
      elim (too_few event.attempt_count few enough) [ ]
  handle_at-failing error (now ∷ times) event e o few enough =
      let claimed = claim_event around now event in
      let failed = mark_failure around now error claimed in
      let again =
        delivery_error-mark_failure now error claimed
        ∙ (delivery_error-claim_event now event ∙ e) in
      let (count, settled) = failed_fields now error event in
      rw (o, handle_event-failing now error event e, handle_at)
        (elim (Bool-cases (leb 5 (suc event.attempt_count))) [
          | inl last ↦
              let status : failed.status ≡ given_up = settled ∙ rw last refl in
              let idle = undelivered_given_up failed.status status in
              rw (handle_at-done times failed idle) (status, ground (arith, count))
          | inr more ↦
              let status : failed.status ≡ retrying = settled ∙ rw more refl in
              handle_at-failing error times failed again (undelivered_retrying failed.status status)
                (ground (arith, count)) (ground (arith, count))
        ])

-- If sending an event raises an exception each time, the event is given up after exactly five
-- attempts, however they are spread over time, and later runs leave it as it is.
pub handle_at_gives_up :
    (around : Surroundings) (event : OutboxEvent) (error : String) (times : List ℕ)
    → delivery_error around event ≡ some error
    → is_undelivered event.status ≡ true
    → event.attempt_count < 5
    → 5 ≤ event.attempt_count + length times
    → ((handle_at around times event).status ≡ given_up)
      × ((handle_at around times event).attempt_count ≡ 5)
handle_at_gives_up around event error times = handle_at-failing around error times event
