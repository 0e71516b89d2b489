-- ===== src/Outbox/Tests.antt =====
-- The worker at two concrete events.
use filum_reforge.Base.{ℕ, ◌≤◌, ◌≡◌, refl, true, false, none, some, List, [], ◌∷◌, arith, All}
use filum_reforge.Value.{end, get, truthy}
use filum_reforge.Outbox.{
  waiting, given_up, OutboxEvent, Surroundings, is_undelivered, delivery_error, send_notice,
  process_events,
}
use filum_reforge.Outbox.Bounds.{IsSound, Fits, ProgressAll, process_events_correct}
use filum_reforge.Outbox.Retries.{handle_at, handle_at_gives_up}

abbrev around : Surroundings
around = record {
  show = λ _. "";
  is_uuid = λ _. true;
  send_error = λ _. none;
  notification_of = λ _. none;
  is_locked = λ _. false;
  fingerprint = λ category _. category;
}

-- It names no recipient.
abbrev lost : OutboxEvent
lost = record {
  id = "e1";
  instance_id = "r1";
  event_type = "workflow_node_activated";
  status = waiting;
  attempt_count = 0;
  available_at = none;
  dispatched_at = none;
  last_error = none;
  payload = end;
  created_at = 1;
}

lost-IsSound : All IsSound (lost ∷ [])
unfolding IsSound Fits
lost-IsSound = (omega arith, tt)

process_events_correct_example :
    ((process_events around (λ _. 10) 10 (lost ∷ []) []).0 ≤ 50)
    × All IsSound (process_events around (λ _. 10) 10 (lost ∷ []) []).1
    × ProgressAll (lost ∷ []) (process_events around (λ _. 10) 10 (lost ∷ []) []).1
process_events_correct_example =
    process_events_correct around (λ _. 10) 10 (lost ∷ []) [] lost-IsSound

abbrev times : List ℕ
times = 10 ∷ 40 ∷ 100 ∷ 220 ∷ 460 ∷ 900 ∷ []

lost_fails :
    delivery_error around lost ≡ some "outbox payload 缺少 recipient_user_id / recipient_email"
unfolding delivery_error send_notice get truthy
lost_fails = refl

handle_at_gives_up_example :
    ((handle_at around times lost).status ≡ given_up)
    × ((handle_at around times lost).attempt_count ≡ 5)
unfolding is_undelivered
handle_at_gives_up_example =
    handle_at_gives_up around lost "outbox payload 缺少 recipient_user_id / recipient_email" times
      lost_fails refl (omega arith) (omega arith)
