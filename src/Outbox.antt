-- ===== src/Outbox.antt =====
-- The worker that delivers workflow events as notifications
-- (backend/app/workers/workflow_outbox_worker.py). Times are seconds.
pub mod Bounds
pub mod Retries
mod Tests
use filum_reforge.Base.{
  ℕ, zero, suc, ◌+◌, ◌-◌, ◌*◌, ◌^◌, String, Bool, true, false, not, ◌&&◌, ◌||◌, Option, none, some,
  List, [], ◌∷◌, ◌==◌, if◌then◌else◌, leb, ltb, elem, select_if, take, map, length,
}
use filum_reforge.Value.{Value, Fields, end, field, field_of, get, truthy, str, text_of}
use filum_reforge.Text.{prefix}
use filum_reforge.Command.Incident.{Incident, record_incident}

pub data OutboxStatus : Type 0 where
  waiting retrying dispatched given_up : OutboxStatus

-- `WorkflowOutboxEvent`
pub record OutboxEvent : Type 0 where
  pub id : String
  pub instance_id : String
  pub event_type : String
  pub status : OutboxStatus
  pub attempt_count : ℕ
  pub available_at : Option ℕ
  pub dispatched_at : Option ℕ
  pub last_error : Option String
  pub payload : Fields
  pub created_at : ℕ

-- `NotificationMessage`, the parts that depend on the event.
pub record Message : Type 0 where
  pub source_id : String
  pub recipient_user_id : String
  pub recipient_email : String
  pub message_type : String
  pub title : String
  pub body_text : String
  pub payload : Fields

-- What the worker asks of others: the text of an exception when a message is sent, whether a
-- notification of this event exists, which rows other workers hold, and what Python computes.
pub record Surroundings : Type 0 where
  pub show : Value → String
  pub is_uuid : String → Bool
  pub send_error : Message → Option String
  pub notification_of : String → Option String
  pub is_locked : String → Bool
  pub fingerprint : String → Fields → String

abbrev pub max_attempts : ℕ
max_attempts = 5

abbrev pub batch_size : ℕ
batch_size = 50

-- `PROCESSING_VISIBILITY_TIMEOUT`
abbrev pub visibility_timeout : ℕ
visibility_timeout = 300

unfoldable pub backoff_seconds : ℕ → ℕ
backoff_seconds attempt = 30 * 2 ^ (attempt - 1)

-- PENDING or RETRYING.
unfoldable pub is_undelivered : OutboxStatus → Bool
is_undelivered waiting = true
is_undelivered retrying = true
is_undelivered _ = false

-- `str(payload.get(key, default))`
unfoldable pub text_or : (Value → String) → Fields → String → String → String
text_or show payload key default = elim (field_of key payload) [
  | none ↦ default
  | some value ↦ text_of show value
]

-- The payload without the fields that the message has of its own.
unfoldable pub without : List String → Fields → Fields
without dropped end = end
without dropped (field key value rest) =
    if elem key dropped then without dropped rest else field key value (without dropped rest)

unfoldable pub message_of : (Value → String) → String → OutboxEvent → Message
message_of show default_title event = record {
  source_id = event.instance_id;
  recipient_user_id = text_of show (get event.payload "recipient_user_id");
  recipient_email = text_of show (get event.payload "recipient_email");
  message_type = event.event_type;
  title = text_or show event.payload "title" default_title;
  body_text = text_or show event.payload "body_text" "";
  payload =
      without ("recipient_user_id" ∷ "recipient_email" ∷ "title" ∷ "body_text" ∷ []) event.payload;
}

module _ (around : Surroundings) where
  -- The text of the exception, if sending raises one.
  unfoldable pub send_notice : String → OutboxEvent → Option String
  send_notice default_title event =
      let message = message_of around.show default_title event in
      if not (truthy (get event.payload "recipient_user_id"))
        || not (truthy (get event.payload "recipient_email"))
      then some "outbox payload 缺少 recipient_user_id / recipient_email"
      else if not (around.is_uuid message.recipient_user_id)
      then some "badly formed hexadecimal UUID string"
      else around.send_error message

  -- An event of an unknown type is passed over, and counts as delivered.
  unfoldable pub delivery_error : OutboxEvent → Option String
  delivery_error event =
      if event.event_type == "workflow_node_taken_over"
      then send_notice "节点已被管理员接管" event
      else if event.event_type == "workflow_node_activated"
      then send_notice "您有待处理的工作流节点" event
      else none

  unfoldable pub mark_dispatched : ℕ → OutboxEvent → OutboxEvent
  mark_dispatched now event = record event {
    status = dispatched;
    dispatched_at = some now;
    available_at = none;
    last_error = none;
  }

  -- The `except` branch.
  unfoldable pub mark_failure : ℕ → String → OutboxEvent → OutboxEvent
  mark_failure now error event =
      let noted = record event { last_error = some (prefix 1024 error) } in
      if leb max_attempts event.attempt_count
      then record noted { status = given_up }
      else record noted {
        status = retrying;
        available_at = some (now + backoff_seconds event.attempt_count);
      }

  -- `_dispatch_event`
  unfoldable pub dispatch_event : ℕ → OutboxEvent → OutboxEvent
  dispatch_event now event = elim (delivery_error event) [
    | none ↦ mark_dispatched now event
    | some error ↦ mark_failure now error event
  ]

  -- A second notification of one event is reported as an incident.
  unfoldable pub report_duplicate : ℕ → OutboxEvent → List Incident → List Incident
  report_duplicate now event incidents = elim (delivery_error event) [
    | some error ↦ incidents
    | none ↦ elim (around.notification_of event.id) [
      | none ↦ incidents
      | some notification ↦
          record_incident "outbox_duplicate"
            (around.fingerprint "outbox_duplicate" (field "outbox_event_id" (str event.id) end))
            "warning" now (field "notification_message_id" (str notification) end) incidents
    ]
  ]

  -- The lease that is committed with the notification.
  unfoldable pub claim_event : ℕ → OutboxEvent → OutboxEvent
  claim_event now event = record event {
    attempt_count = suc event.attempt_count;
    status = retrying;
    available_at = some (now + visibility_timeout);
  }

  unfoldable pub handle_event : ℕ → OutboxEvent → OutboxEvent
  handle_event now event = dispatch_event now (claim_event now event)

  -- Status and `available_at` of the first query.
  unfoldable pub is_due : ℕ → OutboxEvent → Bool
  is_due now event =
      is_undelivered event.status && elim event.available_at [ none ↦ true | some t ↦ leb t now ]

  -- The row of the second query is handled if no other worker holds it and it is still undelivered.
  unfoldable pub can_handle : String → OutboxEvent → Bool
  can_handle id event = event.id == id && not (around.is_locked id) && is_undelivered event.status

  -- One round of the loop, with the number of events that were handled.
  unfoldable pub process_event :
      ℕ → String → List OutboxEvent → List Incident → ℕ × List OutboxEvent × List Incident
  process_event now id [] incidents = (0, [], incidents)
  process_event now id (event ∷ events) incidents =
      let (count, rest, noted) = process_event now id events incidents in
      if can_handle id event
      then (
        1,
        handle_event now event ∷ events,
        report_duplicate now (claim_event now event) incidents,
      )
      else if event.id == id
      then (0, event ∷ events, incidents)
      else (count, event ∷ rest, noted)

  -- `clock id` is the time at which the event is handled.
  unfoldable pub process_ids :
      (String → ℕ)
      → List String
      → List OutboxEvent
      → List Incident
      → ℕ × List OutboxEvent × List Incident
  process_ids clock [] events incidents = (0, events, incidents)
  process_ids clock (id ∷ ids) events incidents =
      let (count, after, noted) = process_event (clock id) id events incidents in
      let (more, last, all_noted) = process_ids clock ids after noted in
      (count + more, last, all_noted)

-- `order_by(created_at.asc())`
unfoldable pub insert_by_age : OutboxEvent → List OutboxEvent → List OutboxEvent
insert_by_age event [] = event ∷ []
insert_by_age event (other ∷ events) =
    if ltb other.created_at event.created_at
    then other ∷ insert_by_age event events
    else event ∷ other ∷ events

unfoldable pub sort_by_age : List OutboxEvent → List OutboxEvent
sort_by_age [] = []
sort_by_age (event ∷ events) = insert_by_age event (sort_by_age events)

-- The first query.
unfoldable pub pending_ids : Surroundings → ℕ → List OutboxEvent → List String
pending_ids around now events =
    map (λ event. event.id) (take batch_size (sort_by_age (select_if (is_due around now) events)))

-- `process_workflow_outbox_events`
unfoldable pub process_events :
    Surroundings
    → (String → ℕ)
    → ℕ
    → List OutboxEvent
    → List Incident
    → ℕ × List OutboxEvent × List Incident
process_events around clock now events =
    process_ids around clock (pending_ids around now events) events
