-- ===== src/Command/Executor.antt =====
-- `WorkflowCommandExecutor.execute` (backend/app/services/workflow_command_executor.py): a command
-- and its receipt in one database transaction.
pub mod Replay
pub mod Atomic
pub mod Repeat
use Prim.Native.String.{◌++◌ as text_append}
use filum_reforge.Base.{
  ℕ, suc, String, Bool, true, false, not, ◌&&◌, ◌||◌, Option, none, some, List, [], ◌∷◌, ◌++◌, ◌==◌,
  if◌then◌else◌, elem,
}
use filum_reforge.Value.{optional, Value, Fields, end, field, str, get, truthy, null}
use filum_reforge.Text.{prefix}
use filum_reforge.Errors.{Failure, Result, ok, raise, conflict}
use filum_reforge.Command.Incident.{Incident, record_incident}
use filum_reforge.Command.Receipt.{
  Status, processing, succeeded, failed, Key, Receipt, Command, Claim, fresh, replay, conflicting,
  refused, claim, save, complete, fail,
}

-- What is in the database: the receipts, the incidents, and all else that a command works on.
pub record Tables (B : Type 0) : Type 0 where
  pub receipts : List Receipt
  pub incidents : List Incident
  pub business : B

-- The rows as committed, and as the open transaction sees them.
pub record Session (B : Type 0) : Type 0 where
  pub committed : Tables B
  pub working : Tables B

-- `hashlib.sha256` over canonical JSON, and `uuid.UUID`, of which the code uses no law.
pub record Digests : Type 0 where
  pub payload_hash : Fields → String
  pub fingerprint : String → Fields → String
  pub parse_uuid : Value → Option String

-- `_REPLAYABLE_ERRORS`
unfoldable pub is_replayable : String → Bool
is_replayable type_name = elem type_name (
    "AppValidationError" ∷ "AuthenticationError" ∷ "AuthorizationError" ∷ "ConfigurationError"
    ∷ "ConflictError" ∷ "NotFoundError" ∷ [])

abbrev failed_once : String
failed_once = "该 command 已失败，不能重复执行："

-- The answer to a command whose row says `failed`.
unfoldable pub replay_failure : Option Failure → Failure
replay_failure none = conflict (text_append failed_once "命令首次执行失败。")
replay_failure (some e) =
    let message = if e.message == "" then "命令首次执行失败。" else e.message in
    if is_replayable e.type_name
    then record { type_name = e.type_name; message = message }
    else conflict (text_append failed_once message)

unfoldable pub replay_as : Status → Receipt → Result Fields
replay_as succeeded receipt = ok receipt.result
replay_as failed receipt = raise (replay_failure receipt.error)
replay_as processing receipt = raise (conflict "相同 command 正在处理中，请稍后重试。")

module _ {B : Type 0} where
  unfoldable pub commit : Session B → Session B
  commit s = record s { committed = s.working }

  unfoldable pub rollback : Session B → Session B
  rollback s = record s { working = s.committed }

  unfoldable pub set_receipts : List Receipt → Session B → Session B
  set_receipts receipts s = record s { working = record s.working { receipts = receipts } }

  -- Rows that other sessions have committed are there for this one too.
  unfoldable pub arrive : List Receipt → Session B → Session B
  arrive rivals s = record s {
    committed = record s.committed { receipts = rivals ++ s.committed.receipts };
  }

  unfoldable pub add_incident : String → String → ℕ → Fields → Session B → Session B
  add_incident category fingerprint now details s = record s {
    working = record s.working {
      incidents = record_incident category fingerprint "error" now details s.working.incidents;
    };
  }

-- The identity of an incident.
unfoldable pub incident_identity : Key → Fields
incident_identity key =
    field "actor_key" (str key.actor_key)
      (field "command_type" (str key.command_type) (field "command_id" (str key.command_id) end))

-- `aggregate_id`, or the id that the result names.
unfoldable pub resolve_aggregate_id : Digests → Command → Fields → Option String
resolve_aggregate_id digests command result = elim command.aggregate_id [
  | some id ↦ some id
  | none ↦
      let instance_id = get result "instance_id" in
      if truthy instance_id then digests.parse_uuid instance_id else none
]

module _ {B : Type 0} (digests : Digests) (now : ℕ) (command : Command) where
  -- A payload that differs: roll back, record the conflict, commit, raise.
  unfoldable pub reject_payload : Receipt → Session B → Result Fields × Session B
  reject_payload receipt s =
      let identity = incident_identity receipt.key in
      let details =
        field "original_payload_hash" (str receipt.payload_hash)
          (field "attempted_payload_hash" (str (digests.payload_hash command.payload)) end) in
      (
        raise (conflict "同一 command id 不能携带不同 payload。"),
        commit (
            add_incident "receipt_conflict" (digests.fingerprint "receipt_conflict" identity) now
              details (rollback s)),
      )

  -- An exception that is no business error is recorded as an incident.
  unfoldable pub report_failure : Receipt → Failure → Session B → Session B
  report_failure receipt e s =
      if is_replayable e.type_name
      then s
      else add_incident "coordinator_failure"
          (digests.fingerprint "coordinator_failure" (incident_identity receipt.key)) now
          (field "aggregate_type" (optional command.aggregate_type) (
            field "aggregate_id" (optional command.aggregate_id) (
              field "error_type" (str e.type_name)
                (field "error_message" (str (prefix 500 e.message)) end))))
          s

  unfoldable pub store_failure : Receipt → Failure → Session B → Result Fields × Session B
  store_failure receipt e s = elim (fail receipt e now) [
    | ok saved ↦ (
      raise e,
      commit (report_failure receipt e (set_receipts (save saved s.working.receipts) s)),
    )
    | raise e' ↦ (raise e', s)
  ]

  -- The `except` branch after the rollback: claim again, and mark the row failed unless another
  -- session has finished the command.
  unfoldable pub after_failure : Claim → Failure → Session B → Result Fields × Session B
  after_failure (fresh receipt) e s = store_failure receipt e s
  after_failure (replay receipt) e s = elim receipt.status [
    | processing ↦ store_failure receipt e s
    | _ ↦ (raise e, s)
  ]
  after_failure (conflicting receipt) e s = (
    raise (record {
      type_name = "CommandPayloadConflictError";
      message = "同一 command id 不能携带不同 payload。";
    }),
    s,
  )
  after_failure (refused e') e s = (raise e', s)

  unfoldable pub handle_exception : List Receipt → Failure → Session B → Result Fields × Session B
  handle_exception rivals e s =
      let back = rollback s in
      let (claimed, receipts) = claim digests.payload_hash command rivals back.working.receipts in
      after_failure claimed e (set_receipts receipts (arrive rivals back))

  -- The end of the `try` block: complete the receipt and commit, or the `except` branch.
  unfoldable pub finish_run :
      Receipt → List Receipt → Result Fields → Session B → Result Fields × Session B
  finish_run receipt rivals (raise e) s = handle_exception rivals e s
  finish_run receipt rivals (ok result) s =
      elim (complete receipt result command.aggregate_type
        (resolve_aggregate_id digests command result) now) [
          | raise e ↦ handle_exception rivals e s
          | ok saved ↦ (ok result, commit (set_receipts (save saved s.working.receipts) s))
        ]

  -- The operation works on all but the receipts, in the open transaction.
  unfoldable pub run :
      (B → Result Fields × B) → Receipt → List Receipt → Session B → Result Fields × Session B
  run operation receipt rivals s =
      let (outcome, business) = operation s.working.business in
      finish_run receipt rivals outcome
        (record s { working = record s.working { business = business } })

  unfoldable pub dispatch :
      (B → Result Fields × B) → List Receipt → Claim → Session B → Result Fields × Session B
  dispatch operation later (fresh receipt) s = run operation receipt later s
  dispatch operation later (replay receipt) s = (replay_as receipt.status receipt, s)
  dispatch operation later (conflicting receipt) s = reject_payload receipt s
  dispatch operation later (refused e) s = (raise e, s)

  -- `rivals` are rows that other sessions commit during the first claim, `later` such rows during the
  -- claim after a rollback.
  unfoldable pub execute :
      (B → Result Fields × B) → List Receipt → List Receipt → Session B → Result Fields × Session B
  execute operation rivals later s =
      let (claimed, receipts) = claim digests.payload_hash command rivals s.working.receipts in
      dispatch operation later claimed (set_receipts receipts (arrive rivals s))
