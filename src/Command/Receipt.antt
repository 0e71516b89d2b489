-- ===== src/Command/Receipt.antt =====
-- Command receipts (backend/app/services/workflow_command_receipt_service.py): a row for each actor,
-- command type and command id. Rows that other sessions commit meanwhile are an argument.
pub mod Laws
use Prim.Native.String.{◌++◌ as text_append}
use filum_reforge.Base.{
  ℕ, suc, String, Bool, true, false, not, ◌&&◌, ◌||◌, Option, none, some, List, [], ◌∷◌, ◌++◌, ◌==◌,
  if◌then◌else◌, length, ltb,
}
use filum_reforge.Value.{Fields, end}
use filum_reforge.Text.{strip, lower, char_count}
use filum_reforge.Errors.{Failure, Result, ok, raise, conflict, raise_if, ◌>>=◌, ◌>>◌}

pub data Status : Type 0 where
  processing succeeded failed : Status

-- The identity that the unique constraint covers.
pub record Key : Type 0 where
  pub actor_key : String
  pub command_type : String
  pub command_id : String

pub record Receipt : Type 0 where
  pub key : Key
  pub payload_hash : String
  pub status : Status
  pub aggregate_type : Option String
  pub aggregate_id : Option String
  pub result : Fields
  pub error : Option Failure
  pub completed_at : Option ℕ

pub record Command : Type 0 where
  pub command_id : String
  pub command_type : String
  pub payload : Fields
  pub actor_user_id : Option String
  pub system_actor : String
  pub aggregate_type : Option String
  pub aggregate_id : Option String

-- `f"user:{actor_user_id}"`, or `system:` and a stable name.
unfoldable pub actor_key : Option String → String → Result String
actor_key (some user) system_actor = ok (text_append "user:" user)
actor_key none system_actor = do
  let normalized = lower (strip system_actor)
  raise_if (normalized == "") (conflict "系统命令必须提供稳定的 system_actor。")
  let key = text_append "system:" normalized
  raise_if (ltb 64 (char_count key)) (conflict "system_actor 过长。")
  ok key

-- The checks at the head of `claim`, and the identity of the command.
unfoldable pub command_key : Command → Result Key
command_key command = do
  let command_id = strip command.command_id
  let command_type = strip command.command_type
  raise_if (command_id == "" || ltb 128 (char_count command_id))
      (conflict "command_id 不能为空且不得超过 128 个字符。")
  raise_if (command_type == "" || ltb 64 (char_count command_type))
      (conflict "command_type 不能为空且不得超过 64 个字符。")
  actor ← actor_key command.actor_user_id command.system_actor
  ok (record { actor_key = actor; command_type = command_type; command_id = command_id })

unfoldable pub same_key : Key → Key → Bool
same_key a b =
    a.actor_key == b.actor_key && a.command_type == b.command_type && a.command_id == b.command_id

-- `_find`
unfoldable pub find_receipt : Key → List Receipt → Option Receipt
find_receipt key [] = none
find_receipt key (r ∷ rs) = if same_key r.key key then some r else find_receipt key rs

-- The row of this identity, written anew.
unfoldable pub save : Receipt → List Receipt → List Receipt
save receipt [] = []
save receipt (r ∷ rs) = if same_key r.key receipt.key then receipt ∷ rs else r ∷ save receipt rs

unfoldable pub new_receipt : Key → String → Command → Receipt
new_receipt key payload_hash command = record {
  key = key;
  payload_hash = payload_hash;
  status = processing;
  aggregate_type = command.aggregate_type;
  aggregate_id = command.aggregate_id;
  result = end;
  error = none;
  completed_at = none;
}

-- How `claim` ends. `conflicting` is `CommandPayloadConflictError`, with the row that is there.
pub data Claim : Type 0 where
  fresh replay conflicting : Receipt → Claim
  refused : Failure → Claim

-- `_assert_same_payload`, and the replay that follows it.
unfoldable pub check_payload : String → Receipt → Claim
check_payload payload_hash receipt =
    if receipt.payload_hash == payload_hash then replay receipt else conflicting receipt

-- The insert, which the unique constraint refuses if another session was first.
unfoldable pub insert_receipt :
    Key → String → Command → List Receipt → List Receipt → Claim × List Receipt
insert_receipt key payload_hash command rivals receipts =
    let visible = rivals ++ receipts in
    elim (find_receipt key visible) [
      | some existing ↦ (check_payload payload_hash existing, visible)
      | none ↦
          let receipt = new_receipt key payload_hash command in (fresh receipt, receipt ∷ visible)
    ]

-- `claim` once the identity is known. `rivals` are rows that other sessions commit between the first
-- look and the insert.
unfoldable pub claim_key :
    Key → String → Command → List Receipt → List Receipt → Claim × List Receipt
claim_key key payload_hash command rivals receipts = elim (find_receipt key receipts) [
  | some existing ↦ (check_payload payload_hash existing, receipts)
  | none ↦ insert_receipt key payload_hash command rivals receipts
]

unfoldable pub claim :
    (Fields → String) → Command → List Receipt → List Receipt → Claim × List Receipt
claim hash command rivals receipts = elim (command_key command) [
  | ok key ↦ claim_key key (hash command.payload) command rivals receipts
  | raise e ↦ (refused e, receipts)
]

-- `a or b` for ids and names, `None` being the only false one.
unfoldable pub or_else : Option String → Option String → Option String
or_else (some a) b = some a
or_else none b = b

unfoldable pub complete_as :
    Status → Receipt → Fields → Option String → Option String → ℕ → Result Receipt
complete_as succeeded receipt result aggregate_type aggregate_id now = ok receipt
complete_as failed receipt result aggregate_type aggregate_id now =
    raise (conflict "已失败的 command receipt 不能改写为成功。")
complete_as processing receipt result aggregate_type aggregate_id now = ok (record receipt {
  status = succeeded;
  result = result;
  error = none;
  aggregate_type = or_else aggregate_type receipt.aggregate_type;
  aggregate_id = or_else aggregate_id receipt.aggregate_id;
  completed_at = some now;
})

unfoldable pub complete : Receipt → Fields → Option String → Option String → ℕ → Result Receipt
unfolding complete_as or_else
complete receipt = complete_as receipt.status receipt

unfoldable pub fail_as : Status → Receipt → Failure → ℕ → Result Receipt
fail_as failed receipt error now = ok receipt
fail_as succeeded receipt error now = raise (conflict "已成功的 command receipt 不能改写为失败。")
fail_as processing receipt error now =
    ok (record receipt {
      status = failed;
      result = end;
      error = some error;
      completed_at = some now;
    })

unfoldable pub fail : Receipt → Failure → ℕ → Result Receipt
unfolding fail_as
fail receipt = fail_as receipt.status receipt
