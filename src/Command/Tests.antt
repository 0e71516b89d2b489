-- ===== src/Command/Tests.antt =====
-- Runs of the executor over a counter, and its theorems at concrete commands.
use filum_reforge.Base.{ℕ, suc, ◌≡◌, ◌⊎◌, refl, none, some, [], ◌∷◌}
use filum_reforge.Value.{Fields, end, field, str}
use filum_reforge.Text.{strip, lower, char_count}
use filum_reforge.Errors.{Result, ok, raise, conflict, not_found}
use filum_reforge.Command.Receipt.{
  Receipt, Command, Key, command_key, actor_key, claim, claim_key, insert_receipt, new_receipt,
  find_receipt, same_key, complete, fail, save, processing, succeeded, failed,
}
use filum_reforge.Command.Receipt.Laws.{complete-fail_once}
use filum_reforge.Command.Executor.{
  Session, Tables, Digests, execute, arrive, commit, rollback, set_receipts, dispatch, run,
  finish_run, resolve_aggregate_id, handle_exception, after_failure, store_failure,
}
use filum_reforge.Command.Executor.Replay.{execute_once}
use filum_reforge.Command.Executor.Atomic.{execute_atomic}

abbrev digests : Digests
digests = record {
  payload_hash = λ _. "hash";
  fingerprint = λ category _. category;
  parse_uuid = λ _. none;
}

abbrev command : Command
command = record {
  command_id = " c-1 ";
  command_type = "complete_node";
  payload = end;
  actor_user_id = none;
  system_actor = "Worker";
  aggregate_type = some "workflow_node";
  aggregate_id = some "n-1";
}

abbrev key : Key
key = record { actor_key = "system:worker"; command_type = "complete_node"; command_id = "c-1" }

abbrev start : Session ℕ
start =
    let tables : Tables ℕ = record { receipts = []; incidents = []; business = 7 } in
    record { committed = tables; working = tables }

abbrev answer : Fields
answer = field "state" (str "done") end

abbrev count_up : ℕ → Result Fields × ℕ
count_up n = (ok answer, suc n)

abbrev count_and_fail : ℕ → Result Fields × ℕ
count_and_fail n = (raise (not_found "节点不存在。"), suc n)

abbrev done_row : Receipt
done_row = record {
  key = key;
  payload_hash = "hash";
  status = succeeded;
  aggregate_type = some "workflow_node";
  aggregate_id = some "n-1";
  result = answer;
  error = none;
  completed_at = some 5;
}

abbrev done : Session ℕ
done =
    let tables : Tables ℕ = record { receipts = done_row ∷ []; incidents = []; business = 8 } in
    record { committed = tables; working = tables }

runs : execute digests 5 command count_up [] [] start ≡ (ok answer, done)
unfolding execute claim command_key actor_key strip lower char_count claim_key insert_receipt
    new_receipt find_receipt same_key arrive set_receipts dispatch run finish_run complete
    resolve_aggregate_id commit save
runs = refl

execute_once_example :
    execute digests 9 command count_and_fail [] [] done ≡ (ok answer, arrive [] done)
execute_once_example =
    execute_once digests 5 command count_up [] [] start done answer runs count_and_fail [] [] 9

fails : (execute digests 5 command count_and_fail [] [] start).0 ≡ raise (not_found "节点不存在。")
unfolding execute claim command_key actor_key strip lower char_count claim_key insert_receipt
    new_receipt find_receipt same_key arrive set_receipts dispatch run finish_run handle_exception
    rollback after_failure store_failure fail
fails = refl

execute_atomic_example :
    (execute digests 5 command count_and_fail [] [] start).1.committed.business ≡ 7
execute_atomic_example =
    execute_atomic digests 5 command count_and_fail [] [] start (not_found "节点不存在。") fails

complete-fail_once_example :
    (complete done_row end none none 9 ≡ ok done_row
      → (done_row.status ≡ succeeded)
        × (done_row.key ≡ done_row.key)
        × ((done_row.status ≡ processing) ⊎ (done_row ≡ done_row)))
    × (fail done_row (conflict "x") 9 ≡ ok done_row
        → (done_row.status ≡ failed)
          × (done_row.key ≡ done_row.key)
          × ((done_row.status ≡ processing) ⊎ (done_row ≡ done_row)))
complete-fail_once_example = complete-fail_once done_row done_row end none none (conflict "x") 9
