-- ===== src/Command/Executor/Replay.antt =====
-- A command that succeeded is answered again from its receipt, and nothing is done twice
-- (backend/app/services/workflow_command_executor.py).
use filum_reforge.Base.{◌∙◌, ℕ, ◌≡◌, inl, inr, ◌≢◌, some, List, arith, eq_iff}
use filum_reforge.Value.{Fields}
use filum_reforge.Errors.{Result, ok, raise, Failure}
use filum_reforge.Command.Receipt.{
  processing, succeeded, Key, Receipt, Command, Claim, fresh, replay, conflicting, refused,
  find_receipt, save, claim, claim_key, command_key, check_payload, complete,
}
use filum_reforge.Command.Receipt.Laws.{
  Tells, claim_key-Tells, find_receipt-save, find_receipt-key, Result-cases, complete-saved,
}
use filum_reforge.Command.Executor.{
  Session, Digests, replay_as, commit, rollback, set_receipts, arrive, reject_payload,
  store_failure, after_failure, handle_exception, finish_run, run, dispatch, execute,
  resolve_aggregate_id,
}

-- The row of this command, when it has succeeded with `result`.
pub record Answered (digests : Digests) (command : Command) (key : Key) (result : Fields)
    (rows : List Receipt) : Type 0 where
  pub row : Receipt
  pub found : find_receipt key rows ≡ some row
  pub done : row.status ≡ succeeded
  pub answer : row.result ≡ result
  pub same_payload : row.payload_hash ≡ digests.payload_hash command.payload

module _ {B : Type 0} (digests : Digests) (now : ℕ) (command : Command) where
  -- A handled exception is raised in the end.
  after_failure-raises :
      (c : Claim) (e : Failure) (s : Session B) (result : Fields)
      → (after_failure digests now command c e s).0 ≢ ok result
  unfolding after_failure store_failure
  after_failure-raises (fresh r) e s result h = ground arith
  after_failure-raises (replay r) e s result h = ground arith
  after_failure-raises (conflicting r) e s result h = cc
  after_failure-raises (refused f) e s result h = cc

  handle_exception-raises :
      (rivals : List Receipt) (e : Failure) (s : Session B) (result : Fields)
      → (handle_exception digests now command rivals e s).0 ≢ ok result
  unfolding handle_exception
  handle_exception-raises rivals e s result h =
      let (c, receipts) = claim digests.payload_hash command rivals (rollback s).working.receipts in
      after_failure-raises c e (set_receipts receipts (arrive rivals (rollback s))) result h

  finish_run-Answered :
      (key : Key) (receipt : Receipt) (rivals : List Receipt) (outcome : Result Fields)
      (s s' : Session B) (result : Fields)
      → find_receipt key s.working.receipts ≡ some receipt
      → receipt.status ≡ processing
      → receipt.payload_hash ≡ digests.payload_hash command.payload
      → finish_run digests now command receipt rivals outcome s ≡ (ok result, s')
      → Answered digests command key result s'.working.receipts
  unfolding finish_run set_receipts commit
  finish_run-Answered key receipt rivals (raise e) s s' result found st same h =
      absurd (handle_exception-raises rivals e s result (ground arith))
  finish_run-Answered key receipt rivals (ok r) s s' result found st same h =
      let kind = command.aggregate_type in
      let id = resolve_aggregate_id digests command r in
      elim (Result-cases (complete receipt r kind id now)) [
        | inr (e, failed_at) ↦ absurd (handle_exception-raises rivals e s result (ground arith))
        | inl (saved, e) ↦
            let (k, st', res, hash) = complete-saved receipt saved r kind id now st e in
            let at_key = find_receipt-key key s.working.receipts receipt found in
            let rows : s'.working.receipts ≡ save saved s.working.receipts = ground arith in
            record {
              row = saved;
              found =
                  rw rows
                    (find_receipt-save key saved receipt s.working.receipts (k ∙ at_key) found);
              done = st';
              answer = ground arith;
              same_payload = hash ∙ same;
            }
      ]

  dispatch-Answered :
      (key : Key) (operation : B → Result Fields × B) (later : List Receipt) (c : Claim)
      (s s' : Session B) (result : Fields)
      → Tells (digests.payload_hash command.payload) key c s.working.receipts
      → dispatch digests now command operation later c s ≡ (ok result, s')
      → Answered digests command key result s'.working.receipts
  unfolding dispatch run replay_as reject_payload
  dispatch-Answered key operation later (fresh r) s s' result (found, st, hash) h =
      finish_run-Answered key r later (operation s.working.business).0
        (record s { working = record s.working { business = (operation s.working.business).1 } }) s'
        result found st hash h
  dispatch-Answered key operation later (replay r) s s' result (found, hash) h =
      let rows : s'.working.receipts ≡ s.working.receipts = ground arith in
      record {
        row = r;
        found = rw rows found;
        done = ground arith;
        answer = ground arith;
        same_payload = hash;
      }
  dispatch-Answered key operation later (conflicting r) s s' result t h = cc
  dispatch-Answered key operation later (refused e) s s' result t h = absurd t

  execute-Answered :
      (operation : B → Result Fields × B) (rivals later : List Receipt) (s s' : Session B)
      (result : Fields)
      → execute digests now command operation rivals later s ≡ (ok result, s')
      → (key : Key) × (command_key command ≡ ok key)
        × Answered digests command key result s'.working.receipts
  unfolding execute claim set_receipts arrive dispatch
  execute-Answered operation rivals later s s' result h =
      elim (Result-cases (command_key command)) [
        | inl (key, e) ↦
            let hash = digests.payload_hash command.payload in
            let (c, rows) = claim_key key hash command rivals s.working.receipts in
            (
              key,
              e,
              dispatch-Answered key operation later c (set_receipts rows (arrive rivals s)) s'
                  result (claim_key-Tells key hash command rivals s.working.receipts)
                  (rw (e, execute, claim) at h),
            )
        | inr (f, e) ↦ cc (rw (e, execute, claim, dispatch) at h)
      ]

  -- With its row there, a command is only answered.
  replay_of_Answered :
      (key : Key) (operation : B → Result Fields × B) (rivals later : List Receipt) (s : Session B)
      (result : Fields)
      → command_key command ≡ ok key
      → Answered digests command key result s.working.receipts
      → execute digests now command operation rivals later s ≡ (ok result, arrive rivals s)
  unfolding execute claim claim_key check_payload dispatch set_receipts arrive replay_as
  replay_of_Answered key operation rivals later s result e a =
      ground (arith, eq_iff a.row.payload_hash (digests.payload_hash command.payload))

-- Once a command has succeeded, running it again gives the same result, whatever the operation and
-- whatever rows other sessions add, and changes nothing that this session sees or has committed but
-- those rows.
pub execute_once :
    {B : Type 0} (digests : Digests) (now : ℕ) (command : Command)
    (operation : B → Result Fields × B) (rivals later : List Receipt) (s s' : Session B)
    (result : Fields)
    → execute digests now command operation rivals later s ≡ (ok result, s')
    → (again : B → Result Fields × B) (rivals' later' : List Receipt) (now' : ℕ)
    → execute digests now' command again rivals' later' s' ≡ (ok result, arrive rivals' s')
execute_once digests now command operation rivals later s s' result h again rivals' later' now' =
    let (key, e, a) = execute-Answered digests now command operation rivals later s s' result h in
    replay_of_Answered digests now' command key again rivals' later' s' result e a
