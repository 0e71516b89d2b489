-- ===== src/Command/Executor/Atomic.antt =====
-- A command that raises has changed nothing but receipts and incidents
-- (backend/app/services/workflow_command_executor.py).
use filum_reforge.Base.{ℕ, ◌≡◌, refl, inl, inr, List, arith}
use filum_reforge.Value.{Fields}
use filum_reforge.Errors.{Result, ok, raise, Failure}
use filum_reforge.Command.Receipt.{
  Receipt, Command, Claim, fresh, replay, conflicting, refused, claim, complete,
}
use filum_reforge.Command.Receipt.Laws.{Result-cases}
use filum_reforge.Command.Executor.{
  Session, Digests, commit, rollback, set_receipts, arrive, add_incident, reject_payload,
  report_failure, store_failure, after_failure, handle_exception, finish_run, run, dispatch,
  execute, resolve_aggregate_id,
}

module _ {B : Type 0} (digests : Digests) (now : ℕ) (command : Command) where
  store_failure-business :
      (r : Receipt) (e : Failure) (s : Session B)
      → s.working.business ≡ s.committed.business
      → (store_failure digests now command r e s).1.committed.business ≡ s.committed.business
  unfolding store_failure report_failure commit set_receipts add_incident
  store_failure-business r e s clean = ground arith

  after_failure-business :
      (c : Claim) (e : Failure) (s : Session B)
      → s.working.business ≡ s.committed.business
      → (after_failure digests now command c e s).1.committed.business ≡ s.committed.business
  unfolding after_failure
  after_failure-business (fresh r) e s clean = store_failure-business r e s clean
  after_failure-business (replay r) e s clean = ground (arith, store_failure-business r e s)
  after_failure-business (conflicting r) e s clean = refl
  after_failure-business (refused f) e s clean = refl

  handle_exception-business :
      (rivals : List Receipt) (e : Failure) (s : Session B)
      → (handle_exception digests now command rivals e s).1.committed.business
        ≡ s.committed.business
  unfolding handle_exception rollback set_receipts arrive
  handle_exception-business rivals e s =
      let (c, receipts) = claim digests.payload_hash command rivals (rollback s).working.receipts in
      after_failure-business c e (set_receipts receipts (arrive rivals (rollback s))) refl

  finish_run-business :
      (r : Receipt) (rivals : List Receipt) (outcome : Result Fields) (s : Session B) (e : Failure)
      → (finish_run digests now command r rivals outcome s).0 ≡ raise e
      → (finish_run digests now command r rivals outcome s).1.committed.business
        ≡ s.committed.business
  unfolding finish_run
  finish_run-business r rivals (raise f) s e h = handle_exception-business rivals f s
  finish_run-business r rivals (ok result) s e h =
      elim (Result-cases (
        complete r result command.aggregate_type (resolve_aggregate_id digests command result)
          now)) [
            | inl (saved, q) ↦ cc (rw (q, finish_run) at h)
            | inr (f, q) ↦ rw (q, finish_run) (handle_exception-business rivals f s)
          ]

  dispatch-business :
      (operation : B → Result Fields × B) (later : List Receipt) (c : Claim) (s : Session B)
      (e : Failure)
      → (dispatch digests now command operation later c s).0 ≡ raise e
      → (dispatch digests now command operation later c s).1.committed.business
        ≡ s.committed.business
  unfolding dispatch run reject_payload commit add_incident rollback
  dispatch-business operation later (fresh r) s e h =
      let (outcome, business) = operation s.working.business in
      finish_run-business r later outcome
        (record s { working = record s.working { business = business } }) e h
  dispatch-business operation later (replay r) s e h = refl
  dispatch-business operation later (conflicting r) s e h = refl
  dispatch-business operation later (refused f) s e h = refl

-- Whatever the operation does and wherever it fails, a command that ends in an exception leaves the
-- committed business data as they were.
pub execute_atomic :
    {B : Type 0} (digests : Digests) (now : ℕ) (command : Command)
    (operation : B → Result Fields × B) (rivals later : List Receipt) (s : Session B) (e : Failure)
    → (execute digests now command operation rivals later s).0 ≡ raise e
    → (execute digests now command operation rivals later s).1.committed.business
      ≡ s.committed.business
unfolding execute arrive set_receipts
execute_atomic digests now command operation rivals later s e h =
    let (c, receipts) = claim digests.payload_hash command rivals s.working.receipts in
    dispatch-business digests now command operation later c
      (set_receipts receipts (arrive rivals s)) e h
