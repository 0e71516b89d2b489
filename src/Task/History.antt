-- ===== src/Task/History.antt =====
-- Any commands on one task, one after another, by any people at any times. A command that locks the
-- row may have read another task before (`loaded`).
pub mod Final
use filum_reforge.Base.{ℕ, String, Bool, Option, List, [], ◌∷◌}
use filum_reforge.Value.{ℤ}
use filum_reforge.Errors.{Failure}
use filum_reforge.Task.Defs.{Task, TaskStatus, User}
use filum_reforge.Task.Services.{TaskServices, TaskState}
use filum_reforge.Task.Commands.{transition_task_status}
use filum_reforge.Task.Handshake.{accept_task_assignment, reject_task_assignment}
use filum_reforge.Task.Delegate.{delegate_task_assignment}
use filum_reforge.Task.Reviewer.{reassign_task_reviewer}
use filum_reforge.Task.Deliverable.{submit_task_deliverable}
use filum_reforge.Task.Review.{review_task_deliverable}
use filum_reforge.Task.Archive.{archive_task_by_admin}
use filum_reforge.Task.Life.{
  Kind, transition, submission, handshake, delegation, decision, reassignment, archiving,
}

pub data TaskCommand : Type 0 where
  transition_to : Task → TaskStatus → TaskCommand
  submit : Task → Option String → List String → TaskCommand
  accept : TaskCommand
  reject : String → TaskCommand
  delegate : Task → String → String → TaskCommand
  decide : Task → Bool → Option String → Option ℤ → TaskCommand
  reassign : String → TaskCommand
  archive_by : String → TaskCommand

-- Who gives the command, and when.
pub record TaskOrder : Type 0 where
  pub actor : User
  pub time : ℕ
  pub command : TaskCommand

unfoldable pub kind_of : TaskCommand → Kind
kind_of (transition_to loaded target) = transition
kind_of (submit loaded summary ids) = submission
kind_of accept = handshake
kind_of (reject reason) = handshake
kind_of (delegate loaded id reason) = delegation
kind_of (decide loaded is_approved comment score) = decision
kind_of (reassign id) = reassignment
kind_of (archive_by reason) = archiving

module _ {R : Type 0} (services : TaskServices R) where
  unfoldable pub run_command : ℕ → User → TaskCommand → TaskState R → TaskState R × Option Failure
  unfolding transition_task_status submit_task_deliverable accept_task_assignment
      reject_task_assignment delegate_task_assignment review_task_deliverable reassign_task_reviewer
      archive_task_by_admin
  run_command now actor (transition_to loaded target) =
      transition_task_status services now actor loaded target
  run_command now actor (submit loaded summary ids) =
      submit_task_deliverable services now actor loaded summary ids
  run_command now actor accept = accept_task_assignment services now actor
  run_command now actor (reject reason) = reject_task_assignment services now actor reason
  run_command now actor (delegate loaded id reason) =
      delegate_task_assignment services now actor loaded id reason
  run_command now actor (decide loaded is_approved comment score) =
      review_task_deliverable services now actor loaded is_approved comment score
  run_command now actor (reassign id) = reassign_task_reviewer services now actor id
  run_command now actor (archive_by reason) = archive_task_by_admin services now actor reason

  unfoldable pub run_orders : List TaskOrder → TaskState R → TaskState R
  unfolding run_command
  run_orders [] state = state
  run_orders (order ∷ rest) state =
      run_orders rest (run_command order.time order.actor order.command state).0
