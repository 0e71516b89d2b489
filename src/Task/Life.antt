-- ===== src/Task/Life.antt =====
-- The life of a task, as each kind of command of backend/app/services/task_service.py may change it.
pub mod Assign
pub mod Work
pub mod Steps
use filum_reforge.Base.{
  ℕ, Bool, true, false, not, ◌||◌, Option, none, some, ◌≡◌, refl, arith, if◌then◌else◌, ◌↔◌, sym,
  ◌∙◌,
}
use filum_reforge.Task.Defs.{
  TaskStatus, todo, doing, review, blocked, done, Task, is_present, same_status,
  is_allowed_transition,
}

pub data Kind : Type 0 where
  transition submission handshake delegation decision reassignment archiving : Kind

pub data Move : Kind → TaskStatus → TaskStatus → Type 0 where
  start : Move transition todo doing
  send : Move transition doing review
  close : Move transition review done
  send_work : Move submission doing review
  send_blocked : Move submission doing blocked
  finish_work : Move submission doing done
  accept_node : Move handshake todo doing
  approve : Move decision review done
  rework : Move decision review doing
  name_reviewer : Move reassignment blocked review
  archive : {s : TaskStatus} → Move archiving s done
  stay : {k : Kind} {s : TaskStatus} → Move k s s

-- Work on the task has begun and has not ended.
unfoldable pub is_under_way : TaskStatus → Bool
is_under_way doing = true
is_under_way review = true
is_under_way blocked = true
is_under_way _ = false

-- The task has its time of completion exactly when it is done, and the time of its start while it is
-- under way.
pub record IsStamped (task : Task) : Type 0 where
  pub completed : is_present task.completed_at ≡ same_status task.status done
  pub started : is_under_way task.status ≡ true → is_present task.started_at ≡ true

-- What a command of a kind does to the row.
pub record Step (kind : Kind) (before after : Task) : Type 0 where
  pub moves : Move kind before.status after.status
  pub stamps : IsStamped before → IsStamped after
  pub same_task : (after.id ≡ before.id) × (after.creator_id ≡ before.creator_id)

pub Move-done : (k : Kind) (s : TaskStatus) → Move k done s → s ≡ done
Move-done k s archive = refl
Move-done k s stay = refl

pub same_status_iff : (s t : TaskStatus) → (same_status s t ≡ true) ↔ (s ≡ t)
unfolding same_status
same_status_iff todo todo = ground arith
same_status_iff s t = ground arith

pub Move-transition : (s t : TaskStatus) → is_allowed_transition s t ≡ true → Move transition s t
unfolding is_allowed_transition
Move-transition todo doing h = start
Move-transition doing review h = send
Move-transition review done h = close
Move-transition s t h = absurd (ground arith)
