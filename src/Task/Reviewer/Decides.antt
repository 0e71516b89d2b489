-- ===== src/Task/Reviewer/Decides.antt =====
-- Nobody reviews their own work: who may decide on a template task once its review is activated.
use filum_reforge.Base.{String, true, false, List, ◌≡◌, ◌==◌, All}
use filum_reforge.Value.{str, set_field}
use filum_reforge.Task.Defs.{Task, User, review, blocked, is_admin}
use filum_reforge.Task.Services.{TaskServices}
use filum_reforge.Task.Access.{template_review_executor_id, ensure_task_reviewer}
use filum_reforge.Task.Offer.{passes}
use filum_reforge.Task.Reviewer.{name_reviewer}
use filum_reforge.Task.Reviewer.Selects.{is_excluded}

module _ {R : Type 0} (services : TaskServices R) (runtime : R) where
  -- What activation of a review comes to.
  pub data Activated (task : Task) (candidates : List (String × String)) (entered : Task)
      : Type 0 where
    held_up :
        entered.status ≡ blocked
        → All (λ (c : String × String). is_excluded services runtime task c.1 ≡ true) candidates
        → Activated task candidates entered
    reviewed_by :
        (reviewer : String)
        → entered.status ≡ review
        → is_excluded services runtime task reviewer ≡ false
        → (reviewer == template_review_executor_id entered) ≡ false
        → ((actor : User)
            → is_admin actor ≡ false
            → passes (ensure_task_reviewer services.parse_uuid actor entered)
              ≡ (actor.id == reviewer))
        → Activated task candidates entered

  abbrev named : Task → String × String → Task
  named task c =
      name_reviewer services runtime task
        (set_field "latest_review_state" (str "pending_review") task.extra_metadata) c
