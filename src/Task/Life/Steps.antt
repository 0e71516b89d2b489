-- ===== src/Task/Life/Steps.antt =====
-- Each command of backend/app/services/task_service.py changes the row as its kind allows.
use filum_reforge.Base.{
  inl, inr, ap, inr, inl, ap, ℕ, String, true, false, Option, ◌≡◌, refl, arith, sym, ◌∙◌, subst,
}
use filum_reforge.Value.{ℤ}
use filum_reforge.Task.Defs.{
  TaskStatus, todo, doing, review, blocked, done, Task, User, is_present, same_status,
  is_allowed_transition,
}
use filum_reforge.Task.Services.{TaskServices}
use filum_reforge.Task.Commands.{move_task}
use filum_reforge.Task.Review.{approved_task}
use filum_reforge.Task.Archive.{archived_task}
use filum_reforge.Task.Life.Assign.{Unmoved, Accepted}
use filum_reforge.Task.Life.Work.{Returned, Completed, Sent, Reassigned}
use filum_reforge.Task.Life.{
  accept_node, finish_work, send_work, send_blocked, name_reviewer, Kind, transition, submission,
  handshake, decision, reassignment, archiving, Move, stay, archive, approve, rework, is_under_way,
  IsStamped, Step, Move-transition,
}

-- A change of other columns.
pub Step-same :
    (kind : Kind) (before after : Task)
    → after.status ≡ before.status
    → after.completed_at ≡ before.completed_at
    → after.started_at ≡ before.started_at
    → after.id ≡ before.id
    → after.creator_id ≡ before.creator_id
    → Step kind before after
Step-same kind before after s c b i m = record {
  moves = subst (λ t. Move kind before.status t) (sym s) stay;
  stamps = λ stamped. record {
    completed = rw (c, s) stamped.completed;
    started = rw (s, b) stamped.started;
  };
  same_task = (i, m);
}

move_task-IsStamped :
    (now : ℕ) (task : Task) (s t : TaskStatus)
    → task.status ≡ s
    → is_allowed_transition s t ≡ true
    → IsStamped task
    → IsStamped (move_task now task t)
unfolding move_task is_allowed_transition is_under_way is_present same_status
move_task-IsStamped now task todo doing e h stamped = record {
  completed = stamped.completed ∙ ap (λ u. same_status u done) e;
  started = λ _. refl;
}
move_task-IsStamped now task doing review e h stamped = record {
  completed = stamped.completed ∙ ap (λ u. same_status u done) e;
  started = λ _. stamped.started (ap is_under_way e);
}
move_task-IsStamped now task review done e h stamped = record {
  completed = refl;
  started = λ f. absurd (ground arith);
}
move_task-IsStamped now task s t e h stamped = absurd (ground arith)

-- A change of the status, with what it does to the stamps.
Step-to :
    (kind : Kind) (before after : Task) (s t : TaskStatus)
    → before.status ≡ s
    → after.status ≡ t
    → Move kind s t
    → (IsStamped before → IsStamped after)
    → after.id ≡ before.id
    → after.creator_id ≡ before.creator_id
    → Step kind before after
Step-to kind before after s t e f move stamps i m = record {
  moves = subst (λ u. Move kind u after.status) (sym e) (subst (λ u. Move kind s u) (sym f) move);
  stamps = stamps;
  same_task = (i, m);
}

-- A task that is not done, without a time of completion and with one of its start.
IsStamped-open :
    (after : Task) (t : TaskStatus)
    → after.status ≡ t
    → same_status t done ≡ false
    → is_present after.completed_at ≡ false
    → is_present after.started_at ≡ true
    → IsStamped after
IsStamped-open after t f open_yet c b = record {
  completed = c ∙ sym (ap (λ u. same_status u done) f ∙ open_yet);
  started = λ _. b;
}

IsStamped-done :
    (after : Task) → after.status ≡ done → is_present after.completed_at ≡ true → IsStamped after
unfolding is_under_way same_status
IsStamped-done after f c = record {
  completed = c ∙ sym (ap (λ u. same_status u done) f);
  started = λ h. absurd (ground arith);
}

module _ (now : ℕ) (before after : Task) where
  pub Unmoved-Step : (kind : Kind) → Unmoved before after → Step kind before after
  unfolding Unmoved
  Unmoved-Step kind (s, c, b, i, m) = Step-same kind before after s c b i m

  pub Accepted-Step : Accepted now before after → Step handshake before after
  unfolding Accepted is_present same_status
  Accepted-Step (inl unmoved) = Unmoved-Step handshake unmoved
  Accepted-Step (inr (e, f, c, b, i, m)) =
      Step-to handshake before after todo doing e f accept_node
        (λ stamped.
          IsStamped-open after doing f refl
            (ap is_present c ∙ stamped.completed ∙ ap (λ u. same_status u done) e)
            (ap is_present b))
        i m

  pub Returned-Step :
      before.status ≡ review → Returned now before after → Step decision before after
  unfolding Returned is_present same_status
  Returned-Step e (f, c, b, i, m) =
      Step-to decision before after review doing e f rework
        (λ stamped. IsStamped-open after doing f refl (ap is_present c) (ap is_present b)) i m

  pub Completed-Step :
      before.status ≡ doing → Completed now before after → Step submission before after
  unfolding Completed is_present
  Completed-Step e (f, c, b, i, m) =
      Step-to submission before after doing done e f finish_work
        (λ stamped. IsStamped-done after f (ap is_present c)) i m

  pub Sent-Step : before.status ≡ doing → Sent now before after → Step submission before after
  unfolding Sent is_present same_status
  Sent-Step e (inl f, c, b, i, m) =
      Step-to submission before after doing review e f send_work
        (λ stamped. IsStamped-open after review f refl (ap is_present c) (ap is_present b)) i m
  Sent-Step e (inr f, c, b, i, m) =
      Step-to submission before after doing blocked e f send_blocked
        (λ stamped. IsStamped-open after blocked f refl (ap is_present c) (ap is_present b)) i m

  pub Reassigned-Step : Reassigned before after → Step reassignment before after
  unfolding Reassigned same_status is_under_way
  Reassigned-Step (inl e, f, c, b, i, m) =
      Step-to reassignment before after blocked review e f name_reviewer
        (λ stamped.
          IsStamped-open after review f refl
            (ap is_present c ∙ stamped.completed ∙ ap (λ u. same_status u done) e)
            (ap is_present b ∙ stamped.started (ap is_under_way e)))
        i m
  Reassigned-Step (inr e, f, c, b, i, m) =
      Step-to reassignment before after review review e f stay
        (λ stamped.
          IsStamped-open after review f refl
            (ap is_present c ∙ stamped.completed ∙ ap (λ u. same_status u done) e)
            (ap is_present b ∙ stamped.started (ap is_under_way e)))
        i m

module _ {R : Type 0} (services : TaskServices R) (now : ℕ) where
  pub moved-Step :
      (before : Task) (t : TaskStatus)
      → is_allowed_transition before.status t ≡ true
      → Step transition before (move_task now before t)
  unfolding move_task
  moved-Step before t allowed =
      Step-to transition before (move_task now before t) before.status t refl refl
        (Move-transition before.status t allowed)
        (move_task-IsStamped now before before.status t refl allowed) refl refl

  pub approved-Step :
      (actor : User) (comment : Option String) (score : Option ℤ) (before : Task)
      → before.status ≡ review
      → Step decision before (approved_task services now actor comment score before)
  unfolding approved_task is_present
  approved-Step actor comment score before e =
      Step-to decision before (approved_task services now actor comment score before) review done e
        refl approve
        (λ stamped.
          IsStamped-done (approved_task services now actor comment score before) refl refl)
        refl refl

  pub archived-Step :
      (actor : User) (reason : String) (before : Task)
      → Step archiving before (archived_task services now actor reason before.id before)
  unfolding archived_task is_present
  archived-Step actor reason before =
      Step-to archiving before (archived_task services now actor reason before.id before)
        before.status done refl refl archive
        (λ stamped.
          IsStamped-done (archived_task services now actor reason before.id before) refl refl)
        refl refl
