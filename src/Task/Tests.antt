-- ===== src/Task/Tests.antt =====
-- Three accounts, a standalone task and a template task.
use filum_reforge.Base.{
  ℕ, suc, String, true, false, Option, none, some, List, [], ◌∷◌, ◌≡◌, refl, arith, ◌==◌,
  if◌then◌else◌, ◌⊎◌, ◌↔◌, ◌||◌, ◌&&◌, length,
}
use filum_reforge.Value.{Value, str, Fields, end, field, pos}
use filum_reforge.Text.{strip}
use filum_reforge.Errors.{ok}
use filum_reforge.Handler.Defs.{rejected}
use filum_reforge.Task.Defs.{
  Task, User, todo, doing, review, blocked, done, manual, template, admin, employee, active,
  same_status, is_standalone, is_active_account, is_admin_archived, is_root_shell,
}
use filum_reforge.Task.Services.{TaskServices, TaskState}
use filum_reforge.Task.Actions.{
  start_work, submit_deliverable, delegate_assignment, approve_deliverable, return_for_rework,
}
use filum_reforge.Task.Commands.{check_transition_actor}
use filum_reforge.Task.Delegate.{check_standalone_delegation}
use filum_reforge.Task.Deliverable.{check_submission}
use filum_reforge.Task.Review.{check_review}
use filum_reforge.Task.Offer.{passes, is_offered, is_offered-passes}
use filum_reforge.Task.History.{TaskOrder, submit, decide, archive_by, run_command, run_orders}
use filum_reforge.Task.UserState.{
  shown_blocked, shown_returned, shown_completed, state_policy_of, is_pending_review,
}
use filum_reforge.Task.UserState.Meaning.{shown, is_sent_back, user_facing_state-Meaning}
use filum_reforge.Task.Paging.{fetch_pages}
use filum_reforge.Task.Paging.Visits.{IsDistinct, Visit, fetch_pages-Visit}
use filum_reforge.Capability.Task.Sources.{read_task_capability}

abbrev ann : User
ann = record { id = "ann"; email = "ann@x"; role = employee; status = active }

abbrev bob : User
bob = record { id = "bob"; email = "bob@x"; role = employee; status = active }

abbrev eva : User
eva = record { id = "eva"; email = "eva@x"; role = admin; status = active }

abbrev find_account : String → Option User
find_account id =
    if id == "ann"
    then some ann
    else if id == "bob"
    then some bob
    else if id == "eva"
    then some eva
    else none

abbrev show : Value → String
show v = "?"

-- Nothing that is called fails, and no other table says anything.
abbrev services : TaskServices ℕ
services = record {
  parse_uuid = some;
  parse_int = λ s. none;
  show_value = show;
  show_time = λ t. "now";
  get_user = λ r id. find_account id;
  managed_department_ids = λ r id. [];
  can_manage_assignee = λ r u id. true;
  blocking_dependencies = λ r id. [];
  stored_attachment_ids = λ r id ids. ids;
  supervisor_of = λ r id. none;
  department_manager = λ r id. none;
  find_instance = λ r id. none;
  system_admin_ids = λ r. "eva" ∷ [];
  load_node_context = λ t r. (none, r);
  sync_status = λ t s n b r. ok (suc r);
  sync_handshake = λ t b n a d r. ok (suc r);
  upsert_deliverable = λ t u s a n d r. ok (end, suc r);
  record_review = λ t u a c n s w r. ok (end, suc r);
  after_node_completed = λ u t r. ok r;
  is_handshake_required = λ t r. false;
  accept_node = λ t n r. r;
  progress_instance = λ t r. (r, none);
  send_assignment = λ t u r. (r, none);
  archive_instance_id = λ t r. none;
  cancel_instance = λ u i s c r. ok ([], r);
  find_task = λ r id. none;
  put_task = λ t l r. r;
}

-- Ann made the task, and Bob works on it.
abbrev alone : Task
alone = record {
  id = "t1";
  status = doing;
  source_type = manual;
  creator_id = "ann";
  assignee_id = "bob";
  department_id = none;
  assignment_mode = "direct";
  extra_metadata = end;
  blocked_reason = none;
  started_at = some 1;
  completed_at = none;
  updated_at = 1;
}

abbrev state : TaskState ℕ
state = record { row = alone; logs = []; runtime = 0 }

abbrev graph_ids : Fields
graph_ids =
    field "workflow_graph_instance_id" (str "g1") (field "workflow_node_instance_id" (str "n1") end)

abbrev in_graph : Task
in_graph = record alone { source_type = template; extra_metadata = graph_ids }

-- Bob submits, Ann approves, and Eva archives the task.
abbrev orders : List TaskOrder
orders =
    (record { actor = bob; time = 2; command = submit alone (some "all done") [] })
    ∷ (record { actor = ann; time = 3; command = decide alone true none (some (pos 5)) })
    ∷ (record { actor = eva; time = 4; command = archive_by "old" })
    ∷ []

orders_end : (run_orders services orders state).row.status ≡ done
unfolding run_orders run_command
orders_end = refl

submit_enters :
    (run_command services 2 bob (submit alone (some "all done") []) state).0.row.status ≡ review
unfolding run_command
submit_enters = refl

reason_given : (strip "away" == "") ≡ false
unfolding strip
reason_given = refl

bob_active : is_active_account bob ≡ true
unfolding is_active_account
bob_active = refl

alone_standalone : is_standalone alone ≡ true
unfolding is_standalone
alone_standalone = refl

alone_kept : is_admin_archived alone ≡ false
unfolding is_admin_archived
alone_kept = refl

alone_leaf : is_root_shell alone ≡ false
unfolding is_root_shell
alone_leaf = refl

is_offered-passes_example :
    ((passes (check_transition_actor services 2 0 bob alone) && same_status doing todo)
      ≡ is_offered start_work alone bob)
    × (passes (check_submission services 2 alone bob state)
        ≡ is_offered submit_deliverable alone bob)
    × (passes (check_standalone_delegation services 2 bob alone "away" alone)
        ≡ is_offered delegate_assignment alone bob)
    × (passes (check_review services 2 bob alone state) ≡ is_offered approve_deliverable alone bob)
    × (passes (check_review services 2 bob alone state) ≡ is_offered return_for_rework alone bob)
is_offered-passes_example =
    is_offered-passes services 2 bob state "away" bob_active alone_standalone alone_kept alone_leaf
      reason_given

user_facing_state-Meaning_example :
    ((shown show alone review (some rejected) ≡ shown_blocked) ↔ (review ≡ blocked))
    × ((shown show alone review (some rejected) ≡ shown_returned)
        ↔ (is_sent_back show alone review (some rejected) ≡ true))
    × (review ≡ done → shown show alone review (some rejected) ≡ shown_completed)
    × (shown show alone review (some rejected) ≡ shown_completed
        → (review ≡ done)
          ⊎ (((state_policy_of (read_task_capability show end) == "submission") ≡ true)
              × ((is_pending_review (some rejected) || same_status review review) ≡ true)))
user_facing_state-Meaning_example = user_facing_state-Meaning show alone review (some rejected)

abbrev ids : List String
ids = "a" ∷ "b" ∷ "c" ∷ []

ids-IsDistinct : IsDistinct (λ x. x) ids
unfolding IsDistinct
ids-IsDistinct = (refl, (refl, (refl, tt)))

fetch_pages-Visit_example :
    Visit 2 ids (fetch_pages (λ (x : String). x) 2 (suc (length ids)) none ids)
fetch_pages-Visit_example = fetch_pages-Visit (λ x. x) 2 ids (omega arith) ids-IsDistinct
