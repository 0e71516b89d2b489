-- ===== src/Runtime/Tests.antt =====
-- A run with a choice: after `draft`, one of `sign` and `tell` is activated. The theorems at this run.
use filum_reforge.Base.{
  insert, lookup, Dict, ℕ, ◌<◌, String, ◌≡◌, refl, ◌↔◌, ◌⊎◌, Bool, true, false, none, some, List,
  [], ◌∷◌, arith, any, elem, minus,
}
use filum_reforge.Value.{Fields, end, field, str, bool}
use filum_reforge.Text.{strip, lower, or_text}
use filum_reforge.Errors.{Result, ok, Yields}
use filum_reforge.Condition.{is_else_condition, evaluate_condition}
use filum_reforge.Handler.Defs.{NodeType, task, notice, EngineState, pending, completed, draft}
use filum_reforge.Runtime.Defs.{
  run_active, run_completed, NodeInstance, Database, RuntimeNode, RuntimeEdge, Definition, Outside,
  is_active, is_open,
}
use filum_reforge.Runtime.Routes.{
  evaluate_routes, persist_traversals, targets, normal_mode, select_edges, matching, else_edges,
  candidates, takes_one, judge_edges, note_selection, evaluation, final_verdict,
}
use filum_reforge.Runtime.Routes.Laws.{IsSelection, evaluate_routes-IsSelection}
use filum_reforge.Runtime.Routes.Evidence.{IsRecorded, persist_traversals_once}
use filum_reforge.Runtime.Reach.{reachable_node_keys}
use filum_reforge.Runtime.Reach.Correct.{Downstream, reachable_node_keys_correct}
use filum_reforge.Runtime.Nodes.{is_skippable}
use filum_reforge.Runtime.Nodes.Evolve.{EvolveAll, open_count}
use filum_reforge.Runtime.Complete.{maybe_complete_instance}
use filum_reforge.Runtime.Complete.Correct.{IsFinished, maybe_complete_instance_correct}
use filum_reforge.Runtime.Advance.{abandoned_keys, activate_downstream}
use filum_reforge.Runtime.Advance.Skips.{is_skippable-abandoned_keys}
use filum_reforge.Runtime.Advance.Ends.{activate_downstream_correct}

abbrev outside : Outside
outside = record {
  show = λ _. "";
  isoformat = λ _. "2026-01-01T00:00:00+00:00";
  digest = λ _. "digest";
  assign = λ _ _. ok (some "ann");
  create_approval = λ _. none;
  archives = λ _. false;
  start_next_template = λ run. run.context;
}

abbrev node : String → RuntimeNode
node key = record {
  node_key = key;
  routing_mode = "exclusive";
  join_mode = "all";
  config = end;
  sort_order = 0;
}

abbrev edge : String → String → Fields → RuntimeEdge
edge source target condition = record {
  from_node_key = source;
  to_node_key = target;
  is_reject_path = false;
  condition = condition;
  priority = 0;
}

abbrev choice : List RuntimeEdge
choice =
    edge "draft" "sign" (field "field" (str "ready") (field "operator" (str "exists") end))
    ∷ edge "draft" "tell" (field "else" (bool true) end)
    ∷ []

abbrev definition : Definition
definition = record {
  nodes = node "draft" ∷ node "sign" ∷ node "tell" ∷ [];
  edges = choice;
  end_node_keys = "sign" ∷ "tell" ∷ [];
}

abbrev instance_of : String → NodeType → EngineState → NodeInstance
instance_of key kind state = record {
  id = key;
  node_key = key;
  instance_key = "singleton";
  node_type = kind;
  iteration = 1;
  engine_state = state;
  business_state = draft;
  assignee_user_id = none;
  node_instance_version = 1;
  config = end;
  created_at = 0;
  activated_at = none;
  acknowledged_at = none;
  completed_at = none;
  terminated_at = none;
}

abbrev iteration : ℕ
iteration = 1

abbrev source : NodeInstance
source = instance_of "draft" task completed

abbrev db : Database
db = record {
  run = record {
    status = run_active;
    result = none;
    diagnostics = end;
    current_node_key = some "draft";
    completed_at = none;
    context = end;
    context_version = 1;
  };
  nodes = source ∷ instance_of "sign" task pending ∷ instance_of "tell" notice pending ∷ [];
  traversals = [];
  dependencies = [];
  events = [];
}

abbrev taken : List RuntimeEdge
taken = edge "draft" "tell" (field "else" (bool true) end) ∷ []

abbrev verdicts : Dict (Bool × String)
verdicts =
    ("sign", (false, "condition_not_matched")) ∷ ("tell", (true, "else_fallback_selected")) ∷ []

routes_of_choice : evaluate_routes "exclusive" choice end ≡ ok (taken, verdicts)
unfolding evaluate_routes takes_one normal_mode lower strip or_text select_edges note_selection
    candidates insert matching judge_edges is_else_condition final_verdict evaluate_condition elem
    else_edges targets evaluation lookup
routes_of_choice = refl

evaluate_routes-IsSelection_example :
    IsSelection (normal_mode "exclusive" "inclusive") choice end taken
evaluate_routes-IsSelection_example =
    evaluate_routes-IsSelection "exclusive" choice taken end verdicts routes_of_choice

persist_traversals_once_example :
    IsRecorded "draft" choice
      (persist_traversals outside 5 db.run source ("tell" ∷ []) [] choice [])
    × (persist_traversals outside 9 db.run source [] [] choice
          (persist_traversals outside 5 db.run source ("tell" ∷ []) [] choice [])
        ≡ persist_traversals outside 5 db.run source ("tell" ∷ []) [] choice [])
persist_traversals_once_example =
    persist_traversals_once outside 5 9 db.run db.run source ("tell" ∷ []) [] [] [] choice []

reachable_node_keys_correct_example :
    (found : List String) × (reachable_node_keys ("draft" ∷ []) choice ≡ some found)
    × ((v : String) → (elem v found ≡ true) ↔ Downstream ("draft" ∷ []) choice v)
reachable_node_keys_correct_example = reachable_node_keys_correct ("draft" ∷ []) choice

is_skippable-abandoned_keys_example :
    (is_skippable (abandoned_keys choice choice taken) iteration (instance_of "sign" task pending)
      ≡ true)
    ↔ ((iteration ≡ iteration)
        × (pending ≡ pending)
        × Downstream (minus (targets choice) (targets taken)) choice "sign"
        × ¬ Downstream (targets taken) choice "sign")
is_skippable-abandoned_keys_example =
    is_skippable-abandoned_keys choice choice taken iteration (instance_of "sign" task pending)

maybe_complete_instance_correct_example :
    (((maybe_complete_instance outside 5 definition db).run.status ≡ run_completed)
      ↔ ((run_active ≡ run_completed) ⊎ ((run_active ≡ run_active) × IsFinished definition db)))
    × (((maybe_complete_instance outside 5 definition db).run.status ≡ run_active)
        ↔ ((run_active ≡ run_active) × (any (λ node. is_active node.engine_state) db.nodes ≡ true)))
    × ((maybe_complete_instance outside 5 definition db).nodes ≡ db.nodes)
maybe_complete_instance_correct_example = maybe_complete_instance_correct outside 5 definition db

few_open : open_count db.nodes < 3
unfolding open_count is_open
few_open = omega arith

activate_downstream_correct_example :
    (result : Result Database) × (activate_downstream outside 5 definition 3 source db
      ≡ some result)
    × Yields (λ after. EvolveAll db.nodes after.nodes) result
activate_downstream_correct_example =
    activate_downstream_correct outside 5 definition 3 source db few_open
