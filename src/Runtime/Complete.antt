-- ===== src/Runtime/Complete.antt =====
-- `_fail_graph_v3`, `_maybe_complete_instance_v3` and `_resolve_current_node_key`.
pub mod Correct
use filum_reforge.Base.{
  ℕ, String, Bool, true, false, not, ◌&&◌, ◌||◌, Option, none, some, List, [], ◌∷◌, ◌==◌,
  if◌then◌else◌, any, elem, select_if, map, ltb, nat_eq,
}
use filum_reforge.Value.{
  Value, Fields, end, field, str, obj, arr, texts, bool, set_field, merge_fields, text_lt,
}
use filum_reforge.Text.{strip, sorted}
use filum_reforge.Handler.Defs.{EngineState}
use filum_reforge.Handler.Policy.{from_keys}
use filum_reforge.Runtime.Defs.{
  RunStatus, run_pending, run_active, run_completed, run_cancelled, run_terminated, run_failed, Run,
  NodeInstance, Dependency, Database, RuntimeNode, Definition, Outside, append_event, is_pending,
  is_active, is_stuck, is_completed,
}

unfoldable pub fail_graph : ℕ → String → String → Fields → Database → Database
fail_graph now code message details db =
    let diagnostic =
      merge_fields (field "code" (str code) (field "message" (str message) end)) details in
    append_event "run_failed" diagnostic (record db {
      run = record db.run {
        status = run_failed;
        result = some "failed";
        diagnostics = diagnostic;
        current_node_key = none;
        completed_at = some now;
        context = set_field "failure" (obj diagnostic) db.run.context;
      };
    })

-- `end_node_keys & completed_node_keys`
unfoldable pub end_reached : List String → List NodeInstance → Bool
end_reached end_keys nodes =
    any (λ node. is_completed node.engine_state && elem node.node_key end_keys) nodes

-- The keys that `str(key).strip()` keeps.
unfoldable pub end_keys_of : Definition → List String
end_keys_of definition = select_if (λ key. not (strip key == "")) definition.end_node_keys

unfoldable pub archive_context : Outside → ℕ → Fields → Fields
archive_context outside now context =
    if outside.archives context
    then set_field "archived_at" (str (outside.isoformat now))
        (set_field "archived" (bool true) context)
    else context

-- The run as it is stored before the next template is started.
unfoldable pub complete_run : Outside → ℕ → Run → Run
complete_run outside now run = record run {
  status = run_completed;
  result = some "success";
  diagnostics = end;
  current_node_key = none;
  completed_at = some now;
  context = archive_context outside now run.context;
}

-- Of the run that is started next only the mark in this run's context is kept.
unfoldable pub succeed : Outside → ℕ → Database → Database
succeed outside now db =
    let run = complete_run outside now db.run in
    record db { run = record run { context = outside.start_next_template run } }

unfoldable pub settle_run : Outside → ℕ → Definition → Database → Database
settle_run outside now definition db =
    let end_keys = end_keys_of definition in
    if any (λ node. is_active node.engine_state) db.nodes
    then db
    else if any (λ node. is_stuck node.engine_state) db.nodes
    then fail_graph now "node_failed_or_suspended" "工作流存在失败或挂起节点，不能成功完成。" end db
    else if any (λ node. is_pending node.engine_state) db.nodes
    then fail_graph now "unresolvable_join" "工作流不存在可执行节点，但仍有无法满足的待激活节点。" end db
    else if any (λ dependency. dependency.status == "waiting") db.dependencies
    then fail_graph now "dangling_activation" "工作流仍有悬挂的 activation dependency。" end db
    else if not (end_reached end_keys db.nodes)
    then fail_graph now "end_not_reached" "工作流没有到达合法 End 节点。"
        (field "end_node_keys" (arr (texts (sorted (from_keys [] end_keys)))) end) db
    else succeed outside now db

-- `_maybe_complete_instance_v3`
unfoldable pub maybe_complete_instance : Outside → ℕ → Definition → Database → Database
maybe_complete_instance outside now definition db = elim db.run.status [
  | run_active ↦ settle_run outside now definition db
  | _ ↦ db
]

-- `{node.node_key: node for node in nodes}.get(key)`: a later node of the same key hides it.
unfoldable pub node_named : String → List RuntimeNode → Option RuntimeNode
node_named key [] = none
node_named key (node ∷ nodes) = elim (node_named key nodes) [
  | some later ↦ some later
  | none ↦ if node.node_key == key then some node else none
]

unfoldable pub sort_order_of : String → List RuntimeNode → ℕ
sort_order_of key nodes = elim (node_named key nodes) [ some node ↦ node.sort_order | none ↦ 0 ]

-- `(sort_order, created_at, node_key)` of one node is less than that of the other.
unfoldable pub comes_before : List RuntimeNode → NodeInstance → NodeInstance → Bool
unfolding text_lt
comes_before nodes a b =
    let m = sort_order_of a.node_key nodes in
    let n = sort_order_of b.node_key nodes in
    ltb m n
    || (nat_eq m n
        && (ltb a.created_at b.created_at
            || (nat_eq a.created_at b.created_at && text_lt a.node_key b.node_key)))

-- The head of the sorted list: the first of the least ones.
unfoldable pub first_node : List RuntimeNode → NodeInstance → List NodeInstance → NodeInstance
first_node nodes best [] = best
first_node nodes best (node ∷ rest) =
    first_node nodes (if comes_before nodes node best then node else best) rest

unfoldable pub current_node_key : List RuntimeNode → List NodeInstance → Option String
current_node_key nodes instances =
    elim (select_if (λ node. is_active node.engine_state) instances) [
      | [] ↦ none
      | node ∷ rest ↦ some (first_node nodes node rest).node_key
    ]
