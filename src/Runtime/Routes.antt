-- ===== src/Runtime/Routes.antt =====
-- `_evaluate_routes_v3` and `_persist_traversals_v3`: which edges a completed node takes, and the
-- evidence that is kept of it.
pub mod Laws
pub mod Evidence
use Prim.Native.String.{◌++◌ as text_append}
use filum_reforge.Base.{
  ℕ, String, Bool, true, false, not, ◌&&◌, ◌||◌, Option, none, some, List, [], ◌∷◌, ◌++◌, ◌==◌,
  if◌then◌else◌, ltb, nat_eq, elem, take, Dict, lookup, insert, any, select_if, map,
}
use filum_reforge.Value.{Value, Fields, end, field, bool, str, text_lt}
use filum_reforge.Text.{lower, strip, or_text}
use filum_reforge.Errors.{Result, ok, raise, conflict}
use filum_reforge.Condition.{is_else_condition, evaluate_condition}
use filum_reforge.Runtime.Defs.{Database, Run, NodeInstance, Traversal, RuntimeEdge, Outside}

-- `(edge.priority, edge.to_node_key) < (other.priority, other.to_node_key)`
unfoldable pub goes_first : RuntimeEdge → RuntimeEdge → Bool
unfolding text_lt
goes_first edge other =
    ltb edge.priority other.priority
    || (nat_eq edge.priority other.priority && text_lt edge.to_node_key other.to_node_key)

unfoldable pub insert_edge : RuntimeEdge → List RuntimeEdge → List RuntimeEdge
insert_edge edge [] = edge ∷ []
insert_edge edge (other ∷ edges) =
    if goes_first other edge then other ∷ insert_edge edge edges else edge ∷ other ∷ edges

-- `sorted(edges, key=...)`, which is stable.
unfoldable pub sort_edges : List RuntimeEdge → List RuntimeEdge
sort_edges [] = []
sort_edges (edge ∷ edges) = insert_edge edge (sort_edges edges)

-- The forward edges that leave the node, in the order of their priority.
unfoldable pub outgoing : String → List RuntimeEdge → List RuntimeEdge
outgoing key edges = sort_edges (select_if (λ edge. edge.from_node_key == key) edges)

-- `edge.to_node_key` for each edge.
unfoldable pub targets : List RuntimeEdge → List String
targets edges = map (λ edge. edge.to_node_key) edges

unfoldable pub else_edges : List RuntimeEdge → List RuntimeEdge
else_edges edges = select_if (λ edge. is_else_condition edge.condition) edges

unfoldable pub matching : Fields → List RuntimeEdge → List RuntimeEdge
matching context edges =
    select_if
      (λ edge. not (is_else_condition edge.condition) && evaluate_condition edge.condition context)
      edges

-- The first note on each target; a later edge to the same target writes over it.
unfoldable pub judge_edges : Fields → List RuntimeEdge → Dict (Bool × String) → Dict (Bool × String)
judge_edges context [] evaluations = evaluations
judge_edges context (edge ∷ edges) evaluations =
    let result = evaluate_condition edge.condition context in
    let verdict =
      if is_else_condition edge.condition
      then (false, "else_candidate")
      else (result, if result then "condition_matched" else "condition_not_matched") in
    judge_edges context edges (insert edge.to_node_key verdict evaluations)

-- `evaluations[key]`; the key is there.
unfoldable pub evaluation : String → Dict (Bool × String) → Bool × String
evaluation key evaluations = elim (lookup key evaluations) [
  | some verdict ↦ verdict
  | none ↦ (false, "")
]

unfoldable pub final_verdict : String → Bool → Bool × String → Bool × String
final_verdict mode selected (matched, reason) =
    if selected
    then if reason == "else_candidate"
      then (true, "else_fallback_selected")
      else (matched, text_append mode "_selected")
    else if matched
    then (true, text_append mode "_not_selected")
    else (matched, reason)

-- The second loop over the edges.
unfoldable pub note_selection :
    String → List String → List RuntimeEdge → Dict (Bool × String) → Dict (Bool × String)
note_selection mode selected [] evaluations = evaluations
note_selection mode selected (edge ∷ edges) evaluations =
    let key = edge.to_node_key in
    note_selection mode selected edges
      (insert key (final_verdict mode (elem key selected) (evaluation key evaluations)) evaluations)

-- `matched or else_edges[:1]`, of which some modes take the first only.
unfoldable pub candidates : List RuntimeEdge → List RuntimeEdge → List RuntimeEdge
candidates [] others = take 1 others
candidates (edge ∷ edges) others = edge ∷ edges

unfoldable pub takes_one : String → Bool
takes_one mode = mode == "exclusive" || mode == "first_match"

unfoldable pub takes_all : String → Bool
takes_all mode = mode == "inclusive" || mode == "parallel"

-- `(routing_mode or "inclusive").strip().lower()`
unfoldable pub normal_mode : String → String → String
normal_mode mode default = lower (strip (or_text mode default))

unfoldable pub select_edges : String → List RuntimeEdge → Fields → List RuntimeEdge
select_edges mode edges context =
    let found = candidates (matching context edges) (else_edges edges) in
    if takes_one mode then take 1 found else found

unfoldable pub evaluate_routes :
    String → List RuntimeEdge → Fields → Result (List RuntimeEdge × Dict (Bool × String))
evaluate_routes routing_mode edges context =
    let mode = normal_mode routing_mode "inclusive" in
    let selected = select_edges mode edges context in
    let evaluations = judge_edges context edges [] in
    if takes_one mode || takes_all mode
    then ok (selected, note_selection mode (targets selected) edges evaluations)
    else raise (conflict (text_append "不支持的 routing_mode：" (text_append routing_mode "。")))

unfoldable pub find_traversal : String → String → List Traversal → Option Traversal
find_traversal source target [] = none
find_traversal source target (t ∷ ts) =
    if t.source_node_instance_id == source && t.to_node_key == target
    then some t
    else find_traversal source target ts

unfoldable pub new_traversal :
    Outside → ℕ → Run → NodeInstance → List String → Dict (Bool × String) → RuntimeEdge → Traversal
new_traversal outside now run source selected evaluations edge =
    let (matched, reason) = evaluation edge.to_node_key evaluations in
    record {
      source_node_instance_id = source.id;
      iteration = source.iteration;
      from_node_key = edge.from_node_key;
      to_node_key = edge.to_node_key;
      status = if elem edge.to_node_key selected then "taken" else "not_taken";
      condition = edge.condition;
      evidence = field "matched" (bool matched) (
          field "reason" (str reason) (
            field "context_digest" (str (outside.digest run.context))
              (field "evaluated_at" (str (outside.isoformat now)) end)));
      context_version = run.context_version;
    }

-- A traversal that is there already is kept as it is.
unfoldable pub persist_traversals :
    Outside
    → ℕ
    → Run
    → NodeInstance
    → List String
    → Dict (Bool × String)
    → List RuntimeEdge
    → List Traversal
    → List Traversal
persist_traversals outside now run source selected evaluations [] traversals = traversals
persist_traversals outside now run source selected evaluations (edge ∷ edges) traversals =
    let rest = persist_traversals outside now run source selected evaluations edges in
    elim (find_traversal source.id edge.to_node_key traversals) [
      | some known ↦ rest traversals
      | none ↦
          rest (traversals ++ (new_traversal outside now run source selected evaluations edge ∷ []))
    ]
