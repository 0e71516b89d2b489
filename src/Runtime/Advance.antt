-- ===== src/Runtime/Advance.antt =====
-- `_activate_downstream_v3`: what follows when a node has completed, up to the notices that complete by
-- themselves and go on in turn.
pub mod Evolve
pub mod Skips
pub mod Notices
pub mod Ends
use Prim.Native.String.{◌++◌ as text_append}
use filum_reforge.Base.{
  ℕ, zero, suc, String, Bool, true, false, not, ◌&&◌, ◌||◌, Option, none, some, List, [], ◌∷◌, ◌++◌,
  ◌==◌, if◌then◌else◌, any, elem, minus, select_if, map, nat_eq, Dict,
}
use filum_reforge.Value.{Value, Fields, end, field, str, num, pos, obj}
use filum_reforge.Errors.{Result, ok, raise, ◌>>=◌}
use filum_reforge.Handler.Defs.{
  NodeType, notice, same_type, CapabilityContext, CapabilityResult, map_result,
}
use filum_reforge.Handler.Registry.{completion_result}
use filum_reforge.Runtime.Defs.{
  Run, NodeInstance, Dependency, Database, RuntimeNode, RuntimeEdge, Definition, Outside,
  is_activated, append_event,
}
use filum_reforge.Runtime.Routes.{outgoing, targets, evaluate_routes, persist_traversals}
use filum_reforge.Runtime.Reach.{reachable_node_keys}
use filum_reforge.Runtime.Nodes.{skip_pending_nodes, apply_capability_result}
use filum_reforge.Runtime.Complete.{
  fail_graph, maybe_complete_instance, current_node_key, node_named,
}
use filum_reforge.Runtime.Join.{handlers, is_target, scan_ready_nodes, has_some}

-- The search never runs out of fuel, so `none` does not occur.
unfoldable pub downstream_keys : List String → List RuntimeEdge → List String
downstream_keys starts edges = elim (reachable_node_keys starts edges) [
  | some found ↦ found
  | none ↦ []
]

unfoldable pub forward_edges : Definition → List RuntimeEdge
forward_edges definition = select_if (λ edge. not edge.is_reject_path) definition.edges

-- The nodes behind the routes that were not taken, without those behind a route that was.
unfoldable pub abandoned_keys : List RuntimeEdge → List RuntimeEdge → List RuntimeEdge → List String
abandoned_keys edges leaving selected =
    minus (downstream_keys (minus (targets leaving) (targets selected)) edges)
      (downstream_keys (targets selected) edges)

unfoldable pub add_dependency : NodeInstance → NodeInstance → List Dependency → List Dependency
add_dependency source target dependencies =
    if any (λ d. d.node_instance_id == target.id && d.source_node_instance_id == source.id)
      dependencies
    then dependencies
    else dependencies
      ++ (record {
        node_instance_id = target.id;
        source_node_instance_id = source.id;
        iteration = target.iteration;
        target_node_key = target.node_key;
        status = "satisfied";
      }
          ∷ [])

unfoldable pub add_dependencies :
    NodeInstance → List NodeInstance → List Dependency → List Dependency
add_dependencies source [] dependencies = dependencies
add_dependencies source (target ∷ nodes) dependencies =
    add_dependencies source nodes (add_dependency source target dependencies)

-- A dependency for each pending instance of each route that is taken.
unfoldable pub produce_activations :
    NodeInstance → List RuntimeEdge → List NodeInstance → List Dependency → List Dependency
produce_activations source [] nodes dependencies = dependencies
produce_activations source (edge ∷ edges) nodes dependencies =
    produce_activations source edges nodes (
      add_dependencies source (select_if (is_target edge.to_node_key source.iteration) nodes)
        dependencies)

unfoldable pub find_node : String → List NodeInstance → Option NodeInstance
find_node id [] = none
find_node id (node ∷ nodes) = if node.id == id then some node else find_node id nodes

unfoldable pub put_node : NodeInstance → List NodeInstance → List NodeInstance
put_node node [] = []
put_node node (other ∷ nodes) =
    if other.id == node.id then node ∷ nodes else other ∷ put_node node nodes

unfoldable pub is_active_notice : NodeInstance → Bool
is_active_notice node = same_type node.node_type notice && is_activated node.engine_state

unfoldable pub active_notices : Database → List String
active_notices db = map (λ node. node.id) (select_if is_active_notice db.nodes)

-- The next call, unless fuel ran out or an exception was raised.
unfoldable pub then_run :
    (Database → Option (Result Database)) → Option (Result Database) → Option (Result Database)
then_run next none = none
then_run next (some (raise e)) = some (raise e)
then_run next (some (ok db)) = next db

unfoldable pub then_follow :
    (NodeInstance → Database → Option (Result Database))
    → Result (NodeInstance × Database)
    → Option (Result Database)
then_follow follow (raise e) = some (raise e)
then_follow follow (ok (node, db)) = follow node db

module _ (outside : Outside) (now : ℕ) (definition : Definition) where
  unfoldable pub fail_without_node : String → Database → Database
  fail_without_node key db =
      fail_graph now "snapshot_node_missing" (text_append "快照中不存在节点 " (text_append key "。")) end db

  unfoldable pub skip_nodes : List String → ℕ → String → Database → Database
  skip_nodes node_keys iteration reason db = record db {
    nodes = (skip_pending_nodes outside now node_keys iteration reason db.nodes).1;
  }

  -- No route is taken: every other node is skipped and the run fails.
  unfoldable pub fail_without_route : NodeInstance → RuntimeNode → Database → Database
  fail_without_route source node db =
      let others =
        map (λ n. n.node_key)
          (select_if (λ n. not (n.node_key == node.node_key)) definition.nodes) in
      fail_graph now "no_route" (text_append "节点 " (text_append node.node_key " 没有匹配的前进路由。"))
        (field "node_instance_id" (str source.id) (
          field "node_key" (str node.node_key) (
            field "routing_mode" (str node.routing_mode)
              (field "context_version" (num (pos db.run.context_version)) end))))
        (skip_nodes others source.iteration "no_route" db)

  -- From the skipping of the other branches to the activation of the nodes that are ready.
  unfoldable pub take_routes :
      NodeInstance → List RuntimeEdge → List RuntimeEdge → Database → Result Database
  take_routes source leaving selected db = do
    let edges = forward_edges definition
    let skipped =
        skip_nodes (abandoned_keys edges leaving selected) source.iteration "route_not_selected" db
    let produced = record skipped {
      dependencies = produce_activations source selected skipped.nodes skipped.dependencies;
    }
    after ← scan_ready_nodes outside now source.iteration definition.nodes edges produced
    ok (record after {
      run = record after.run { current_node_key = current_node_key definition.nodes after.nodes };
    })

  -- Once the routes are evaluated. `true` says that notices may follow.
  unfoldable pub follow_routes :
      NodeInstance
      → RuntimeNode
      → List RuntimeEdge
      → List RuntimeEdge
      → Dict (Bool × String)
      → Database
      → Result (Bool × Database)
  follow_routes source node leaving selected evaluations db =
      let recorded = record db {
        traversals =
            persist_traversals outside now db.run source (targets selected) evaluations leaving
              db.traversals;
      } in
      if has_some selected
      then (do after ← take_routes source leaving selected recorded; ok (true, after))
      else ok (false, fail_without_route source node recorded)

  unfoldable pub leave_node : NodeInstance → RuntimeNode → Database → Result (Bool × Database)
  leave_node source node db =
      let leaving = outgoing node.node_key (forward_edges definition) in
      if has_some leaving
      then (do
        (selected, evaluations) ← evaluate_routes node.routing_mode leaving db.run.context
        follow_routes source node leaving selected evaluations db)
      else ok (false, maybe_complete_instance outside now definition db)

  -- All of the function but the notices and the last look at the run.
  unfoldable pub advance : NodeInstance → Database → Result (Bool × Database)
  advance source db = elim (node_named source.node_key definition.nodes) [
    | none ↦ ok (false, fail_without_node source.node_key db)
    | some node ↦ leave_node source node db
  ]

  -- A notice is completed without anyone.
  unfoldable pub complete_notice : NodeInstance → Database → Result (NodeInstance × Database)
  complete_notice node db = do
    result ←
        completion_result outside.show (handlers outside.show)
          (record {
            node_type = node.node_type;
            node_key = node.node_key;
            engine_state = node.engine_state;
            business_state = node.business_state;
            config = node.config;
          })
          (field "completion_mode" (str "automatic") end)
    let after = apply_capability_result result now node
    let payload = field "node_instance_id" (str after.id) (
        field "node_key" (str after.node_key) (
          field "instance_key" (str after.instance_key)
            (field "capability_result" (obj (map_result result)) end)))
    ok (
      after,
      append_event "node_auto_completed" payload (record db { nodes = put_node after db.nodes }),
    )

  -- `_auto_complete_notice_nodes`, over what follows a node that has completed. A notice that a deeper
  -- call has completed meanwhile is passed over.
  unfoldable pub complete_notices :
      (NodeInstance → Database → Option (Result Database))
      → List String
      → Database
      → Option (Result Database)
  complete_notices follow [] db = some (ok db)
  complete_notices follow (id ∷ ids) db =
      let rest = complete_notices follow ids in
      elim (find_node id db.nodes) [
        | none ↦ rest db
        | some node ↦
            if is_active_notice node
            then then_run rest (then_follow follow (complete_notice node db))
            else rest db
      ]

  -- The last look at the run, after the notices.
  unfoldable pub after_advance :
      (NodeInstance → Database → Option (Result Database))
      → Result (Bool × Database)
      → Option (Result Database)
  after_advance follow (raise e) = some (raise e)
  after_advance follow (ok (false, db)) = some (ok db)
  after_advance follow (ok (true, db)) =
      then_run (λ last. some (ok (maybe_complete_instance outside now definition last)))
        (complete_notices follow (active_notices db) db)

  -- `none` is fuel that ran out.
  unfoldable pub activate_downstream : ℕ → NodeInstance → Database → Option (Result Database)
  activate_downstream zero source db = none
  activate_downstream (suc fuel) source db =
      after_advance (activate_downstream fuel) (advance source db)
