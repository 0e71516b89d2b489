-- ===== src/Runtime/Advance/Notices.antt =====
-- One notice that completes by itself: it is no longer open, and no other row changes.
use filum_reforge.Base.{
  ℕ, ◌<◌, String, ◌≡◌, refl, sym, subst, ◌∙◌, inl, inr, true, false, some, List, [], ◌∷◌, arith,
  Bool-cases, ◌==◌, eq_iff,
}
use filum_reforge.Value.{Fields}
use filum_reforge.Errors.{Yields, Yields-bind}
use filum_reforge.Handler.Defs.{
  NodeType, notice, same_type, Action, do_complete, EngineState, completed, activated,
  CapabilityContext, CapabilityResult,
}
use filum_reforge.Handler.Notice.{command_notice, notice_handler}
use filum_reforge.Handler.Registry.{
  completion_result, completion_action, handler_for, is_legacy, resolve,
}
use filum_reforge.Runtime.Defs.{
  NodeInstance, Database, Definition, Outside, is_open, is_activated, append_event,
}
use filum_reforge.Runtime.Nodes.{apply_capability_result}
use filum_reforge.Runtime.Nodes.Evolve.{
  Changes, Evolves, EvolveAll, EvolveAll-refl, open_count, apply_capability_result-Changes,
  apply_capability_result-engine_state,
}
use filum_reforge.Runtime.Join.{handlers}
use filum_reforge.Runtime.Advance.{
  end, str, field, find_node, put_node, complete_notice, is_active_notice,
}

-- The rows after are those before, changed where they are open.
unfoldable pub Later : Database → Database → Type 0
Later db after = EvolveAll db.nodes after.nodes

command_notice-completed :
    (context : CapabilityContext) (action : Action) (payload : Fields)
    → Yields (λ r. r.engine_state ≡ completed) (command_notice context action payload)
unfolding command_notice Yields
command_notice-completed context do_complete payload = refl
command_notice-completed context action payload = tt

put_node-EvolveAll :
    (node after : NodeInstance) (nodes : List NodeInstance)
    → find_node after.id nodes ≡ some node
    → Changes node after
    → EvolveAll nodes (put_node after nodes)
unfolding find_node put_node EvolveAll Evolves
put_node-EvolveAll node after [] e h = tt
put_node-EvolveAll node after (other ∷ nodes) e h = elim (Bool-cases (other.id == after.id)) [
  | inl same ↦
      let found : other ≡ node = ground arith in
      rw same (inr (subst (λ x. Changes x after) (sym found) h), EvolveAll-refl nodes)
  | inr different ↦
      rw different (inl refl, put_node-EvolveAll node after nodes (rw different at e) h)
]

open_count-put_node :
    (node after : NodeInstance) (nodes : List NodeInstance)
    → find_node after.id nodes ≡ some node
    → is_open node.engine_state ≡ true
    → is_open after.engine_state ≡ false
    → open_count (put_node after nodes) < open_count nodes
unfolding find_node put_node open_count
open_count-put_node node after [] e o c = cc
open_count-put_node node after (other ∷ nodes) e o c = elim (Bool-cases (other.id == after.id)) [
  | inl same ↦
      let found : other ≡ node = ground arith in
      let was = subst (λ x. is_open x.engine_state ≡ true) (sym found) o in
      rw same (ground (arith, was))
  | inr different ↦
      rw different (ground (arith, open_count-put_node node after nodes (rw different at e) o c))
]

find_node-id :
    (id : String) (node : NodeInstance) (nodes : List NodeInstance)
    → find_node id nodes ≡ some node
    → node.id ≡ id
unfolding find_node
find_node-id id node [] e = cc
find_node-id id node (other ∷ nodes) e = elim (Bool-cases (other.id == id)) [
  | inl same ↦
      let found : other ≡ node = ground arith in
      subst (λ x. x.id ≡ id) found ((eq_iff other.id id).0 same)
  | inr different ↦ find_node-id id node nodes (rw different at e)
]

same_type-notice : (kind : NodeType) → same_type kind notice ≡ true → kind ≡ notice
unfolding same_type
same_type-notice notice e = refl
same_type-notice kind e = cc

is_open-is_activated : (state : EngineState) → is_activated state ≡ true → is_open state ≡ true
unfolding is_open is_activated
is_open-is_activated activated e = refl
is_open-is_activated state e = cc

active_notice-facts :
    (node : NodeInstance)
    → is_active_notice node ≡ true
    → (node.node_type ≡ notice) × (is_open node.engine_state ≡ true)
unfolding is_active_notice
active_notice-facts node e = (
  same_type-notice node.node_type (ground arith),
  is_open-is_activated node.engine_state (ground arith),
)

closed_by :
    (result : CapabilityResult) (now : ℕ) (node : NodeInstance)
    → result.engine_state ≡ completed
    → is_open (apply_capability_result result now node).engine_state ≡ false
unfolding is_open
closed_by result now node e = rw (apply_capability_result-engine_state result now node, e) refl

find_same :
    (id : String) (node after : NodeInstance) (nodes : List NodeInstance)
    → find_node id nodes ≡ some node
    → Changes node after
    → find_node after.id nodes ≡ some node
unfolding Changes
find_same id node after nodes e h =
    subst (λ x. find_node x nodes ≡ some node) (sym (find_node-id id node nodes e) ∙ h.1) e

module _ (outside : Outside) (now : ℕ) (definition : Definition) where
  completion_result-completed :
      (context : CapabilityContext) (payload : Fields)
      → context.node_type ≡ notice
      → Yields
          (λ r. r.engine_state ≡ completed)
          (completion_result outside.show (handlers outside.show) context payload)
  unfolding completion_result handler_for is_legacy resolve handlers notice_handler same_type
  completion_result-completed context payload e =
      rw (e, completion_result, handler_for, is_legacy)
        (command_notice-completed context (completion_action outside.show context.config) payload)

  -- A notice that is completed is no longer open.
  unfoldable pub Settles : Database → NodeInstance × Database → Type 0
  Settles db (node, after) = Later db after × (open_count after.nodes < open_count db.nodes)

  pub complete_notice-Yields :
      (id : String) (node : NodeInstance) (db : Database)
      → find_node id db.nodes ≡ some node
      → is_active_notice node ≡ true
      → Yields (Settles db) (complete_notice outside now definition node db)
  unfolding complete_notice Settles Later append_event
  complete_notice-Yields id node db found active =
      let context : CapabilityContext = record {
        node_type = node.node_type;
        node_key = node.node_key;
        engine_state = node.engine_state;
        business_state = node.business_state;
        config = node.config;
      } in
      let payload = field "completion_mode" (str "automatic") end in
      let (kind, opened) = active_notice-facts node active in
      Yields-bind (λ r. r.engine_state ≡ completed) (Settles db)
        (completion_result outside.show (handlers outside.show) context payload) _
        (completion_result-completed context payload kind)
        (λ result done.
          let after = apply_capability_result result now node in
          let changes = apply_capability_result-Changes result now node opened in
          let here = find_same id node after db.nodes found changes in
          let closed = closed_by result now node done in
          unfold Yields in
          (
            put_node-EvolveAll node after db.nodes here changes,
            open_count-put_node node after db.nodes here opened closed,
          ))
