-- ===== src/Topology/Nodes.antt =====
-- The checks of single nodes: `_validate_node_modes`, `_validate_routing_rules` and
-- `_validate_reject_targets` of workflow_graph_template_topology.py.
use filum_reforge.Base.{
  ℕ, suc, String, Bool, true, false, not, ◌&&◌, ◌||◌, Option, none, some, List, [], ◌∷◌, ◌++◌,
  if◌then◌else◌, ◌==◌, elem, any,
}
use filum_reforge.Value.{Value, str, arr, obj, Items, nil, cons, Fields, field, get, truthy}
use filum_reforge.Text.{lower_is, strip, or_text}
use filum_reforge.Condition.{is_else_condition}
use filum_reforge.Topology.Defs.{
  GraphTemplateNodeSpec, GraphTemplateEdgeSpec, TopologyError, bad_assignment_mode, bad_join_mode,
  single_needs_all, rules_not_list, rules_need_else, rule_not_object, rule_without_target,
  rule_without_condition, rule_unknown_target, reject_to_invalid, reject_to_unknown,
  reject_edge_missing,
}

-- A message where the test fails.
unfoldable pub report_if : Bool → TopologyError → List TopologyError
report_if b e = if b then e ∷ [] else []

unfoldable pub validate_node_modes : GraphTemplateNodeSpec → List TopologyError
unfolding lower_is strip or_text report_if
validate_node_modes node =
    let assignment_mode = strip (or_text node.assignment_mode "single") in
    let join_mode = strip (or_text node.join_mode "all") in
    let single = lower_is assignment_mode "single" in
    let all_joined = lower_is join_mode "all" in
    report_if (not (single || lower_is assignment_mode "fan_out"))
      (bad_assignment_mode node.node_key)
    ++ (report_if (not (all_joined || lower_is join_mode "any")) (bad_join_mode node.node_key)
        ++ report_if (single && not all_joined) (single_needs_all node.node_key))

-- `a or b`
unfoldable pub or_value : Value → Value → Value
unfolding truthy
or_value a b = if truthy a then a else b

-- What is wrong with a rule's target.
unfoldable pub validate_target : String → List String → ℕ → Value → List TopologyError
unfolding strip report_if elem
validate_target key node_keys index (str target) =
    if strip target == ""
    then rule_without_target key index ∷ []
    else report_if (not (elem target node_keys)) (rule_unknown_target key index target)
validate_target key node_keys index _ = rule_without_target key index ∷ []

unfoldable pub is_filled_object : Value → Bool
is_filled_object (obj (field k v fs)) = true
is_filled_object _ = false

unfoldable pub validate_rule : String → List String → ℕ → Value → List TopologyError
unfolding validate_target is_filled_object is_else_condition or_value get report_if
validate_rule key node_keys index (obj rule) =
    validate_target key node_keys index
      (or_value (get rule "target_node_key") (get rule "target_step_key"))
    ++ (if is_else_condition rule
        then []
        else report_if (not (is_filled_object (get rule "condition")))
            (rule_without_condition key index))
validate_rule key node_keys index _ = rule_not_object key index ∷ []

unfoldable pub validate_rules : String → List String → ℕ → Items → List TopologyError
unfolding validate_rule
validate_rules key node_keys index nil = []
validate_rules key node_keys index (cons rule rules) =
    validate_rule key node_keys index rule ++ validate_rules key node_keys (suc index) rules

unfoldable pub has_else : Items → Bool
unfolding is_else_condition
has_else nil = false
has_else (cons (obj rule) rules) = is_else_condition rule || has_else rules
has_else (cons _ rules) = has_else rules

unfoldable pub has_conditional : Items → Bool
unfolding is_else_condition
has_conditional nil = false
has_conditional (cons (obj rule) rules) = not (is_else_condition rule) || has_conditional rules
has_conditional (cons _ rules) = has_conditional rules

unfoldable pub validate_rule_list : String → List String → Value → List TopologyError
unfolding validate_rules has_else has_conditional report_if
validate_rule_list key node_keys (arr rules) =
    validate_rules key node_keys 1 rules
    ++ report_if (has_conditional rules && not (has_else rules)) (rules_need_else key)
validate_rule_list key node_keys _ = rules_not_list key ∷ []

unfoldable pub validate_routing_rules : GraphTemplateNodeSpec → List String → List TopologyError
unfolding validate_rule_list get truthy
validate_routing_rules node node_keys =
    let routing_rules = get node.config "routing_rules" in
    if truthy routing_rules then validate_rule_list node.node_key node_keys routing_rules else []

-- `(from_key, to_key) in reject_edge_targets`
unfoldable pub has_reject_edge : String → String → List GraphTemplateEdgeSpec → Bool
has_reject_edge from_key to_key =
    any
      (λ edge. edge.is_reject_path && edge.from_node_key == from_key && edge.to_node_key == to_key)

unfoldable pub validate_reject_key :
    String → List GraphTemplateEdgeSpec → List String → Value → List TopologyError
unfolding strip has_reject_edge elem
validate_reject_key key edges node_keys (str target) =
    if strip target == ""
    then reject_to_invalid key ∷ []
    else if not (elem target node_keys)
    then reject_to_unknown key target ∷ []
    else if not (has_reject_edge key target edges)
    then reject_edge_missing key target ∷ []
    else []
validate_reject_key key edges node_keys _ = reject_to_invalid key ∷ []

-- `acceptance_spec.reject_to.node_key`, where both are objects.
unfoldable pub reject_key : Fields → Option Value
unfolding get
reject_key config = elim (get config "acceptance_spec") [
  | obj spec ↦ elim (get spec "reject_to") [
    | obj reject_to ↦ some (get reject_to "node_key")
    | _ ↦ none
  ]
  | _ ↦ none
]

unfoldable pub validate_reject_target :
    List GraphTemplateEdgeSpec → List String → GraphTemplateNodeSpec → List TopologyError
unfolding validate_reject_key reject_key
validate_reject_target edges node_keys node = elim (reject_key node.config) [
  | some v ↦ validate_reject_key node.node_key edges node_keys v
  | none ↦ []
]

unfoldable pub validate_reject_targets :
    List GraphTemplateNodeSpec → List GraphTemplateEdgeSpec → List String → List TopologyError
unfolding validate_reject_target
validate_reject_targets [] edges node_keys = []
validate_reject_targets (node ∷ nodes) edges node_keys =
    validate_reject_target edges node_keys node ++ validate_reject_targets nodes edges node_keys
