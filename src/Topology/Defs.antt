-- ===== src/Topology/Defs.antt =====
-- The data of workflow_graph_template_topology.py, and its messages as values: a constructor for
-- each message, over what the message shows.
use filum_reforge.Base.{ℕ, String, Bool, List}
use filum_reforge.Value.{Fields}

pub record GraphTemplateNodeSpec : Type 0 where
  pub node_key : String
  pub assignment_mode : String
  pub join_mode : String
  pub config : Fields

pub record GraphTemplateEdgeSpec : Type 0 where
  pub from_node_key : String
  pub to_node_key : String
  pub is_reject_path : Bool
  pub condition : Fields
  pub priority : ℕ

pub data TopologyError : Type 0 where
  no_nodes no_entry cycle : TopologyError
  bad_assignment_mode bad_join_mode single_needs_all : String → TopologyError
  rules_not_list rules_need_else : String → TopologyError
  rule_not_object rule_without_target rule_without_condition : String → ℕ → TopologyError
  rule_unknown_target : String → ℕ → String → TopologyError
  edge_from_missing edge_to_missing branch_needs_default : String → TopologyError
  self_edge : String → String → TopologyError
  duplicate_edge : String → String → Bool → TopologyError
  unreachable : List String → TopologyError
  reject_to_invalid : String → TopologyError
  reject_to_unknown reject_edge_missing : String → String → TopologyError
