-- ===== src/Topology/Acyclic.antt =====
-- `_validate_forward_acyclic` of workflow_graph_template_topology.py: a depth-first search whose
-- calls share the sets `visiting` and `visited`.
pub mod Sound
pub mod Cycles
pub mod Ends
pub mod Correct
use filum_reforge.Base.{
  ℕ, zero, suc, String, Bool, true, false, Option, none, some, List, [], ◌∷◌, if◌then◌else◌, elem,
  add, remove, keys, length,
}
use filum_reforge.Topology.Defs.{TopologyError, cycle}
use filum_reforge.Topology.Edges.{successors}

pub record Marks : Type 0 where
  pub visiting : List String
  pub visited : List String

-- What a call returns and the sets that it leaves; `none` is fuel that ran out.
abbrev pub Search : Type 0
Search = Option (Bool × Marks)

-- `if dfs(k): return True` for each key in turn; `call` is `dfs`.
unfoldable pub dfs_each : (String → Marks → Search) → List String → Marks → Search
dfs_each call [] marks = some (false, marks)
dfs_each call (k ∷ ks) marks = elim (call k marks) [
  | none ↦ none
  | some (found, marks') ↦ elim found [
    | true ↦ some (true, marks')
    | false ↦ dfs_each call ks marks'
  ]
]

-- `visiting.remove(node_key)` and `visited.add(node_key)`, when no successor found a cycle.
unfoldable pub finish : String → Search → Search
unfolding add remove
finish k none = none
finish k (some (true, marks)) = some (true, marks)
finish k (some (false, marks)) =
    some (false, record { visiting = remove k marks.visiting; visited = add k marks.visited })

unfoldable pub enter : String → Marks → Marks
unfolding add
enter k marks = record marks { visiting = add k marks.visiting }

module _ (forward_adj : List (String × List String)) where
  unfoldable pub dfs : ℕ → String → Marks → Search
  dfs zero node_key marks = none
  dfs (suc fuel) node_key marks =
      if elem node_key marks.visiting
      then some (true, marks)
      else if elem node_key marks.visited
      then some (false, marks)
      else finish node_key
          (dfs_each (dfs fuel) (successors forward_adj node_key) (enter node_key marks))

abbrev pub no_marks : Marks
no_marks = record { visiting = []; visited = [] }

-- Every call in progress has its own key in `visiting`, so the depth is at most the number of keys
-- with successors, and one.
unfoldable pub has_cycle : List (String × List String) → Search
unfolding dfs dfs_each finish enter elem successors keys
has_cycle forward_adj =
    dfs_each (dfs forward_adj (suc (length (keys forward_adj)))) (keys forward_adj) no_marks

unfoldable pub validate_forward_acyclic : List (String × List String) → Option (List TopologyError)
unfolding has_cycle
validate_forward_acyclic forward_adj = elim (has_cycle forward_adj) [
  | none ↦ none
  | some (found, marks) ↦ some (if found then cycle ∷ [] else [])
]
