-- ===== src/Runtime/Nodes/Evolve.antt =====
-- What the engine may do to a node instance: only a node that is open is changed, it stays the same
-- node, and its version grows.
use filum_reforge.Base.{
  ℕ, ◌+◌, ◌≤◌, ◌<◌, String, ◌≡◌, refl, sym, ap, ◌∙◌, subst, ◌⊎◌, inl, inr, Bool, true, List, [],
  ◌∷◌, arith, if◌then◌else◌, Bool-cases,
}
use filum_reforge.Errors.{Yields, Yields-if}
use filum_reforge.Handler.Defs.{
  NodeType, task, approval, notice, EngineState, pending, activated, CapabilityResult,
}
use filum_reforge.Runtime.Defs.{NodeInstance, Outside, is_open, is_pending, is_active}
use filum_reforge.Runtime.Nodes.{
  update_if, is_skippable, skip_node, skip_pending_nodes, is_peer, terminate_node,
  terminate_wait_any_peer_nodes, stamp, stamp_task, stamp_for, apply_capability_result,
  is_cancel_policy,
}

unfoldable pub Changes : NodeInstance → NodeInstance → Type 0
Changes before after =
    (is_open before.engine_state ≡ true)
    × (before.id ≡ after.id)
    × (before.node_key ≡ after.node_key)
    × (before.iteration ≡ after.iteration)
    × (before.node_instance_version < after.node_instance_version)

unfoldable pub Evolves : NodeInstance → NodeInstance → Type 0
unfolding Changes
Evolves before after = (before ≡ after) ⊎ Changes before after

-- Row by row.
unfoldable pub EvolveAll : List NodeInstance → List NodeInstance → Type 0
EvolveAll [] [] = Unit
EvolveAll (a ∷ xs) (b ∷ ys) = Evolves a b × EvolveAll xs ys
EvolveAll _ _ = ⊥

-- The nodes that the engine still moves.
unfoldable pub open_count : List NodeInstance → ℕ
open_count [] = 0
open_count (node ∷ nodes) = (if is_open node.engine_state then 1 else 0) + open_count nodes

Evolves-trans : (a b c : NodeInstance) → Evolves a b → Evolves b c → Evolves a c
unfolding Evolves
Evolves-trans a b c = λ ab bc. elim bc [
  | inl e ↦ subst (Evolves a) e ab
  | inr (open_b, id, key, iteration, version) ↦ elim ab [
    | inl e ↦ subst (λ x. Evolves x c) (sym e) (inr (open_b, id, key, iteration, version))
    | inr (open_a, id', key', iteration', version') ↦
        inr (open_a, id' ∙ id, key' ∙ key, iteration' ∙ iteration, omega arith)
  ]
]

pub EvolveAll-refl : (nodes : List NodeInstance) → EvolveAll nodes nodes
unfolding EvolveAll Evolves
EvolveAll-refl [] = tt
EvolveAll-refl (node ∷ nodes) = (inl refl, EvolveAll-refl nodes)

pub EvolveAll-trans :
    (xs ys zs : List NodeInstance) → EvolveAll xs ys → EvolveAll ys zs → EvolveAll xs zs
unfolding EvolveAll
EvolveAll-trans [] [] [] h k = tt
EvolveAll-trans [] [] (c ∷ zs) h k = elim k [ ]
EvolveAll-trans [] (b ∷ ys) zs h k = elim h [ ]
EvolveAll-trans (a ∷ xs) [] zs h k = elim h [ ]
EvolveAll-trans (a ∷ xs) (b ∷ ys) [] h k = elim k [ ]
EvolveAll-trans (a ∷ xs) (b ∷ ys) (c ∷ zs) (h, hs) (k, ks) =
    (Evolves-trans a b c h k, EvolveAll-trans xs ys zs hs ks)

pub open_count-EvolveAll :
    (xs ys : List NodeInstance) → EvolveAll xs ys → open_count ys ≤ open_count xs
unfolding EvolveAll open_count Evolves
open_count-EvolveAll [] [] h = omega arith
open_count-EvolveAll [] (b ∷ ys) h = elim h [ ]
open_count-EvolveAll (a ∷ xs) [] h = elim h [ ]
open_count-EvolveAll (a ∷ xs) (b ∷ ys) (h, hs) = elim h [
  | inl e ↦
      let same = ap (λ node. is_open node.engine_state) e in
      ground (arith, open_count-EvolveAll xs ys hs, same)
  | inr changed ↦
      let was_open = changed.0 in ground (arith, open_count-EvolveAll xs ys hs, was_open)
]

pub update_if-EvolveAll :
    (test : NodeInstance → Bool) (change : NodeInstance → NodeInstance) (nodes : List NodeInstance)
    → ((node : NodeInstance) → test node ≡ true → Evolves node (change node))
    → EvolveAll nodes (update_if test change nodes)
unfolding EvolveAll update_if Evolves
update_if-EvolveAll test change [] h = tt
update_if-EvolveAll test change (node ∷ nodes) h = elim (Bool-cases (test node)) [
  | inl e ↦ rw e (h node e, update_if-EvolveAll test change nodes h)
  | inr e ↦ rw e (inl refl, update_if-EvolveAll test change nodes h)
]

-- An open node gets a version that is one higher.
stamp_for-Changes :
    (kind : NodeType) (state : EngineState) (now : ℕ) (before node : NodeInstance)
    → is_open before.engine_state ≡ true
    → before.id ≡ node.id
    → before.node_key ≡ node.node_key
    → before.iteration ≡ node.iteration
    → before.node_instance_version < node.node_instance_version
    → Changes before (stamp_for kind state now node)
unfolding Changes stamp_for stamp stamp_task
stamp_for-Changes task activated now before node o i k t v = (o, i, k, t, v)
stamp_for-Changes approval activated now before node o i k t v = (o, i, k, t, v)
stamp_for-Changes notice activated now before node o i k t v = (o, i, k, t, v)
stamp_for-Changes kind state now before node o i k t v = (o, i, k, t, v)

stamp_for-engine_state :
    (kind : NodeType) (state : EngineState) (now : ℕ) (node : NodeInstance)
    → (stamp_for kind state now node).engine_state ≡ node.engine_state
unfolding stamp_for stamp stamp_task
stamp_for-engine_state task activated now node = refl
stamp_for-engine_state approval activated now node = refl
stamp_for-engine_state notice activated now node = refl
stamp_for-engine_state kind state now node = refl

pub apply_capability_result-engine_state :
    (result : CapabilityResult) (now : ℕ) (node : NodeInstance)
    → (apply_capability_result result now node).engine_state ≡ result.engine_state
unfolding apply_capability_result
apply_capability_result-engine_state result now node =
    stamp_for-engine_state node.node_type result.engine_state now _

pub apply_capability_result-Changes :
    (result : CapabilityResult) (now : ℕ) (node : NodeInstance)
    → is_open node.engine_state ≡ true
    → Changes node (apply_capability_result result now node)
unfolding apply_capability_result
apply_capability_result-Changes result now node o =
    stamp_for-Changes node.node_type result.engine_state now node _ o refl refl refl (omega arith)

pub is_open-is_pending : (state : EngineState) → is_pending state ≡ true → is_open state ≡ true
unfolding is_open is_pending
is_open-is_pending pending e = refl
is_open-is_pending state e = ground arith

pub is_open-is_active : (state : EngineState) → is_active state ≡ true → is_open state ≡ true
unfolding is_open is_active
is_open-is_active activated e = refl
is_open-is_active state e = ground arith

skip_node-Evolves :
    (outside : Outside) (now : ℕ) (node_keys : List String) (iteration : ℕ) (reason : String)
    (node : NodeInstance)
    → is_skippable node_keys iteration node ≡ true
    → Evolves node (skip_node outside now reason node)
unfolding Evolves is_skippable skip_node
skip_node-Evolves outside now node_keys iteration reason node e =
    let rule = is_open-is_pending node.engine_state in
    inr (ground arith, refl, refl, refl, omega arith)

terminate_node-Evolves :
    (outside : Outside) (now : ℕ) (upstream winners : List String) (policy : String) (iteration : ℕ)
    (node : NodeInstance)
    → is_peer upstream winners iteration node ≡ true
    → Evolves node (terminate_node outside now policy node)
unfolding Evolves is_peer terminate_node
terminate_node-Evolves outside now upstream winners policy iteration node e =
    let rule = is_open-is_active node.engine_state in
    inr (ground arith, refl, refl, refl, omega arith)

pub skip_pending_nodes-EvolveAll :
    (outside : Outside) (now : ℕ) (node_keys : List String) (iteration : ℕ) (reason : String)
    (nodes : List NodeInstance)
    → EvolveAll nodes (skip_pending_nodes outside now node_keys iteration reason nodes).1
unfolding skip_pending_nodes
skip_pending_nodes-EvolveAll outside now node_keys iteration reason nodes =
    update_if-EvolveAll (is_skippable node_keys iteration) (skip_node outside now reason) nodes
      (skip_node-Evolves outside now node_keys iteration reason)

pub terminate_wait_any_peer_nodes-Yields :
    (outside : Outside) (now : ℕ) (upstream winners : List String) (policy : String) (iteration : ℕ)
    (nodes : List NodeInstance)
    → Yields
        (EvolveAll nodes)
        (terminate_wait_any_peer_nodes outside now upstream winners policy iteration nodes)
unfolding terminate_wait_any_peer_nodes Yields
terminate_wait_any_peer_nodes-Yields outside now upstream winners policy iteration nodes =
    let all =
      update_if-EvolveAll (is_peer upstream winners iteration) (terminate_node outside now policy)
        nodes (terminate_node-Evolves outside now upstream winners policy iteration) in
    Yields-if (EvolveAll nodes) (is_cancel_policy policy) _ _ all tt
