-- ===== src/Search.antt =====
-- The worklist loop that backend/app/services writes three times: `_validate_reachability` of
-- workflow_graph_template_topology.py, `_reachable_node_keys_v3` of workflow_graph_service.py and
-- `would_create_template_chain_cycle` of workflow_graph_template_chain_service.py.
pub mod Correct
pub mod Ends
use filum_reforge.Base.{
  ℕ, zero, suc, String, ◌≡◌, true, false, Option, none, some, List, [], ◌∷◌, elem, if◌then◌else◌,
}

-- Out of fuel is `none`. `extend visited current rest` is the worklist after `current` is expanded.
unfoldable pub search :
    (List String → String → List String → List String)
    → ℕ
    → List String
    → List String
    → Option (List String)
search extend fuel visited [] = some visited
search extend zero visited (current ∷ rest) = none
search extend (suc fuel) visited (current ∷ rest) =
    let skip = search extend fuel visited rest in
    let expand = search extend fuel (current ∷ visited) (extend (current ∷ visited) current rest) in
    if elem current visited then skip else expand

-- A path along edges, of any length.
pub data Walk (next : String → List String) (u : String) : String → Type 0 where
  here : Walk next u u
  step : {v w : String} → Walk next u v → elem w (next v) ≡ true → Walk next u w

-- `v` can be reached from one of the starts.
unfoldable pub Reached : (String → List String) → List String → String → Type 0
Reached next starts v = (s : String) × (elem s starts ≡ true) × Walk next s v

-- What the loop asks of `extend`: it keeps the rest, adds successors only, and leaves one out only
-- if it is visited.
pub record Extends (next : String → List String)
    (extend : List String → String → List String → List String) : Type 0 where
  pub adds :
      (visited : List String) (c : String) (rest : List String) (w : String)
      → elem w (extend visited c rest) ≡ true
      → elem w rest ≡ false
      → elem w (next c) ≡ true
  pub keeps :
      (visited : List String) (c : String) (rest : List String) (w : String)
      → elem w rest ≡ true
      → elem w (extend visited c rest) ≡ true
  pub covers :
      (visited : List String) (c : String) (rest : List String) (w : String)
      → elem w (next c) ≡ true
      → elem w visited ≡ false
      → elem w (extend visited c rest) ≡ true
