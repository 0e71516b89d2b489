-- ===== src/Runtime/Reach/Correct.antt =====
-- `_reachable_node_keys_v3` ends with the nodes that a path along edges leads to.
use filum_reforge.Base.{
  ◌+◌, ◌≤◌, String, ◌≡◌, ◌↔◌, true, some, List, [], ◌∷◌, arith, length, length-append, minus, keys,
  elem, elem-append, elem-minus, Any,
}
use filum_reforge.Text.{sorted}
use filum_reforge.Text.Sorted.{elem-sorted, length-sorted}
use filum_reforge.Search.{Extends, Walk, here, step, Reached}
use filum_reforge.Search.Correct.{search-Reached}
use filum_reforge.Search.Ends.{search_ends}
use filum_reforge.Topology.Edges.{successors}
use filum_reforge.Topology.Edges.Adjacency.{successors-connect}
use filum_reforge.Topology.Reachability.{out_degrees}
use filum_reforge.Topology.Reachability.Correct.{successors-eq-nil, open_edges-nil}
use filum_reforge.Runtime.Defs.{RuntimeEdge}
use filum_reforge.Runtime.Reach.{adjacency, enqueue, reachable_node_keys}

-- A path along the edges of the list.
pub data Leads (edges : List RuntimeEdge) (u : String) : String → Type 0 where
  stay : Leads edges u u
  along :
      {v w : String}
      → Leads edges u v
      → Any (λ edge. (edge.from_node_key ≡ v) × (edge.to_node_key ≡ w)) edges
      → Leads edges u w

-- A path from one of the starts.
unfoldable pub Downstream : List String → List RuntimeEdge → String → Type 0
Downstream starts edges v = (u : String) × (elem u starts ≡ true) × Leads edges u v

successors-adjacency :
    (edges : List RuntimeEdge) (u v : String)
    → (elem v (successors (adjacency edges) u) ≡ true)
      ↔ Any (λ edge. (edge.from_node_key ≡ u) × (edge.to_node_key ≡ v)) edges
unfolding adjacency elem successors
successors-adjacency [] u v = ground arith
successors-adjacency (edge ∷ edges) u v = ground (
  arith,
  successors-connect edge.from_node_key edge.to_node_key (adjacency edges) u v,
  successors-adjacency edges u v,
)

enqueue-Extends : (adj : List (String × List String)) → Extends (successors adj) (enqueue adj)
unfolding enqueue
enqueue-Extends adj =
    let found : (visited : List String) (c : String) → List String =
      λ visited c. sorted (minus (successors adj c) visited) in
    record {
      adds = λ visited c rest w h r. ground (
        arith,
        elem-append w rest (found visited c),
        elem-sorted w (minus (successors adj c) visited),
        elem-minus w (successors adj c) visited,
      );
      keeps = λ visited c rest w h. ground (arith, elem-append w rest (found visited c));
      covers = λ visited c rest w h v. ground (
        arith,
        elem-append w rest (found visited c),
        elem-sorted w (minus (successors adj c) visited),
        elem-minus w (successors adj c) visited,
      );
    }

length-minus : (xs ys : List String) → length (minus xs ys) ≤ length xs
unfolding minus
length-minus [] ys = omega arith
length-minus (x ∷ xs) ys = ground (arith, length-minus xs ys)

length-enqueue :
    (adj : List (String × List String)) (visited : List String) (c : String) (rest : List String)
    → length (enqueue adj visited c rest) ≤ length rest + length (successors adj c)
unfolding enqueue
length-enqueue adj visited c rest = omega (
  arith,
  length-append rest (sorted (minus (successors adj c) visited)),
  length-sorted (minus (successors adj c) visited),
  length-minus (successors adj c) visited,
)

path_along_edges :
    (edges : List RuntimeEdge) {u v : String}
    → Walk (successors (adjacency edges)) u v
    → Leads edges u v
path_along_edges edges here = stay
path_along_edges edges (step {v} {w} p e) =
    along (path_along_edges edges p) ((successors-adjacency edges v w).0 e)

path_along_adjacency :
    (edges : List RuntimeEdge) {u v : String}
    → Leads edges u v
    → Walk (successors (adjacency edges)) u v
path_along_adjacency edges stay = here
path_along_adjacency edges (along {v} {w} p e) =
    step (path_along_adjacency edges p) ((successors-adjacency edges v w).1 e)

-- The loop ends, with exactly the nodes that a path along the edges leads to from one of the starts.
pub reachable_node_keys_correct :
    (starts : List String) (edges : List RuntimeEdge)
    → (found : List String) × (reachable_node_keys starts edges ≡ some found)
      × ((v : String) → (elem v found ≡ true) ↔ Downstream starts edges v)
unfolding reachable_node_keys Reached Downstream
reachable_node_keys_correct starts edges =
    let adj = adjacency edges in
    let fuel = out_degrees adj (keys adj) + length starts in
    let (found, e) =
      search_ends (successors adj) (enqueue adj) (keys adj) (successors-eq-nil adj)
        (length-enqueue adj) fuel [] starts (omega (arith, open_edges-nil adj (keys adj))) in
    let rule =
      search-Reached (successors adj) (enqueue adj) (enqueue-Extends adj) starts fuel found e in
    (
      found,
      e,
      λ v. (
        λ m. let (u, s, p) = (rule v).0 m in (u, s, path_along_edges edges p),
        λ (u, s, p). (rule v).1 (u, s, path_along_adjacency edges p),
      ),
    )
