-- ===== src/Runtime/Routes/Laws.antt =====
-- Which edges the routing selects.
use filum_reforge.Base.{
  ◌≤◌, String, ◌≡◌, refl, subst, ◌↔◌, ◌⊎◌, inl, inr, Bool, true, false, not, ◌&&◌, List, [], ◌∷◌,
  arith, In, In-select_if, In-take_one, select_if-nil, take, length, Bool-cases, Dict,
  if◌then◌else◌,
}
use filum_reforge.Value.{Fields}
use filum_reforge.Errors.{ok}
use filum_reforge.Condition.{is_else_condition, evaluate_condition}
use filum_reforge.Runtime.Defs.{RuntimeEdge}
use filum_reforge.Runtime.Routes.{
  else_edges, matching, candidates, select_edges, evaluate_routes, takes_one, normal_mode,
}

-- The edge has a condition of its own, and it holds.
unfoldable pub Matches : Fields → RuntimeEdge → Type 0
Matches context edge =
    (is_else_condition edge.condition ≡ false) × (evaluate_condition edge.condition context ≡ true)

-- What a selection of routes promises.
pub record IsSelection (mode : String) (edges : List RuntimeEdge) (context : Fields)
    (selected : List RuntimeEdge) : Type 0 where
  -- Only edges that match are taken, or one ELSE edge if none does.
  pub justified :
      (edge : RuntimeEdge)
      → In edge selected
      → In edge edges
        × (Matches context edge
            ⊎ ((is_else_condition edge.condition ≡ true)
                × ((other : RuntimeEdge) → In other edges → ¬ Matches context other)))
  pub single : takes_one mode ≡ true → length selected ≤ 1
  pub complete :
      takes_one mode ≡ false
      → (edge : RuntimeEdge) → In edge edges
      → Matches context edge
      → In edge selected
  -- No route is a dead end: no edge matches and none is an ELSE edge.
  pub dead_end : (selected ≡ []) ↔ (
      (edge : RuntimeEdge)
      → In edge edges
      → (is_else_condition edge.condition ≡ false) × ¬ Matches context edge)

length-take_one : {A : Type 0} (xs : List A) → length (take 1 xs) ≤ 1
length-take_one [] = omega arith
length-take_one (x ∷ xs) = omega arith

take_one-nil : {A : Type 0} (xs : List A) → (take 1 xs ≡ []) ↔ (xs ≡ [])
take_one-nil [] = ground arith
take_one-nil (x ∷ xs) = ground arith

In-matching :
    (context : Fields) (edge : RuntimeEdge) (edges : List RuntimeEdge)
    → In edge (matching context edges) ↔ (In edge edges × Matches context edge)
unfolding matching Matches
In-matching context edge edges =
    let rule =
      In-select_if
        (λ e. not (is_else_condition e.condition) && evaluate_condition e.condition context) edge
        edges in
    ground (arith, rule)

matching-nil :
    (context : Fields) (edges : List RuntimeEdge)
    → (matching context edges ≡ [])
      ↔ ((edge : RuntimeEdge) → In edge edges → ¬ Matches context edge)
unfolding matching Matches
matching-nil context edges =
    let test : RuntimeEdge → Bool =
      λ e. not (is_else_condition e.condition) && evaluate_condition e.condition context in
    let rule = select_if-nil test edges in
    (
      λ e edge m h. ground (arith, rule.0 e edge m),
      λ h. rule.1 (λ edge m. ground (arith, h edge m)),
    )

else_edges-nil :
    (edges : List RuntimeEdge)
    → (else_edges edges ≡ [])
      ↔ ((edge : RuntimeEdge) → In edge edges → is_else_condition edge.condition ≡ false)
unfolding else_edges
else_edges-nil edges = select_if-nil (λ e. is_else_condition e.condition) edges

In-else_edges :
    (edge : RuntimeEdge) (edges : List RuntimeEdge)
    → In edge (else_edges edges) ↔ (In edge edges × (is_else_condition edge.condition ≡ true))
unfolding else_edges
In-else_edges edge edges = In-select_if (λ e. is_else_condition e.condition) edge edges

In-candidates :
    (edge : RuntimeEdge) (found others : List RuntimeEdge)
    → In edge (candidates found others)
    → In edge found ⊎ ((found ≡ []) × In edge others)
unfolding candidates
In-candidates edge [] others h = inr (refl, In-take_one edge others h)
In-candidates edge (e ∷ es) others h = inl h

candidates-nil :
    (found others : List RuntimeEdge)
    → (candidates found others ≡ []) ↔ ((found ≡ []) × (others ≡ []))
unfolding candidates
candidates-nil [] others = ground (arith, take_one-nil others)
candidates-nil (e ∷ es) others = ground arith

In-candidates-left :
    (edge : RuntimeEdge) (found others : List RuntimeEdge)
    → In edge found
    → In edge (candidates found others)
unfolding candidates
In-candidates-left edge [] others h = elim h [ ]
In-candidates-left edge (e ∷ es) others h = h

select_edges-nil :
    (mode : String) (edges : List RuntimeEdge) (context : Fields)
    → (select_edges mode edges context ≡ [])
      ↔ ((matching context edges ≡ []) × (else_edges edges ≡ []))
unfolding select_edges
select_edges-nil mode edges context =
    let found = candidates (matching context edges) (else_edges edges) in
    ground (arith, take_one-nil found, candidates-nil (matching context edges) (else_edges edges))

select_edges-IsSelection :
    (mode : String) (edges : List RuntimeEdge) (context : Fields)
    → IsSelection mode edges context (select_edges mode edges context)
unfolding select_edges
select_edges-IsSelection mode edges context =
    let found = candidates (matching context edges) (else_edges edges) in
    let within : (edge : RuntimeEdge)
        → In edge (if takes_one mode then take 1 found else found)
        → In edge found =
      λ edge h. elim (Bool-cases (takes_one mode)) [
        | inl e ↦ In-take_one edge found (rw e at h)
        | inr e ↦ rw e at h
      ] in
    record {
      justified = λ edge h.
          elim (In-candidates edge (matching context edges) (else_edges edges) (within edge h)) [
            | inl m ↦
                let (stands, matches) = (In-matching context edge edges).0 m in
                (stands, inl matches)
            | inr (none_match, m) ↦
                let (stands, is_else) = (In-else_edges edge edges).0 m in
                (stands, inr (is_else, (matching-nil context edges).0 none_match))
          ];
      single = λ e. rw e (length-take_one found);
      complete = λ e edge stands matches. rw e (
          In-candidates-left edge (matching context edges) (else_edges edges)
            ((In-matching context edge edges).1 (stands, matches)));
      dead_end = (
        λ e edge m.
            let (unmatched, no_else) = (select_edges-nil mode edges context).0 e in
            (
              (else_edges-nil edges).0 no_else edge m,
              (matching-nil context edges).0 unmatched edge m,
            ),
        λ h. (select_edges-nil mode edges context).1 (
          (matching-nil context edges).1 (λ edge m. (h edge m).1),
          (else_edges-nil edges).1 (λ edge m. (h edge m).0),
        ),
      );
    }

-- In each mode that is supported, the routes taken are a selection of the outgoing edges.
pub evaluate_routes-IsSelection :
    (routing_mode : String) (edges selected : List RuntimeEdge) (context : Fields)
    (evaluations : Dict (Bool × String))
    → evaluate_routes routing_mode edges context ≡ ok (selected, evaluations)
    → IsSelection (normal_mode routing_mode "inclusive") edges context selected
unfolding evaluate_routes
evaluate_routes-IsSelection routing_mode edges selected context evaluations h =
    let mode = normal_mode routing_mode "inclusive" in
    subst (IsSelection mode edges context) (ground arith)
      (select_edges-IsSelection mode edges context)
