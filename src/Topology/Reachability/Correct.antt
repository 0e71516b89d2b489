-- ===== src/Topology/Reachability/Correct.antt =====
-- `_validate_reachability` ends, and reports exactly the nodes that no entry leads to.
use filum_reforge.Base.{
  ◌∙◌, ◌+◌, ◌≤◌, String, ◌≡◌, refl, ◌↔◌, ◌⊎◌, inl, inr, true, false, some, List, [], ◌∷◌, arith,
  length, length-append, minus, keys, lookup-eq-none, elem, elem-append, elem-minus, eq_iff,
  Bool-cases,
}
use filum_reforge.Text.{sorted}
use filum_reforge.Text.Sorted.{elem-sorted}
use filum_reforge.Search.{Extends, Reached}
use filum_reforge.Search.Correct.{search-Reached}
use filum_reforge.Search.Ends.{open_edges, search_ends}
use filum_reforge.Topology.Defs.{TopologyError}
use filum_reforge.Topology.Edges.{successors}
use filum_reforge.Topology.Reachability.{
  push_successors, out_degrees, reachable_keys, report_orphans, validate_reachability,
}

module _ (adj : List (String × List String)) where
  push_successors-Extends : Extends (successors adj) (push_successors adj)
  unfolding push_successors
  push_successors-Extends = record {
    adds = λ visited c rest w h r. ground (arith, elem-append w (successors adj c) rest);
    keeps = λ visited c rest w h. ground (arith, elem-append w (successors adj c) rest);
    covers = λ visited c rest w h v. ground (arith, elem-append w (successors adj c) rest);
  }

  length-push_successors :
      (visited : List String) (c : String) (rest : List String)
      → length (push_successors adj visited c rest) ≤ length rest + length (successors adj c)
  unfolding push_successors
  length-push_successors visited c rest = omega (arith, length-append (successors adj c) rest)

  pub successors-eq-nil : (c : String) → elem c (keys adj) ≡ false → successors adj c ≡ []
  unfolding successors
  successors-eq-nil c h = ground (arith, lookup-eq-none c adj)

  pub open_edges-nil : (ks : List String) → open_edges (successors adj) [] ks ≡ out_degrees adj ks
  unfolding open_edges out_degrees elem
  open_edges-nil [] = refl
  open_edges-nil (k ∷ ks) = omega (arith, open_edges-nil ks)

  pub reachable_keys-Reached :
      (entries : List String)
      → (found : List String) × (reachable_keys entries adj ≡ some found)
        × ((v : String) → (elem v found ≡ true) ↔ Reached (successors adj) entries v)
  unfolding reachable_keys
  reachable_keys-Reached entries =
      let fuel = out_degrees adj (keys adj) + length entries in
      let (found, e) =
        search_ends (successors adj) (push_successors adj) (keys adj) successors-eq-nil
          length-push_successors fuel [] entries (omega (arith, open_edges-nil (keys adj))) in
      (
        found,
        e,
        search-Reached (successors adj) (push_successors adj) push_successors-Extends entries fuel
            found e,
      )

-- A list with no element is empty.
pub nil_of_elem : (xs : List String) → ((v : String) → elem v xs ≡ false) → xs ≡ []
unfolding elem
nil_of_elem [] h = refl
nil_of_elem (x ∷ xs) h = ground (arith, h x, eq_iff x x)

report_orphans-nil : (xs : List String) → report_orphans xs ≡ [] → xs ≡ []
unfolding report_orphans
report_orphans-nil [] h = refl
report_orphans-nil (x ∷ xs) h = cc

orphans_nil :
    (node_keys found : List String)
    → ((v : String) → elem v node_keys ≡ true → elem v found ≡ true)
    → sorted (minus node_keys found) ≡ []
orphans_nil node_keys found h =
    nil_of_elem (sorted (minus node_keys found))
      λ v. ground (arith, elem-sorted v (minus node_keys found), elem-minus v node_keys found, h v)

found_of_nil :
    (node_keys found : List String) (v : String)
    → sorted (minus node_keys found) ≡ []
    → elem v node_keys ≡ true
    → elem v found ≡ true
unfolding elem
found_of_nil node_keys found v e h = elim (Bool-cases (elem v found)) [
  | inl m ↦ m
  | inr m ↦
      let a = (elem-minus v node_keys found).1 (h, m) in
      let b = elem-sorted v (minus node_keys found) ∙ a in cc (rw e at b)
]

-- The check of reachability ends. It has nothing to report exactly when there is no entry or every
-- node can be reached from one along the adjacency.
pub validate_reachability_correct :
    (node_keys entries : List String) (adj : List (String × List String))
    → (errors : List TopologyError) × (validate_reachability node_keys entries adj ≡ some errors)
      × ((errors ≡ []) ↔ (
          (entries ≡ [])
          ⊎ ((v : String) → elem v node_keys ≡ true → Reached (successors adj) entries v)))
unfolding validate_reachability
validate_reachability_correct node_keys [] adj = ([], refl, (λ e. inl refl, λ h. refl))
validate_reachability_correct node_keys (entry ∷ entries) adj =
    let (found, e, iff) = reachable_keys-Reached adj (entry ∷ entries) in
    (
      report_orphans (sorted (minus node_keys found)),
      rw (e, validate_reachability) refl,
      (
        λ none_left. inr λ v m. (iff v).0 (
            found_of_nil node_keys found v
              (report_orphans-nil (sorted (minus node_keys found)) none_left) m),
        λ h. elim h [
          | inl empty ↦ cc
          | inr all_reached ↦ rw (orphans_nil node_keys found (λ v m. (iff v).1 (all_reached v m)))
        ],
      ),
    )
