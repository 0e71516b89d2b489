-- ===== src/Topology/Acyclic/Correct.antt =====
-- `_validate_forward_acyclic` decides whether the forward edges have a cycle.
use mathlib.Core.WellFounded.{Acc}
use filum_reforge.Base.{
  suc, String, ◌≡◌, refl, ◌↔◌, ◌⊎◌, inl, inr, Bool, true, false, some, List, [], ◌∷◌, arith,
  if◌then◌else◌, elem, keys, Bool-cases, length, lookup-eq-none,
}
use filum_reforge.Search.{Walk, here, step}
use filum_reforge.Topology.Defs.{TopologyError, cycle}
use filum_reforge.Topology.Edges.{successors}
use filum_reforge.Topology.Acyclic.{Marks, dfs, no_marks, has_cycle, validate_forward_acyclic}
use filum_reforge.Topology.Acyclic.Sound.{Below, Settled, Settles, dfs_each-Settles, dfs-Settles}
use filum_reforge.Topology.Acyclic.Cycles.{Cycle, Above, dfs_each-Backtracks, dfs-Backtracks}
use filum_reforge.Topology.Acyclic.Ends.{dfs_each_ends, dfs_ends, idle-le-length}

module _ (next : String → List String) where
  first_step :
      {v u : String}
      → Walk next v u
      → (v ≡ u) ⊎ ((w : String) × (elem w (next v) ≡ true) × Walk next w u)
  first_step here = inl refl
  first_step (step {v = x} {w = y} p e) = elim (first_step p) [
    | inl same ↦ inr (y, rw same e, here)
    | inr (w, f, q) ↦ inr (w, f, step q e)
  ]

  no_return :
      (u : String) → Acc (Below next) u → (v : String) → elem v (next u) ≡ true → Walk next v u → ⊥
  no_return u (Acc.intro _ smaller) v edge p = elim (first_step p) [
    | inl same ↦ no_return v (smaller v edge) v (rw same (rw same at edge)) here
    | inr (w, f, q) ↦ no_return v (smaller v edge) w f (step q edge)
  ]

module _ (adj : List (String × List String)) where
  pub Acc-not_Cycle : ((v : String) → Acc (Below (successors adj)) v) → ¬ Cycle adj
  unfolding Cycle
  Acc-not_Cycle acc (u, v, edge, p) = no_return (successors adj) u (acc u) v edge p

  Above-nil : (k : String) → Above adj k []
  unfolding Above elem
  Above-nil k u h = cc

  has_cycle_ends : (r : Bool × Marks) × (has_cycle adj ≡ some r)
  unfolding has_cycle
  has_cycle_ends =
      let fuel = suc (length (keys adj)) in
      dfs_each_ends adj (dfs adj fuel) (dfs-Backtracks adj fuel) []
        (λ k m same above.
          dfs_ends adj fuel k m (rw same (omega (arith, idle-le-length (keys adj))))
            (rw same above))
        (keys adj) no_marks refl (λ k _. Above-nil k)

  Settled-start : Settled (successors adj) no_marks
  unfolding Settled elem
  Settled-start v h = cc

  Acc_of_settled :
      (n : Marks)
      → Settles (successors adj) (keys adj) no_marks n
      → (v : String) → Acc (Below (successors adj)) v
  unfolding Settled
  Acc_of_settled n s v = elim (Bool-cases (elem v (keys adj))) [
    | inl listed ↦ s.settled v (s.done v listed)
    | inr unlisted ↦ Acc.intro v λ w below.
        (unfold successors elem in cc (rw (lookup-eq-none v adj unlisted, successors) at below))
  ]

  -- No cycle, and every path ends; or a cycle.
  pub has_cycle-cases :
      (found : Bool) (n : Marks)
      → has_cycle adj ≡ some (found, n)
      → ((found ≡ false) × ((v : String) → Acc (Below (successors adj)) v))
        ⊎ ((found ≡ true) × Cycle adj)
  unfolding has_cycle
  has_cycle-cases true n h =
      let fuel = suc (length (keys adj)) in
      inr (
        refl,
        (dfs_each-Backtracks adj (dfs adj fuel) (dfs-Backtracks adj fuel) (keys adj) no_marks true n
              h (λ k _. Above-nil k)).cyclic
            refl,
      )
  has_cycle-cases false n h =
      let fuel = suc (length (keys adj)) in
      inl (
        refl,
        Acc_of_settled n (
            dfs_each-Settles (successors adj) (dfs adj fuel) (dfs-Settles adj fuel) (keys adj)
              no_marks n h Settled-start),
      )

  verdict : Bool → List TopologyError
  verdict found = if found then cycle ∷ [] else []

-- The check for cycles ends. It reports nothing exactly when the adjacency has no cycle, and then
-- every path along it ends.
pub validate_forward_acyclic_correct :
    (adj : List (String × List String))
    → (errors : List TopologyError) × (validate_forward_acyclic adj ≡ some errors)
      × ((errors ≡ []) ↔ (¬ Cycle adj))
      × ((errors ≡ []) → (v : String) → Acc (Below (successors adj)) v)
unfolding validate_forward_acyclic
validate_forward_acyclic_correct adj =
    let ((found, n), e) = has_cycle_ends adj in
    elim (has_cycle-cases adj found n e) [
      | inl (f, acc) ↦ (
        [],
        rw (e, validate_forward_acyclic, f) refl,
        (λ _. Acc-not_Cycle adj acc, λ _. refl),
        λ _. acc,
      )
      | inr (t, c) ↦ (
        cycle ∷ [],
        rw (e, validate_forward_acyclic, t) refl,
        (λ h. cc, λ h. absurd (h c)),
        λ h. cc,
      )
    ]
