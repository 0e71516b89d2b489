-- ===== src/Topology/Acyclic/Ends.antt =====
-- The depth-first search ends: a call deeper has one key more in progress.
use filum_reforge.Base.{
  ℕ, zero, suc, ◌+◌, ◌≤◌, ◌<◌, String, ◌≡◌, refl, inl, inr, Bool, true, false, some, List, [], ◌∷◌,
  arith, if◌then◌else◌, elem, add, remove, keys, eq_iff, Bool-cases, length, lookup-eq-none, ◌∙◌,
}
use filum_reforge.Topology.Edges.{successors}
use filum_reforge.Topology.Acyclic.{Marks, Search, dfs_each, finish, enter, dfs}
use filum_reforge.Topology.Acyclic.Cycles.{Above, Above-enter, CallBacktracks, dfs-Backtracks}

-- The keys that are not in progress.
unfoldable pub idle : List String → List String → ℕ
idle visiting [] = 0
idle visiting (k ∷ ks) = (if elem k visiting then 0 else 1) + idle visiting ks

idle-le : (k : String) (visiting ks : List String) → idle (k ∷ visiting) ks ≤ idle visiting ks
unfolding idle elem
idle-le k visiting [] = omega arith
idle-le k visiting (x ∷ ks) = ground (arith, idle-le k visiting ks)

idle-enter :
    (k : String) (visiting ks : List String)
    → elem k visiting ≡ false
    → elem k ks ≡ true
    → idle (k ∷ visiting) ks < idle visiting ks
unfolding idle elem
idle-enter k visiting [] fresh m = cc
idle-enter k visiting (x ∷ ks) fresh m =
    ground (arith, idle-le k visiting ks, idle-enter k visiting ks, eq_iff x k, eq_iff k x)

pub idle-le-length : (ks : List String) → idle [] ks ≤ length ks
unfolding idle elem
idle-le-length [] = omega arith
idle-le-length (x ∷ ks) = omega (arith, idle-le-length ks)

enter-eq :
    (k : String) (m : Marks) → elem k m.visiting ≡ false → (enter k m).visiting ≡ k ∷ m.visiting
unfolding enter add
enter-eq k m fresh = ground arith

finish_ends : (k : String) (r : Bool × Marks) → (q : Bool × Marks) × (finish k (some r) ≡ some q)
unfolding finish
finish_ends k (true, m) = ((true, m), refl)
finish_ends k (false, m) =
    ((false, record { visiting = remove k m.visiting; visited = add k m.visited }), refl)

module _ (adj : List (String × List String)) where
  pub dfs_each_ends :
      (call : String → Marks → Search)
      → CallBacktracks adj call
      → (visiting : List String)
      → ((k : String) (m : Marks)
          → m.visiting ≡ visiting
          → Above adj k visiting
          → (r : Bool × Marks) × (call k m ≡ some r))
      → (ks : List String) (m : Marks) → m.visiting ≡ visiting
      → ((k : String) → elem k ks ≡ true → Above adj k visiting)
      → (r : Bool × Marks) × (dfs_each call ks m ≡ some r)
  unfolding dfs_each CallBacktracks
  dfs_each_ends call ok visiting ends [] m same above = ((false, m), refl)
  dfs_each_ends call ok visiting ends (k ∷ ks) m same above =
      let above_k = above k (unfold elem in ground (arith, eq_iff k k)) in
      let ((found, m'), e) = ends k m same above_k in
      elim (Bool-cases found) [
        | inl t ↦ ((true, m'), rw (e, dfs_each, t) refl)
        | inr f ↦
            let kept = (ok k m found m' e (rw same above_k)).restored f in
            let (r, rest) =
              dfs_each_ends call ok visiting ends ks m' (kept ∙ same)
                (λ j mj. above j (unfold elem in ground arith)) in
            (r, rw (e, dfs_each, f) rest)
      ]

  -- The calls for the successors, which are none if the key has no entry.
  calls_end :
      (fuel : ℕ) (k : String) (m : Marks)
      → elem k m.visiting ≡ false
      → ((j : String) (m' : Marks)
          → m'.visiting ≡ (enter k m).visiting
          → elem k (keys adj) ≡ true
          → Above adj j (enter k m).visiting
          → (r : Bool × Marks) × (dfs adj fuel j m' ≡ some r))
      → Above adj k m.visiting
      → (r : Bool × Marks) × (dfs_each (dfs adj fuel) (successors adj k) (enter k m) ≡ some r)
  calls_end fuel k m fresh ends above = elim (Bool-cases (elem k (keys adj))) [
    | inl listed ↦
        dfs_each_ends (dfs adj fuel) (dfs-Backtracks adj fuel) (enter k m).visiting
          (λ j m' same up. ends j m' same listed up) (successors adj k) (enter k m) refl
          (Above-enter adj k m fresh above)
    | inr unlisted ↦
        let none_left : successors adj k ≡ [] =
          (unfold successors in ground (arith, lookup-eq-none k adj)) in
        ((false, enter k m), rw none_left (unfold dfs_each in refl))
  ]

  pub dfs_ends :
      (fuel : ℕ) (k : String) (m : Marks)
      → idle m.visiting (keys adj) < fuel
      → Above adj k m.visiting
      → (r : Bool × Marks) × (dfs adj fuel k m ≡ some r)
  unfolding dfs
  dfs_ends zero k m lt above = absurd (omega arith)
  dfs_ends (suc fuel) k m lt above = elim (Bool-cases (elem k m.visiting)) [
    | inl e ↦ ((true, m), rw (dfs, e) refl)
    | inr e ↦ elim (Bool-cases (elem k m.visited)) [
      | inl v ↦ ((false, m), rw (dfs, e, v) refl)
      | inr v ↦
          let (r, calls) =
            calls_end fuel k m e
              (λ j m' same listed up.
                dfs_ends fuel j m'
                  (rw (same, enter-eq k m e)
                    (omega (arith, idle-enter k m.visiting (keys adj) e listed)))
                  (rw same up))
              above in
          let (q, done) = finish_ends k r in (q, rw (dfs, e, v) (rw (calls) done))
    ]
  ]
