-- ===== src/Topology/Acyclic/Cycles.antt =====
-- A depth-first search that finds a cycle has found one, and one that finds none leaves the keys in
-- progress as they were.
use filum_reforge.Base.{
  ◌∙◌, ap, sym, ℕ, zero, suc, String, ◌≡◌, refl, inl, inr, Bool, true, false, none, some, List, [],
  ◌∷◌, arith, elem, elem-add, add, remove, ◌==◌, eq_iff, Bool-cases, subst, Option-cases,
}
use filum_reforge.Search.{Walk, here, step}
use filum_reforge.Topology.Edges.{successors}
use filum_reforge.Topology.Acyclic.Sound.{dfs-cases, leave}
use filum_reforge.Topology.Acyclic.{Marks, Search, dfs_each, finish, enter, dfs}

module _ (adj : List (String × List String)) where
  -- A cycle: a key with a path back to itself.
  unfoldable pub Cycle : Type 0
  Cycle =
      (u : String) × (v : String) × (elem v (successors adj u) ≡ true) × Walk (successors adj) v u

  -- The keys in progress lead to `k` in one step or more.
  unfoldable pub Above : String → List String → Type 0
  Above k visiting =
      (u : String)
      → elem u visiting ≡ true
      → (v : String) × (elem v (successors adj u) ≡ true) × Walk (successors adj) v k

  -- What a call leaves: a cycle if it found one, else the keys in progress as they were.
  pub record Backtracks (m : Marks) (found : Bool) (n : Marks) : Type 0 where
    pub cyclic : found ≡ true → Cycle
    pub restored : found ≡ false → n.visiting ≡ m.visiting

  unfoldable pub CallBacktracks : (String → Marks → Search) → Type 0
  CallBacktracks call =
      (k : String) (m : Marks) (found : Bool) (n : Marks)
      → call k m ≡ some (found, n)
      → Above k m.visiting
      → Backtracks m found n

  pub dfs_each-Backtracks :
      (call : String → Marks → Search)
      → CallBacktracks call
      → (ks : List String) (m : Marks) (found : Bool) (n : Marks)
      → dfs_each call ks m ≡ some (found, n)
      → ((k : String) → elem k ks ≡ true → Above k m.visiting)
      → Backtracks m found n
  unfolding CallBacktracks dfs_each
  dfs_each-Backtracks call ok [] m found n h above = record {
    cyclic = λ e. cc;
    restored = λ e. ground arith;
  }
  dfs_each-Backtracks call ok (k ∷ ks) m found n h above = elim (Option-cases (call k m)) [
    | inl e ↦ cc (rw (e, dfs_each) at h)
    | inr ((b, m'), e) ↦
        let first = ok k m b m' e (above k (unfold elem in ground (arith, eq_iff k k))) in
        elim (Bool-cases b) [
          | inl t ↦ record { cyclic = λ _. first.cyclic t; restored = λ f. ground arith }
          | inr f ↦
              let same = first.restored f in
              let rest =
                dfs_each-Backtracks call ok ks m' found n (ground arith)
                  (λ j mj. rw same (above j (unfold elem in ground arith))) in
              record { cyclic = rest.cyclic; restored = λ q. rest.restored q ∙ same }
        ]
  ]

  pub Above-enter :
      (k : String) (m : Marks)
      → elem k m.visiting ≡ false
      → Above k m.visiting
      → (j : String) → elem j (successors adj k) ≡ true
      → Above j (enter k m).visiting
  unfolding Above enter
  Above-enter k m fresh above j edge u h = elim (Bool-cases (k == u)) [
    | inl e ↦
        subst (λ x. (v : String) × (elem v (successors adj x) ≡ true) × Walk (successors adj) v j)
          ((eq_iff k u).0 e) (j, edge, here)
    | inr e ↦
        let (v, first, p) = above u (ground (arith, elem-add k u m.visiting)) in
        (v, first, step p edge)
  ]

  remove-enter :
      (k : String) (m : Marks)
      → elem k m.visiting ≡ false
      → remove k (enter k m).visiting ≡ m.visiting
  unfolding enter add remove
  remove-enter k m fresh = ground (arith, eq_iff k k)

  same_marks : (b c : Bool) (x y : Marks) → ◌≡◌ {A = Search} (some (b, x)) (some (c, y)) → x ≡ y
  same_marks b c x y e = cc

  finish-Backtracks :
      (k : String) (m : Marks) (r : Search) (found : Bool) (n : Marks)
      → elem k m.visiting ≡ false
      → ((b : Bool) (m' : Marks) → r ≡ some (b, m') → Backtracks (enter k m) b m')
      → finish k r ≡ some (found, n)
      → Backtracks m found n
  unfolding finish
  finish-Backtracks k m none found n fresh inner h = cc
  finish-Backtracks k m (some (true, m')) found n fresh inner h = record {
    cyclic = λ _. (inner true m' refl).cyclic refl;
    restored = λ e. cc;
  }
  finish-Backtracks k m (some (false, m')) found n fresh inner h = record {
    cyclic = λ e. cc;
    restored = λ e.
        ap (λ (x : Marks). x.visiting)
          (sym (same_marks false found (leave (successors adj) k m') n h))
        ∙ (ap (remove k) ((inner false m' refl).restored refl) ∙ remove-enter k m fresh);
  }

  Cycle-intro :
      (k : String) (visiting : List String) → Above k visiting → elem k visiting ≡ true → Cycle
  unfolding Above Cycle
  Cycle-intro k visiting above e = let (v, edge, p) = above k e in (k, v, edge, p)

  pub dfs-Backtracks : (fuel : ℕ) → CallBacktracks (dfs adj fuel)
  unfolding CallBacktracks
  dfs-Backtracks zero k m found n h above = (unfold dfs in cc h)
  dfs-Backtracks (suc fuel) k m found n h above =
      elim (dfs-cases adj fuel k m (some (found, n)) h) [
        | inl (e, r) ↦ record { cyclic = λ _. Cycle-intro k m.visiting above e; restored = λ f. cc }
        | inr (inl (e, v, r)) ↦ record { cyclic = λ t. cc; restored = λ f. ground arith }
        | inr (inr (e, v, r)) ↦
            finish-Backtracks k m (dfs_each (dfs adj fuel) (successors adj k) (enter k m)) found n e
              (λ b m' inner.
                dfs_each-Backtracks (dfs adj fuel) (dfs-Backtracks fuel) (successors adj k)
                  (enter k m) b m' inner (Above-enter k m e above))
              r
      ]
