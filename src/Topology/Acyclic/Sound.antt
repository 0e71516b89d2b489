-- ===== src/Topology/Acyclic/Sound.antt =====
-- A depth-first search that finds no cycle has only visited keys from which every path ends.
use mathlib.Core.WellFounded.{Acc}
use filum_reforge.Base.{
  ℕ, zero, suc, String, ◌≡◌, refl, ◌⊎◌, inl, inr, true, false, none, some, List, [], ◌∷◌, arith,
  elem, elem-add, add, remove, ◌==◌, eq_iff, Bool-cases, subst, Option-cases,
}
use filum_reforge.Topology.Edges.{successors}
use filum_reforge.Topology.Acyclic.{Marks, Search, dfs_each, finish, enter, dfs}

-- Below a key: its successors.
abbrev pub Below : (String → List String) → String → String → Type 0
Below next v u = elem v (next u) ≡ true

module _ (next : String → List String) where
  -- Every path from a visited key ends.
  unfoldable pub Settled : Marks → Type 0
  Settled m = (v : String) → elem v m.visited ≡ true → Acc (Below next) v

  unfoldable pub Grows : Marks → Marks → Type 0
  Grows m n = (v : String) → elem v m.visited ≡ true → elem v n.visited ≡ true

  -- What a call that finds no cycle does, for the keys in `ks`.
  pub record Settles (ks : List String) (m n : Marks) : Type 0 where
    pub settled : Settled n
    pub grows : Grows m n
    pub done : (v : String) → elem v ks ≡ true → elem v n.visited ≡ true

  unfoldable pub CallSettles : (String → Marks → Search) → Type 0
  CallSettles call =
      (k : String) (m n : Marks) → call k m ≡ some (false, n) → Settled m → Settles (k ∷ []) m n

  dfs_each-cons :
      (call : String → Marks → Search) (k : String) (ks : List String) (m n : Marks)
      → dfs_each call (k ∷ ks) m ≡ some (false, n)
      → (m' : Marks) × (call k m ≡ some (false, m')) × (dfs_each call ks m' ≡ some (false, n))
  unfolding dfs_each
  dfs_each-cons call k ks m n h = elim (Option-cases (call k m)) [
    | inl e ↦ cc (rw (e, dfs_each) at h)
    | inr ((found, m'), e) ↦ elim (Bool-cases found) [
      | inl t ↦ ground arith
      | inr f ↦ (m', ground arith, ground arith)
    ]
  ]

  Settles-nil : (m : Marks) → Settled m → Settles [] m m
  unfolding Settled Grows elem
  Settles-nil m s = record { settled = s; grows = λ v h. h; done = λ v h. cc }

  Settles-cons :
      (k : String) (ks : List String) (m m' n : Marks)
      → Settles (k ∷ []) m m'
      → Settles ks m' n
      → Settles (k ∷ ks) m n
  unfolding Grows elem
  Settles-cons k ks m m' n first rest = record {
    settled = rest.settled;
    grows = λ v h. rest.grows v (first.grows v h);
    done = λ v h. ground (arith, first.done v, rest.grows v, rest.done v);
  }

  pub dfs_each-Settles :
      (call : String → Marks → Search)
      → CallSettles call
      → (ks : List String) (m n : Marks) → dfs_each call ks m ≡ some (false, n)
      → Settled m
      → Settles ks m n
  unfolding CallSettles
  dfs_each-Settles call ok [] m n h s =
      let e : m ≡ n = (unfold dfs_each in cc h) in subst (Settles [] m) e (Settles-nil m s)
  dfs_each-Settles call ok (k ∷ ks) m n h s =
      let (m', first, rest) = dfs_each-cons call k ks m n h in
      let at_k = ok k m m' first s in
      Settles-cons k ks m m' n at_k (dfs_each-Settles call ok ks m' n rest at_k.settled)

  -- The marks after a key is done.
  abbrev pub leave : String → Marks → Marks
  leave k m = record { visiting = remove k m.visiting; visited = add k m.visited }

  pub finish-eq-false :
      (k : String) (r : Search) (n : Marks)
      → finish k r ≡ some (false, n)
      → (m : Marks) × (r ≡ some (false, m)) × (leave k m ≡ n)
  unfolding finish
  finish-eq-false k none n h = cc
  finish-eq-false k (some (true, m)) n h = cc
  finish-eq-false k (some (false, m)) n h = (m, refl, cc)

  Settles-leave :
      (k : String) (m m' : Marks)
      → Settles (next k) (enter k m) m'
      → Settles (k ∷ []) m (leave k m')
  unfolding Settled Grows elem enter
  Settles-leave k m m' inner =
      let at_k = Acc.intro k (λ v below. inner.settled v (inner.done v below)) in
      record {
        settled = λ v h. elim (Bool-cases (k == v)) [
          | inl e ↦ subst (Acc (Below next)) ((eq_iff k v).0 e) at_k
          | inr e ↦ inner.settled v (ground (arith, elem-add k v m'.visited))
        ];
        grows = λ v h. ground (arith, elem-add k v m'.visited, inner.grows v);
        done = λ v h. ground (arith, elem-add k v m'.visited);
      }

module _ (adj : List (String × List String)) where
  -- The three ways that a call comes out.
  pub dfs-cases :
      (fuel : ℕ) (k : String) (m : Marks) (r : Search)
      → dfs adj (suc fuel) k m ≡ r
      → ((elem k m.visiting ≡ true) × (some (true, m) ≡ r))
        ⊎ ((elem k m.visiting ≡ false) × (elem k m.visited ≡ true) × (some (false, m) ≡ r))
        ⊎ ((elem k m.visiting ≡ false)
            × (elem k m.visited ≡ false)
            × (finish k (dfs_each (dfs adj fuel) (successors adj k) (enter k m)) ≡ r))
  unfolding dfs
  dfs-cases fuel k m r h = elim (Bool-cases (elem k m.visiting)) [
    | inl e ↦ inl (e, rw (dfs, e) at h)
    | inr e ↦ elim (Bool-cases (elem k m.visited)) [
      | inl v ↦ inr (inl (e, v, rw (dfs, e, v) at h))
      | inr v ↦ inr (inr (e, v, rw (dfs, e, v) at h))
    ]
  ]

  pub dfs-Settles : (fuel : ℕ) → CallSettles (successors adj) (dfs adj fuel)
  unfolding CallSettles Grows elem
  dfs-Settles zero k m n h s = (unfold dfs in cc h)
  dfs-Settles (suc fuel) k m n h s = elim (dfs-cases fuel k m (some (false, n)) h) [
    | inl (e, r) ↦ cc
    | inr (inl (e, v, r)) ↦
        let same : m ≡ n = cc in
        subst (Settles (successors adj) (k ∷ []) m) same
          (record { settled = s; grows = λ w p. p; done = λ w p. ground (arith, eq_iff k w) })
    | inr (inr (e, v, r)) ↦
        let calls = dfs_each (dfs adj fuel) (successors adj k) (enter k m) in
        let (m', inner, same) = finish-eq-false (successors adj) k calls n r in
        subst (Settles (successors adj) (k ∷ []) m) same (
          Settles-leave (successors adj) k m m' (
            dfs_each-Settles (successors adj) (dfs adj fuel) (dfs-Settles fuel) (successors adj k)
              (enter k m) m' inner (unfold enter Settled in s)))
  ]
