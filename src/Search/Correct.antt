-- ===== src/Search/Correct.antt =====
-- When the worklist loop ends, it has visited exactly what can be reached from its start.
use mathlib.Core.Option.{some-injective}
use filum_reforge.Base.{
  ℕ, zero, suc, String, ◌≡◌, ◌↔◌, ◌⊎◌, inl, inr, true, false, some, List, [], ◌∷◌, arith, ◌==◌,
  eq_iff, elem, Bool-cases, subst,
}
use filum_reforge.Search.{search, Walk, here, step, Extends, Reached}

module _ (next : String → List String) (extend : List String → String → List String → List String)
    (ok : Extends next extend) (starts : List String) where
  Reached-step :
      (v w : String) → Reached next starts v → elem w (next v) ≡ true → Reached next starts w
  unfolding Reached
  Reached-step v w (s, m, p) e = (s, m, step p e)

  record Inv (visited work : List String) : Type 0 where
    sound : (v : String) → elem v visited ≡ true → Reached next starts v
    queued : (v : String) → elem v work ≡ true → Reached next starts v
    begun : (v : String) → elem v starts ≡ true → (elem v visited ≡ true) ⊎ (elem v work ≡ true)
    closed :
        (u v : String)
        → elem u visited ≡ true
        → elem v (next u) ≡ true
        → (elem v visited ≡ true) ⊎ (elem v work ≡ true)

  Inv-skip :
      (visited : List String) (c : String) (rest : List String)
      → elem c visited ≡ true
      → Inv visited (c ∷ rest)
      → Inv visited rest
  unfolding elem
  Inv-skip visited c rest m inv = record {
    sound = inv.sound;
    queued = λ v q. inv.queued v (ground arith);
    begun = λ v s. ground (arith, inv.begun v s, eq_iff c v);
    closed = λ u v mu e. ground (arith, inv.closed u v mu e, eq_iff c v);
  }

  Inv-expand :
      (visited : List String) (c : String) (rest : List String)
      → elem c visited ≡ false
      → Inv visited (c ∷ rest)
      → Inv (c ∷ visited) (extend (c ∷ visited) c rest)
  unfolding elem
  Inv-expand visited c rest m inv =
      let at_c = inv.queued c (ground (arith, eq_iff c c)) in
      let next_work = extend (c ∷ visited) c rest in
      record {
        sound = λ v h. elim (Bool-cases (c == v)) [
          | inl e ↦ subst (Reached next starts) ((eq_iff c v).0 e) at_c
          | inr e ↦ inv.sound v (ground arith)
        ];
        queued = λ v h. elim (Bool-cases (elem v rest)) [
          | inl r ↦ inv.queued v (ground arith)
          | inr r ↦ Reached-step c v at_c (ok.adds (c ∷ visited) c rest v h r)
        ];
        begun = λ v s. ground (arith, inv.begun v s, ok.keeps (c ∷ visited) c rest v);
        closed = λ u v mu e. ground (
          arith,
          inv.closed u v,
          eq_iff c u,
          ok.keeps (c ∷ visited) c rest v,
          ok.covers (c ∷ visited) c rest v,
        );
      }

  Inv-search :
      (fuel : ℕ) (visited work found : List String)
      → search extend fuel visited work ≡ some found
      → Inv visited work
      → Inv found []
  unfolding search
  Inv-search fuel visited [] found h inv = subst (λ x. Inv x []) (some-injective _ _ h) inv
  Inv-search zero visited (c ∷ rest) found h inv = cc
  Inv-search (suc fuel) visited (c ∷ rest) found h inv = elim (Bool-cases (elem c visited)) [
    | inl m ↦ Inv-search fuel visited rest found (rw m at h) (Inv-skip visited c rest m inv)
    | inr m ↦
        Inv-search fuel (c ∷ visited) (extend (c ∷ visited) c rest) found (rw m at h)
          (Inv-expand visited c rest m inv)
  ]

  Inv-start : Inv [] starts
  unfolding elem Reached
  Inv-start = record {
    sound = λ v h. cc;
    queued = λ v h. (v, h, here);
    begun = λ v h. inr h;
    closed = λ u v h e. cc;
  }

  visited_of_Walk :
      (found : List String)
      → Inv found []
      → (u v : String) → elem u found ≡ true
      → Walk next u v
      → elem v found ≡ true
  unfolding elem
  visited_of_Walk found inv u v h here = h
  visited_of_Walk found inv u w h (step {v} p e) =
      ground (arith, inv.closed v w (visited_of_Walk found inv u v h p) e)

  -- The keys visited are those that can be reached.
  pub search-Reached :
      (fuel : ℕ) (found : List String)
      → search extend fuel [] starts ≡ some found
      → (v : String) → (elem v found ≡ true) ↔ Reached next starts v
  unfolding Reached elem
  search-Reached fuel found h v =
      let inv = Inv-search fuel [] starts found h Inv-start in
      (inv.sound v, λ (s, m, p). visited_of_Walk found inv s v (ground (arith, inv.begun s m)) p)
