-- ===== src/Chain/Cycle.antt =====
-- The check of template chains ends and answers whether the chain comes back.
use filum_reforge.Base.{
  ℕ, zero, suc, ◌+◌, ◌≤◌, String, Bool, true, false, some, List, [], ◌∷◌, ◌++◌, elem, length, Dict,
  keys, ◌==◌, ◌≡◌, refl, ◌↔◌, arith, eq_iff, elem-append, length-append, lookup-eq-none, Bool-cases,
  inl, inr, ap, sym, subst,
}
use filum_reforge.Search.{search, Walk, here, Reached, Extends}
use filum_reforge.Search.Correct.{search-Reached}
use filum_reforge.Search.Ends.{search_ends, open_edges}
use filum_reforge.Chain.{downstream, chain_loop, chain_fuel, would_create_template_chain_cycle}

module _ (edges : Dict String) where
  abbrev pub extend : List String → String → List String → List String
  extend visited c rest = downstream edges c ++ rest

  extend-Extends : Extends (downstream edges) extend
  extend-Extends = record {
    adds = λ visited c rest w m h. ground (arith, elem-append w (downstream edges c) rest);
    keeps = λ visited c rest w m. ground (arith, elem-append w (downstream edges c) rest);
    covers = λ visited c rest w m h. ground (arith, elem-append w (downstream edges c) rest);
  }

  -- What is visited stays so.
  search_grows :
      (v : String) (fuel : ℕ) (visited work found : List String)
      → search extend fuel visited work ≡ some found
      → elem v visited ≡ true
      → elem v found ≡ true
  unfolding search elem
  search_grows v fuel visited [] found h m = ground arith
  search_grows v zero visited (c ∷ rest) found h m = ground arith
  search_grows v (suc fuel) visited (c ∷ rest) found h m = ground (
    arith,
    search_grows v fuel visited rest found,
    search_grows v fuel (c ∷ visited) (extend visited c rest) found,
  )

  -- The loop stops early where the search goes on, with the same answer.
  chain_loop-search :
      (start : String) (fuel : ℕ) (visited work found : List String)
      → search extend fuel visited work ≡ some found
      → elem start visited ≡ false
      → chain_loop edges start fuel visited work ≡ some (elem start found)
  unfolding search chain_loop elem
  chain_loop-search start fuel visited [] found h m = ground arith
  chain_loop-search start zero visited (c ∷ rest) found h m = ground arith
  chain_loop-search start (suc fuel) visited (c ∷ rest) found h m = ground (
    arith,
    eq_iff c start,
    search_grows start fuel (c ∷ visited) (extend visited c rest) found,
    chain_loop-search start fuel visited rest found,
    chain_loop-search start fuel (c ∷ visited) (extend visited c rest) found,
  )

  length-downstream : (c : String) → length (downstream edges c) ≤ 1
  unfolding downstream
  length-downstream c = ground arith

  no_edges : (c : String) → elem c (keys edges) ≡ false → downstream edges c ≡ []
  unfolding downstream
  no_edges c h = ground (arith, lookup-eq-none c edges h)

  open_edges-bound :
      (visited ks : List String) → open_edges (downstream edges) visited ks ≤ length ks
  unfolding open_edges
  open_edges-bound visited [] = omega arith
  open_edges-bound visited (k ∷ ks) =
      ground (arith, open_edges-bound visited ks, length-downstream k)

  bounded :
      (visited : List String) (c : String) (rest : List String)
      → length (extend visited c rest) ≤ length rest + length (downstream edges c)
  bounded visited c rest = omega (arith, length-append (downstream edges c) rest)

length-keys : (edges : Dict String) → length (keys edges) ≡ length edges
unfolding keys
length-keys [] = refl
length-keys (e ∷ rest) = ap suc (length-keys rest)

Reached-one : (next : String → List String) (u v : String) → Reached next (u ∷ []) v ↔ Walk next u v
unfolding Reached elem
Reached-one next u v = (
  λ (s, m, walk). subst (λ t. Walk next t v) (sym ((eq_iff u s).0 (ground arith))) walk,
  λ walk. (u, ground (arith, eq_iff u u), walk),
)

-- The check ends, and finds a cycle exactly when the chain that begins with the next template comes
-- to the first one.
pub would_create_template_chain_cycle_correct :
    (start next : String) (edges : Dict String)
    → (answer : Bool) × (would_create_template_chain_cycle start next edges ≡ some answer)
      × ((answer ≡ true) ↔ Walk (downstream edges) next start)
unfolding would_create_template_chain_cycle elem
would_create_template_chain_cycle_correct start next edges =
    let (found, ends) =
      search_ends (downstream edges) (extend edges) (keys edges) (no_edges edges) (bounded edges)
        (chain_fuel edges) [] (next ∷ [])
        (omega (arith, open_edges-bound edges [] (keys edges), length-keys edges)) in
    let reached =
      search-Reached (downstream edges) (extend edges) (extend-Extends edges) (next ∷ [])
        (chain_fuel edges) found ends start in
    let looped = chain_loop-search edges start (chain_fuel edges) [] (next ∷ []) found ends refl in
    elim (Bool-cases (start == next)) [
      | inl same ↦ (
        true,
        rw same refl,
        (
          λ _. subst (λ t. Walk (downstream edges) next t) (sym ((eq_iff start next).0 same)) here,
          λ _. refl,
        ),
      )
      | inr other ↦ (
        elem start found,
        rw other looped,
        (
          λ e. (Reached-one (downstream edges) next start).0 (reached.0 e),
          λ walk. reached.1 ((Reached-one (downstream edges) next start).1 walk),
        ),
      )
    ]
