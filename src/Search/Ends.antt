-- ===== src/Search/Ends.antt =====
-- The worklist loop ends: each key is expanded once, so it takes no more rounds than there are
-- starts and edges.
use filum_reforge.Base.{
  ℕ, zero, suc, ◌+◌, ◌≤◌, String, ◌≡◌, refl, inl, inr, true, false, some, List, [], ◌∷◌, arith,
  eq_iff, elem, if◌then◌else◌, Bool-cases, length,
}
use filum_reforge.Search.{search}

module _ (next : String → List String) where
  -- The edges out of the keys that are not visited.
  unfoldable pub open_edges : List String → List String → ℕ
  open_edges visited [] = 0
  open_edges visited (k ∷ ks) =
      (if elem k visited then 0 else length (next k)) + open_edges visited ks

  open_edges-le :
      (visited ks : List String) (c : String) → open_edges (c ∷ visited) ks ≤ open_edges visited ks
  unfolding open_edges elem
  open_edges-le visited [] c = omega arith
  open_edges-le visited (k ∷ ks) c = ground (arith, open_edges-le visited ks c, eq_iff c k)

  open_edges-expand :
      (visited ks : List String) (c : String)
      → elem c visited ≡ false
      → elem c ks ≡ true
      → open_edges (c ∷ visited) ks + length (next c) ≤ open_edges visited ks
  unfolding open_edges elem
  open_edges-expand visited [] c h m = cc
  open_edges-expand visited (k ∷ ks) c h m =
      ground
        (arith, open_edges-le visited ks c, open_edges-expand visited ks c, eq_iff k c, eq_iff c k)

module _ (next : String → List String) (extend : List String → String → List String → List String)
    (sources : List String) (no_edges : (c : String) → elem c sources ≡ false → next c ≡ [])
    (bounded : (visited : List String) (c : String) (rest : List String)
      → length (extend visited c rest) ≤ length rest + length (next c)) where
  open_edges-drops :
      (visited : List String) (c : String)
      → elem c visited ≡ false
      → open_edges next (c ∷ visited) sources + length (next c) ≤ open_edges next visited sources
  open_edges-drops visited c h = elim (Bool-cases (elem c sources)) [
    | inl m ↦ open_edges-expand next visited sources c h m
    | inr m ↦ rw (no_edges c m) (omega (arith, open_edges-le next visited sources c))
  ]

  -- Enough fuel: the worklist, and the edges that are still to be followed.
  pub search_ends :
      (fuel : ℕ) (visited work : List String)
      → open_edges next visited sources + length work ≤ fuel
      → (found : List String) × (search extend fuel visited work ≡ some found)
  unfolding search
  search_ends fuel visited [] h = (visited, refl)
  search_ends zero visited (c ∷ rest) h = absurd (omega arith)
  search_ends (suc fuel) visited (c ∷ rest) h = elim (Bool-cases (elem c visited)) [
    | inl m ↦ rw m (search_ends fuel visited rest (omega arith))
    | inr m ↦ rw m (
        search_ends fuel (c ∷ visited) (extend (c ∷ visited) c rest)
          (omega (arith, open_edges-drops visited c m, bounded (c ∷ visited) c rest)))
  ]
