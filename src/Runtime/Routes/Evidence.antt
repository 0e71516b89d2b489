-- ===== src/Runtime/Routes/Evidence.antt =====
-- The traversals of a completed node: written once for each target, and never written over.
use filum_reforge.Base.{
  ℕ, String, ◌≡◌, refl, inl, inr, Bool, none, some, List, [], ◌∷◌, ◌++◌, arith, eq_iff,
  Option-cases, Dict,
}
use filum_reforge.Runtime.Defs.{Run, NodeInstance, Traversal, RuntimeEdge, Outside}
use filum_reforge.Runtime.Routes.{find_traversal, new_traversal, persist_traversals}

-- Each edge of the list has its traversal.
unfoldable pub IsRecorded : String → List RuntimeEdge → List Traversal → Type 0
IsRecorded source [] traversals = Unit
IsRecorded source (edge ∷ edges) traversals =
    ((t : Traversal) × (find_traversal source edge.to_node_key traversals ≡ some t))
    × IsRecorded source edges traversals

find_traversal-append :
    (source target : String) (t : Traversal) (ts us : List Traversal)
    → find_traversal source target ts ≡ some t
    → find_traversal source target (ts ++ us) ≡ some t
unfolding find_traversal
find_traversal-append source target t [] us e = cc
find_traversal-append source target t (u ∷ ts) us e =
    ground (arith, find_traversal-append source target t ts us)

find_traversal-new :
    (source target : String) (t : Traversal) (ts : List Traversal)
    → find_traversal source target ts ≡ none
    → t.source_node_instance_id ≡ source
    → t.to_node_key ≡ target
    → find_traversal source target (ts ++ (t ∷ [])) ≡ some t
unfolding find_traversal
find_traversal-new source target t [] e s k =
    ground (arith, eq_iff t.source_node_instance_id source, eq_iff t.to_node_key target)
find_traversal-new source target t (u ∷ ts) e s k =
    ground (arith, find_traversal-new source target t ts)

module _ (outside : Outside) (now : ℕ) (run : Run) (source : NodeInstance) (selected : List String)
    (evaluations : Dict (Bool × String)) where
  -- What was recorded stays.
  persist_traversals-keeps :
      (edges : List RuntimeEdge) (ts : List Traversal) (id target : String) (t : Traversal)
      → find_traversal id target ts ≡ some t
      → find_traversal id target
          (persist_traversals outside now run source selected evaluations edges ts)
        ≡ some t
  unfolding persist_traversals
  persist_traversals-keeps [] ts id target t e = e
  persist_traversals-keeps (edge ∷ edges) ts id target t e =
      let fresh = new_traversal outside now run source selected evaluations edge in
      elim (Option-cases (find_traversal source.id edge.to_node_key ts)) [
        | inl unseen ↦
            rw (unseen, persist_traversals)
              (persist_traversals-keeps edges (ts ++ (fresh ∷ [])) id target t
                (find_traversal-append id target t ts (fresh ∷ []) e))
        | inr (known, k) ↦
            rw (k, persist_traversals) (persist_traversals-keeps edges ts id target t e)
      ]

  persist_traversals-IsRecorded :
      (edges : List RuntimeEdge) (ts : List Traversal)
      → IsRecorded source.id edges
          (persist_traversals outside now run source selected evaluations edges ts)
  unfolding persist_traversals IsRecorded new_traversal
  persist_traversals-IsRecorded [] ts = tt
  persist_traversals-IsRecorded (edge ∷ edges) ts =
      let fresh = new_traversal outside now run source selected evaluations edge in
      elim (Option-cases (find_traversal source.id edge.to_node_key ts)) [
        | inl unseen ↦
            rw (unseen, persist_traversals)
              (
                (
                  fresh,
                  persist_traversals-keeps edges (ts ++ (fresh ∷ [])) source.id edge.to_node_key
                      fresh
                      (find_traversal-new source.id edge.to_node_key fresh ts unseen refl refl),
                ),
                persist_traversals-IsRecorded edges (ts ++ (fresh ∷ [])),
              )
        | inr (known, k) ↦
            rw (k, persist_traversals)
              (
                (known, persist_traversals-keeps edges ts source.id edge.to_node_key known k),
                persist_traversals-IsRecorded edges ts,
              )
      ]

  persist_traversals-same :
      (edges : List RuntimeEdge) (ts : List Traversal)
      → IsRecorded source.id edges ts
      → persist_traversals outside now run source selected evaluations edges ts ≡ ts
  unfolding persist_traversals IsRecorded
  persist_traversals-same [] ts h = refl
  persist_traversals-same (edge ∷ edges) ts ((t, e), h) =
      rw (e, persist_traversals) (persist_traversals-same edges ts h)

-- Once the routes of a node are recorded, another run of the same step finds every outgoing edge
-- recorded and changes nothing, whatever it has selected and whenever it runs.
pub persist_traversals_once :
    (outside : Outside) (now now' : ℕ) (run run' : Run) (source : NodeInstance)
    (selected selected' : List String) (evaluations evaluations' : Dict (Bool × String))
    (edges : List RuntimeEdge) (ts : List Traversal)
    → IsRecorded source.id edges
        (persist_traversals outside now run source selected evaluations edges ts)
      × (persist_traversals outside now' run' source selected' evaluations' edges
            (persist_traversals outside now run source selected evaluations edges ts)
          ≡ persist_traversals outside now run source selected evaluations edges ts)
persist_traversals_once outside now now' run run' source selected selected' evaluations evaluations'
      edges ts =
    let recorded =
      persist_traversals-IsRecorded outside now run source selected evaluations edges ts in
    (
      recorded,
      persist_traversals-same outside now' run' source selected' evaluations' edges _ recorded,
    )
