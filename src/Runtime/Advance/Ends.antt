-- ===== src/Runtime/Advance/Ends.antt =====
-- Each notice that completes by itself leaves one open node less, so the chain of notices ends.
use filum_reforge.Base.{
  ℕ, zero, suc, ◌≤◌, ◌<◌, String, ◌≡◌, refl, inl, inr, Bool, true, false, Option, none, some, List,
  [], ◌∷◌, arith, Option-cases, Bool-cases,
}
use filum_reforge.Errors.{Result, ok, raise, Yields, weaken_result}
use filum_reforge.Runtime.Defs.{NodeInstance, Database, Definition, Outside}
use filum_reforge.Runtime.Nodes.Evolve.{
  EvolveAll, EvolveAll-refl, EvolveAll-trans, open_count, open_count-EvolveAll,
}
use filum_reforge.Runtime.Complete.{maybe_complete_instance}
use filum_reforge.Runtime.Join.Evolve.{Onward}
use filum_reforge.Runtime.Advance.{
  find_node, complete_notice, is_active_notice, active_notices, complete_notices, advance,
  activate_downstream, then_run, then_follow, after_advance,
}
use filum_reforge.Runtime.Advance.Evolve.{advance-Yields, maybe_complete_instance-EvolveAll}
use filum_reforge.Runtime.Advance.Notices.{Later, Settles, complete_notice-Yields}

-- The call ends, and what it returns has the property.
unfoldable pub Finishes {ℓ} : {A : Type ℓ} → (A → Type 0) → Option (Result A) → Type 0
Finishes P none = ⊥
Finishes P (some r) = Yields P r

lt-zero : (n : ℕ) → n < 0 → ⊥
lt-zero n h = omega arith

pub Later-trans : (a b c : Database) → Later a b → Later b c → Later a c
unfolding Later
Later-trans a b c h k = EvolveAll-trans a.nodes b.nodes c.nodes h k

Later-open_count : (a b : Database) → Later a b → open_count b.nodes ≤ open_count a.nodes
unfolding Later
Later-open_count a b h = open_count-EvolveAll a.nodes b.nodes h

weaken_call :
    (P Q : Database → Type 0) (m : Option (Result Database))
    → ((a : Database) → P a → Q a)
    → Finishes P m
    → Finishes Q m
unfolding Finishes
weaken_call P Q none implies h = h
weaken_call P Q (some r) implies h = weaken_result P Q r implies h

then_run-Finishes :
    (P Q : Database → Type 0) (next : Database → Option (Result Database))
    (m : Option (Result Database))
    → Finishes P m
    → ((a : Database) → P a → Finishes Q (next a))
    → Finishes Q (then_run next m)
unfolding Finishes then_run Yields
then_run-Finishes P Q next none h k = h
then_run-Finishes P Q next (some (raise e)) h k = tt
then_run-Finishes P Q next (some (ok db)) h k = k db h

Finishes-result :
    (P : Database → Type 0) (m : Option (Result Database))
    → Finishes P m
    → (r : Result Database) × (m ≡ some r) × Yields P r
unfolding Finishes
Finishes-result P none h = elim h [ ]
Finishes-result P (some r) h = (r, refl, h)

module _ (outside : Outside) (now : ℕ) (definition : Definition) where
  -- What a call that follows a node must do, as long as fewer than `bound` nodes are open.
  FollowsBelow : ℕ → (NodeInstance → Database → Option (Result Database)) → Type 0
  FollowsBelow bound follow =
      (source : NodeInstance) (db : Database)
      → open_count db.nodes < bound
      → Finishes (Later db) (follow source db)

  then_follow-Finishes :
      (follow : NodeInstance → Database → Option (Result Database)) (bound : ℕ) (db : Database)
      (m : Result (NodeInstance × Database))
      → FollowsBelow bound follow
      → open_count db.nodes ≤ bound
      → Yields (Settles outside now definition db) m
      → Finishes (Later db) (then_follow follow m)
  unfolding then_follow FollowsBelow Settles Yields
  then_follow-Finishes follow bound db (raise e) rule fits h = unfold Finishes Yields in tt
  then_follow-Finishes follow bound db (ok (node, next)) rule fits (later, fewer) =
      weaken_call (Later next) (Later db) (follow node next)
        (λ last further. Later-trans db next last later further) (rule node next (omega arith))

  complete_notices-Finishes :
      (follow : NodeInstance → Database → Option (Result Database)) (bound : ℕ)
      → FollowsBelow bound follow
      → (ids : List String) (db : Database) → open_count db.nodes ≤ bound
      → Finishes (Later db) (complete_notices outside now definition follow ids db)
  unfolding complete_notices
  complete_notices-Finishes follow bound rule [] db fits =
      unfold Finishes Yields Later in EvolveAll-refl db.nodes
  complete_notices-Finishes follow bound rule (id ∷ ids) db fits =
      let skip = complete_notices-Finishes follow bound rule ids db fits in
      elim (Option-cases (find_node id db.nodes)) [
        | inl missing ↦ rw (missing, complete_notices) skip
        | inr (node, found) ↦ elim (Bool-cases (is_active_notice node)) [
          | inl active ↦
              let done = complete_notice-Yields outside now definition id node db found active in
              rw (found, active, complete_notices)
                (then_run-Finishes (Later db) (Later db)
                  (complete_notices outside now definition follow ids)
                  (then_follow follow (complete_notice outside now definition node db))
                  (then_follow-Finishes follow bound db
                    (complete_notice outside now definition node db) rule fits done)
                  (λ last later.
                    weaken_call (Later last) (Later db)
                      (complete_notices outside now definition follow ids last)
                      (λ end further. Later-trans db last end later further)
                      (complete_notices-Finishes follow bound rule ids last
                        (omega (arith, Later-open_count db last later)))))
          | inr idle ↦ rw (found, idle, complete_notices) skip
        ]
      ]

  after_advance-Finishes :
      (follow : NodeInstance → Database → Option (Result Database)) (bound : ℕ) (db : Database)
      (m : Result (Bool × Database))
      → FollowsBelow bound follow
      → open_count db.nodes ≤ bound
      → Yields (Onward db) m
      → Finishes (Later db) (after_advance outside now definition follow m)
  unfolding after_advance Onward Yields Finishes
  after_advance-Finishes follow bound db (raise e) rule fits h = tt
  after_advance-Finishes follow bound db (ok (false, after)) rule fits h = unfold Later in h
  after_advance-Finishes follow bound db (ok (true, after)) rule fits h =
      let came : Later db after = unfold Later in h in
      then_run-Finishes (Later after) (Later db)
        (λ last. some (ok (maybe_complete_instance outside now definition last)))
        (complete_notices outside now definition follow (active_notices after) after)
        (complete_notices-Finishes follow bound rule (active_notices after) after
          (omega (arith, Later-open_count db after came)))
        (λ last later.
          let settled = maybe_complete_instance outside now definition last in
          let here : Later last settled =
            unfold Later in maybe_complete_instance-EvolveAll outside now definition last in
          Later-trans db last settled (Later-trans db after last came later) here)

  activate_downstream-Finishes :
      (fuel : ℕ) (source : NodeInstance) (db : Database)
      → open_count db.nodes < fuel
      → Finishes (Later db) (activate_downstream outside now definition fuel source db)
  unfolding activate_downstream FollowsBelow
  activate_downstream-Finishes zero source db fits = elim (lt-zero (open_count db.nodes) fits) [ ]
  activate_downstream-Finishes (suc fuel) source db fits =
      after_advance-Finishes (activate_downstream outside now definition fuel) fuel db
        (advance outside now definition source db) (activate_downstream-Finishes fuel) (omega arith)
        (advance-Yields outside now definition source db)

-- With more fuel than there are open nodes the engine returns or raises. When it returns, each
-- node instance is as before, or it was open and is now the same node with a higher version: what is
-- completed, skipped, terminated, failed or suspended is never touched again.
pub activate_downstream_correct :
    (outside : Outside) (now : ℕ) (definition : Definition) (fuel : ℕ) (source : NodeInstance)
    (db : Database)
    → open_count db.nodes < fuel
    → (result : Result Database) × (activate_downstream outside now definition fuel source db
        ≡ some result)
      × Yields (λ after. EvolveAll db.nodes after.nodes) result
activate_downstream_correct outside now definition fuel source db fits =
    Finishes-result _ (activate_downstream outside now definition fuel source db)
      (unfold Later in activate_downstream-Finishes outside now definition fuel source db fits)
