-- ===== src/Chain/Publish.antt =====
-- Publishing a template keeps the chains of templates free of cycles.
use filum_reforge.Base.{
  String, Bool, true, false, some, List, [], elem, Dict, insert, lookup-insert, ◌==◌, ◌≡◌, refl,
  arith, eq_iff, Bool-cases, ◌⊎◌, inl, inr, sym, subst,
}
use filum_reforge.Value.{obj, get, Fields}
use filum_reforge.Errors.{ok}
use filum_reforge.Search.{Walk, here, step}
use filum_reforge.Chain.{
  obj, get, Fields, validate_on_complete_for_publish, Validate, ChainTemplate, OnComplete,
  source_code, downstream, load_active_on_complete_edges, chain_errors, chain_messages, error_if,
}
use filum_reforge.Chain.Cycle.{would_create_template_chain_cycle_correct}

-- No template starts a chain that comes back to it.
unfoldable pub IsAcyclic : Dict String → Type 0
IsAcyclic edges =
    (c d : String) → elem d (downstream edges c) ≡ true → Walk (downstream edges) d c → ⊥

Walk-append :
    {next : String → List String} {u v w : String} → Walk next u v → Walk next v w → Walk next u w
Walk-append p here = p
Walk-append p (step q e) = step (Walk-append p q) e

module _ (edges : Dict String) (start target : String) where
  abbrev linked : Dict String
  linked = insert start target edges

  -- Only the start has another successor.
  downstream-linked : (c : String) → (start == c) ≡ false → downstream linked c ≡ downstream edges c
  unfolding downstream
  downstream-linked c h = ground (arith, lookup-insert start target c edges)

  downstream-start : (d : String) → elem d (downstream linked start) ≡ true → d ≡ target
  unfolding downstream elem
  downstream-start d m =
      ground (arith, lookup-insert start target start edges, eq_iff start start, eq_iff target d)

  -- A walk over the new edges is one over the old, or comes past the start.
  split-Walk :
      (u v : String)
      → Walk (downstream linked) u v
      → Walk (downstream edges) u v
        ⊎ (Walk (downstream linked) u start × Walk (downstream linked) start v)
  split-Walk u v here = inl here
  split-Walk u v (step {v = w} p e) = elim (Bool-cases (start == w)) [
    | inl same ↦
        let at_start = (eq_iff start w).0 same in
        inr (
          subst (Walk (downstream linked) u) (sym at_start) p,
          step here (subst (λ t. elem v (downstream linked t) ≡ true) (sym at_start) e),
        )
    | inr other ↦ elim (split-Walk u w p) [
      | inl old ↦ inl (step old (subst (λ ds. elem v ds ≡ true) (downstream-linked w other) e))
      | inr (before, after) ↦ inr (before, step after e)
    ]
  ]

  -- A walk that leaves the start begins with the target.
  from_start :
      (v : String)
      → Walk (downstream linked) start v
      → (v ≡ start) ⊎ Walk (downstream linked) target v
  from_start v here = inl refl
  from_start v (step {v = w} p e) = elim (from_start w p) [
    | inl same ↦ inr (
        subst (λ t. Walk (downstream linked) target t)
          (sym (downstream-start v (subst (λ t. elem v (downstream linked t) ≡ true) same e))) here)
    | inr walk ↦ inr (step walk e)
  ]

  insert-IsAcyclic :
      IsAcyclic edges → (Walk (downstream linked) target start → ⊥) → IsAcyclic linked
  unfolding IsAcyclic
  insert-IsAcyclic acyclic away c d e walk = elim (Bool-cases (start == c)) [
    | inl same ↦
        let at_start = (eq_iff start c).0 same in
        away (
          subst (λ t. Walk (downstream linked) t start)
            (downstream-start d (subst (λ t. elem d (downstream linked t) ≡ true) (sym at_start) e))
            (subst (Walk (downstream linked) d) (sym at_start) walk))
    | inr other ↦ elim (split-Walk d c walk) [
      | inl old ↦ acyclic c d (subst (λ ds. elem d ds ≡ true) (downstream-linked c other) e) old
      | inr (before, after) ↦ elim (from_start c after) [
        | inl same ↦ absurd (ground (arith, eq_iff start c, same))
        | inr walk ↦ away (Walk-append (step walk e) before)
      ]
    ]
  ]

-- There is no message only if there is no cycle.
no_messages :
    (templates : List ChainTemplate) (start next : String) (is_cycle : Bool)
    → chain_messages templates start next is_cycle ≡ []
    → is_cycle ≡ false
unfolding chain_messages error_if
no_messages templates start next true h = absurd (ground arith)
no_messages templates start next false h = refl

module _ (validate : Validate) (templates : List ChainTemplate) (template : ChainTemplate) where
  abbrev pub active_edges : Dict String
  active_edges = load_active_on_complete_edges validate templates []

  chain_errors-IsAcyclic :
      (parsed : OnComplete)
      → (errors : List String) × (chain_errors validate templates template parsed ≡ some errors)
        × (errors ≡ []
            → IsAcyclic active_edges
            → IsAcyclic (insert (source_code template) parsed.next_template_code active_edges))
  unfolding chain_errors
  chain_errors-IsAcyclic parsed =
      let start = source_code template in
      let target = parsed.next_template_code in
      let (answer, ends, finds) =
        would_create_template_chain_cycle_correct start target (insert start target active_edges) in
      (
        chain_messages templates start target answer,
        rw (ends, chain_errors) refl,
        λ empty acyclic. insert-IsAcyclic active_edges start target acyclic (λ walk.
            absurd (ground (arith, no_messages templates start target answer empty, finds.1 walk))),
      )

  -- The check of a template that names a next one in order always comes to an answer. If it reports
  -- nothing, and the chains of the active templates had no cycle, they have none with the template's
  -- own link added.
  pub validate_on_complete-IsAcyclic :
      (raw : Fields) (parsed : OnComplete)
      → get template.config "on_complete" ≡ obj raw
      → validate raw ≡ ok parsed
      → (errors : List String) × (validate_on_complete_for_publish validate templates template
          ≡ some errors)
        × (errors ≡ []
            → IsAcyclic active_edges
            → IsAcyclic (insert (source_code template) parsed.next_template_code active_edges))
  unfolding validate_on_complete_for_publish
  validate_on_complete-IsAcyclic raw parsed e f =
      let (errors, ends, safe) = chain_errors-IsAcyclic parsed in
      (errors, ground (arith, e, f, ends), safe)
