-- ===== src/Condition/Routing.antt =====
-- What `evaluate_routing_rules` returns (backend/app/services/condition_evaluator.py).
use filum_reforge.Base.{
  String, ◌≡◌, refl, ◌≢◌, ◌↔◌, ◌⊎◌, inl, inr, true, false, some, List, [], ◌∷◌, arith, eq_iff, elem,
  elem-add, Any, List-cases,
}
use filum_reforge.Value.{Value, Fields, str, obj, get}
use filum_reforge.Condition.{is_else_condition}
use filum_reforge.Condition.Rules.{
  Verdict, matched, else_target, skipped, judge_rule, judge_target, file_verdict, collect_keys,
  key_set, select_keys, evaluate_routing_rules, condition_matches,
}

module _ (context : Fields) (k : String) where
  -- An IF rule: an object with the target `k`, no ELSE rule, and a condition that holds.
  pub record IsMatched (rule : Value) : Type 0 where
    pub fields : Fields
    pub is_object : rule ≡ obj fields
    pub target : get fields "target_step_key" ≡ str k
    pub named : k ≢ ""
    pub not_else : is_else_condition fields ≡ false
    pub holds : condition_matches (get fields "condition") context ≡ true

  -- An ELSE rule with the target `k`, whatever its condition.
  pub record IsElse (rule : Value) : Type 0 where
    pub fields : Fields
    pub is_object : rule ≡ obj fields
    pub target : get fields "target_step_key" ≡ str k
    pub named : k ≢ ""
    pub is_else : is_else_condition fields ≡ true

  judge_target-eq-matched :
      (v : Value) (rule : Fields)
      → judge_target v rule context ≡ matched k
      → (v ≡ str k)
        × (k ≢ "")
        × (is_else_condition rule ≡ false)
        × (condition_matches (get rule "condition") context ≡ true)
  unfolding judge_target
  judge_target-eq-matched (str t) rule h = ground (arith, eq_iff t "", eq_iff k "")
  judge_target-eq-matched _ rule h = cc

  judge_rule-IsMatched : (rule : Value) → judge_rule rule context ≡ matched k → IsMatched rule
  unfolding judge_rule
  judge_rule-IsMatched (obj fs) h =
      let (t, n, e, c) = judge_target-eq-matched (get fs "target_step_key") fs h in
      record { fields = fs; is_object = refl; target = t; named = n; not_else = e; holds = c }
  judge_rule-IsMatched _ h = cc

  judge_rule_of_matched : (rule : Value) → IsMatched rule → judge_rule rule context ≡ matched k
  unfolding judge_rule judge_target
  judge_rule_of_matched rule m = ground (arith, eq_iff k "")

  file_verdict-matched :
      (v : Verdict) (found : List String × List String)
      → (elem k (file_verdict v found).0 ≡ true) ↔ ((v ≡ matched k) ⊎ (elem k found.0 ≡ true))
  unfolding file_verdict elem
  file_verdict-matched (matched j) found = ground (arith, eq_iff j k)
  file_verdict-matched (else_target j) found = ground arith
  file_verdict-matched skipped found = ground arith

  collect_keys-IsMatched :
      (rules : List Value) → (elem k (collect_keys rules context).0 ≡ true) ↔ Any IsMatched rules
  unfolding collect_keys elem
  collect_keys-IsMatched [] = ground arith
  collect_keys-IsMatched (rule ∷ rules) = ground (
    arith,
    file_verdict-matched (judge_rule rule context) (collect_keys rules context),
    judge_rule-IsMatched rule,
    judge_rule_of_matched rule,
    collect_keys-IsMatched rules,
  )

  judge_target-eq-else :
      (v : Value) (rule : Fields)
      → judge_target v rule context ≡ else_target k
      → (v ≡ str k) × (k ≢ "") × (is_else_condition rule ≡ true)
  unfolding judge_target
  judge_target-eq-else (str t) rule h = ground (arith, eq_iff t "", eq_iff k "")
  judge_target-eq-else _ rule h = cc

  judge_rule-IsElse : (rule : Value) → judge_rule rule context ≡ else_target k → IsElse rule
  unfolding judge_rule
  judge_rule-IsElse (obj fs) h =
      let (t, n, e) = judge_target-eq-else (get fs "target_step_key") fs h in
      record { fields = fs; is_object = refl; target = t; named = n; is_else = e }
  judge_rule-IsElse _ h = cc

  judge_rule_of_else : (rule : Value) → IsElse rule → judge_rule rule context ≡ else_target k
  unfolding judge_rule judge_target
  judge_rule_of_else rule m = ground (arith, eq_iff k "")

  file_verdict-else :
      (v : Verdict) (found : List String × List String)
      → (elem k (file_verdict v found).1 ≡ true) ↔ ((v ≡ else_target k) ⊎ (elem k found.1 ≡ true))
  unfolding file_verdict elem
  file_verdict-else (matched j) found = ground arith
  file_verdict-else (else_target j) found = ground (arith, eq_iff j k)
  file_verdict-else skipped found = ground arith

  collect_keys-IsElse :
      (rules : List Value) → (elem k (collect_keys rules context).1 ≡ true) ↔ Any IsElse rules
  unfolding collect_keys elem
  collect_keys-IsElse [] = ground arith
  collect_keys-IsElse (rule ∷ rules) = ground (
    arith,
    file_verdict-else (judge_rule rule context) (collect_keys rules context),
    judge_rule-IsElse rule,
    judge_rule_of_else rule,
    collect_keys-IsElse rules,
  )

key_set-mem :
    (k : String) (ks : List String) → (elem k (key_set ks) ≡ true) ↔ ((k ≢ "") × (elem k ks ≡ true))
unfolding key_set elem
key_set-mem k [] = ground arith
key_set-mem k (x ∷ xs) =
    ground (arith, key_set-mem k xs, elem-add x k (key_set xs), eq_iff x "", eq_iff x k)

-- Somewhere an IF rule matched.
pub SomeMatch : Fields → List Value → Type 0
SomeMatch context rules = (j : String) × Any (IsMatched context j) rules

no_match_nil :
    (context : Fields) (rules : List Value)
    → (collect_keys rules context).0 ≡ []
    → ¬ SomeMatch context rules
unfolding SomeMatch elem
no_match_nil context rules e (j, m) = ground (arith, (collect_keys-IsMatched context j rules).1 m)

match_cons :
    (context : Fields) (rules : List Value) (x : String) (xs : List String)
    → (collect_keys rules context).0 ≡ x ∷ xs
    → SomeMatch context rules
unfolding SomeMatch elem
match_cons context rules x xs e =
    (x, (collect_keys-IsMatched context x rules).0 (rw e (ground (arith, eq_iff x x))))

Any-named :
    (context : Fields) (k : String) (rules : List Value) → Any (IsMatched context k) rules → k ≢ ""
Any-named context k (r ∷ rs) (inl m) = m.named
Any-named context k (r ∷ rs) (inr m) = Any-named context k rs m
Any-named context k [] h = elim h [ ]

Any-else-named :
    (context : Fields) (k : String) (rules : List Value) → Any (IsElse context k) rules → k ≢ ""
Any-else-named context k (r ∷ rs) (inl m) = m.named
Any-else-named context k (r ∷ rs) (inr m) = Any-else-named context k rs m
Any-else-named context k [] h = elim h [ ]

-- The keys selected: the targets of the IF rules that match, and only if none matches those of
-- the ELSE rules.
pub evaluate_routing_rules-selects :
    (rules : List Value) (context : Fields) (keys : List String) (k : String)
    → evaluate_routing_rules rules context ≡ some keys
    → (elem k keys ≡ true) ↔ (
        Any (IsMatched context k) rules
        ⊎ (¬ SomeMatch context rules) × Any (IsElse context k) rules)
unfolding evaluate_routing_rules select_keys
evaluate_routing_rules-selects [] context keys k h = cc
evaluate_routing_rules-selects (rule ∷ rules) context keys k h =
    elim (List-cases (collect_keys (rule ∷ rules) context).0) [
      | inl e ↦ ground (
        arith,
        no_match_nil context (rule ∷ rules) e,
        collect_keys-IsMatched context k (rule ∷ rules),
        collect_keys-IsElse context k (rule ∷ rules),
        key_set-mem k (collect_keys (rule ∷ rules) context).1,
        Any-else-named context k (rule ∷ rules),
      )
      | inr (x, xs, e) ↦ ground (
        arith,
        match_cons context (rule ∷ rules) x xs e,
        collect_keys-IsMatched context k (rule ∷ rules),
        key_set-mem k (collect_keys (rule ∷ rules) context).0,
        Any-named context k (rule ∷ rules),
      )
    ]
