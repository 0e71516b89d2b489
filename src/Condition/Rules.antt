-- ===== src/Condition/Rules.antt =====
-- Routing rules, evaluated to the step keys they select
-- (`evaluate_routing_rules` of backend/app/services/condition_evaluator.py).
use filum_reforge.Base.{
  String, Bool, false, Option, none, some, List, [], ◌∷◌, if◌then◌else◌, ◌==◌, add,
}
use filum_reforge.Value.{Value, str, obj, Fields, get}
use filum_reforge.Condition.{evaluate_condition, is_else_condition}

-- `condition = rule.get("condition")`, which counts only if it is an object that holds.
unfoldable pub condition_matches : Value → Fields → Bool
unfolding evaluate_condition
condition_matches (obj condition) context = evaluate_condition condition context
condition_matches _ context = false

-- What one rule adds: a matched target, an ELSE target, or nothing.
pub data Verdict : Type 0 where
  matched else_target : String → Verdict
  skipped : Verdict

unfoldable pub judge_target : Value → Fields → Fields → Verdict
unfolding is_else_condition condition_matches get
judge_target (str target) rule context =
    if target == ""
    then skipped
    else if is_else_condition rule
    then else_target target
    else if condition_matches (get rule "condition") context
    then matched target
    else skipped
judge_target _ rule context = skipped

unfoldable pub judge_rule : Value → Fields → Verdict
unfolding judge_target get
judge_rule (obj rule) context = judge_target (get rule "target_step_key") rule context
judge_rule _ context = skipped

-- `matched_keys` and `else_keys` with one more rule in front.
unfoldable pub file_verdict : Verdict → List String × List String → List String × List String
file_verdict (matched k) (matched_keys, else_keys) = (k ∷ matched_keys, else_keys)
file_verdict (else_target k) (matched_keys, else_keys) = (matched_keys, k ∷ else_keys)
file_verdict skipped found = found

-- The loop of `evaluate_routing_rules`.
unfoldable pub collect_keys : List Value → Fields → List String × List String
unfolding judge_rule file_verdict
collect_keys [] context = ([], [])
collect_keys (rule ∷ rules) context =
    file_verdict (judge_rule rule context) (collect_keys rules context)

-- `{k for k in selected if k}`
unfoldable pub key_set : List String → List String
unfolding add
key_set [] = []
key_set (k ∷ ks) = let rest = key_set ks in if k == "" then rest else add k rest

unfoldable pub select_keys : List String → List String → List String
select_keys [] else_keys = else_keys
select_keys (k ∷ ks) else_keys = k ∷ ks

unfoldable pub evaluate_routing_rules : List Value → Fields → Option (List String)
unfolding collect_keys key_set select_keys
evaluate_routing_rules [] context = none
evaluate_routing_rules (rule ∷ rules) context =
    let (matched_keys, else_keys) = collect_keys (rule ∷ rules) context in
    some (key_set (select_keys matched_keys else_keys))
