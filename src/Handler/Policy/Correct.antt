-- ===== src/Handler/Policy/Correct.antt =====
-- Who may decide, stated on the lists as they are passed, and the proof that the policy agrees.
use filum_reforge.Base.{
  refl, sym, ◌∙◌, String, ◌≡◌, ◌↔◌, ◌⊎◌, Bool, true, false, not, ◌&&◌, Option, none, some, List, [],
  ◌∷◌, arith, eq_iff, elem, minus, elem-minus,
}
use filum_reforge.Handler.Defs.{
  Semantic, work_item_complete, collection_finalize, deliverable_acceptance, business_approval,
  cosign,
}
use filum_reforge.Handler.Policy.{
  judge_actor, evaluate_actor_overlap, judge_overlap, from_keys, is_empty,
}

-- Someone who decides contributed nothing.
unfoldable pub OutsiderDecides : List String → List String → Type 0
OutsiderDecides contributors makers =
    (user : String) × (elem user makers ≡ true) × (elem user contributors ≡ false)

-- What each decision asks of an actor.
unfoldable pub Unbiased : Semantic → String → List String → List String → Bool → Type 0
Unbiased work_item_complete actor contributors makers allow = Unit
Unbiased collection_finalize actor contributors makers allow = Unit
Unbiased deliverable_acceptance actor contributors makers allow =
    (elem actor contributors ≡ false) ⊎ OutsiderDecides contributors makers
Unbiased business_approval actor contributors makers allow = elem actor contributors ≡ false
Unbiased cosign actor contributors makers allow =
    (elem actor contributors ≡ false) ⊎ ((allow ≡ true) × OutsiderDecides contributors makers)

-- The actor is known, is a decision maker, and is not biased.
unfoldable pub MayDecide : Semantic → Option String → List String → List String → Bool → Type 0
MayDecide semantic none contributors makers allow = ⊥
MayDecide semantic (some actor) contributors makers allow =
    (elem actor makers ≡ true) × Unbiased semantic actor contributors makers allow

elem-from_keys :
    (k : String) (seen ks : List String)
    → elem k (from_keys seen ks) ≡ (elem k ks && not (elem k seen))
unfolding from_keys elem
elem-from_keys k seen [] = ground arith
elem-from_keys k seen (j ∷ js) =
    ground (arith, elem-from_keys k seen js, elem-from_keys k (j ∷ seen) js, eq_iff j k)

pub elem-from_keys_nil : (k : String) (ks : List String) → elem k (from_keys [] ks) ≡ elem k ks
unfolding elem
elem-from_keys_nil k ks = ground (arith, elem-from_keys k [] ks)

is_empty-false : (xs : List String) → (is_empty xs ≡ false) ↔ ((x : String) × (elem x xs ≡ true))
unfolding is_empty elem
is_empty-false [] = ((λ e. cc), (λ (x, m). cc))
is_empty-false (x ∷ xs) = ((λ e. (x, ground (arith, eq_iff x x))), (λ m. ground arith))

is_empty-elem : (k : String) (xs : List String) → elem k xs ≡ true → is_empty xs ≡ false
unfolding is_empty elem
is_empty-elem k [] e = cc
is_empty-elem k (x ∷ xs) e = refl

outsider_iff :
    (contributors makers : List String)
    → (is_empty (minus (from_keys [] makers) (from_keys [] contributors)) ≡ false)
      ↔ OutsiderDecides contributors makers
unfolding OutsiderDecides
outsider_iff contributors makers =
    let us = from_keys [] makers in
    let cs = from_keys [] contributors in
    let rule = is_empty-false (minus us cs) in
    (
      λ e.
          let (x, m) = rule.0 e in
          let (in_us, not_cs) = (elem-minus x us cs).0 m in
          (
            x,
            sym (elem-from_keys_nil x makers) ∙ in_us,
            sym (elem-from_keys_nil x contributors) ∙ not_cs,
          ),
      λ (x, m, n). rule.1 (
        x,
        ground (
          arith,
          elem-minus x us cs,
          elem-from_keys_nil x makers,
          elem-from_keys_nil x contributors,
        ),
      ),
    )

judge_overlap-Unbiased :
    (semantic : Semantic) (actor : String) (contributors makers : List String) (allow others : Bool)
    → ((others ≡ true) ↔ OutsiderDecides contributors makers)
    → ((judge_overlap semantic (elem actor (from_keys [] contributors)) others allow).0 ≡ true)
      ↔ Unbiased semantic actor contributors makers allow
unfolding judge_overlap Unbiased
judge_overlap-Unbiased work_item_complete actor contributors makers allow others h = ground arith
judge_overlap-Unbiased collection_finalize actor contributors makers allow others h = ground arith
judge_overlap-Unbiased business_approval actor contributors makers allow others h =
    ground (arith, elem-from_keys_nil actor contributors)
judge_overlap-Unbiased deliverable_acceptance actor contributors makers allow others h =
    ground (arith, elem-from_keys_nil actor contributors)
judge_overlap-Unbiased cosign actor contributors makers allow others h =
    ground (arith, elem-from_keys_nil actor contributors)

-- The policy allows a decision exactly when the actor is one of the decision makers and is not biased
-- for this kind of decision.
pub evaluate_actor_overlap_iff :
    (semantic : Semantic) (actor : Option String) (contributors makers : List String) (allow : Bool)
    → ((evaluate_actor_overlap semantic actor contributors makers allow).allowed ≡ true)
      ↔ MayDecide semantic actor contributors makers allow
unfolding evaluate_actor_overlap judge_actor MayDecide
evaluate_actor_overlap_iff semantic none contributors makers allow = ground arith
evaluate_actor_overlap_iff semantic (some actor) contributors makers allow =
    let none_outside = is_empty (minus (from_keys [] makers) (from_keys [] contributors)) in
    let rule =
      judge_overlap-Unbiased semantic actor contributors makers allow (not none_outside)
        (ground (arith, outsider_iff contributors makers)) in
    ground (
      arith,
      rule,
      elem-from_keys_nil actor makers,
      elem-from_keys_nil actor contributors,
      is_empty-elem actor (from_keys [] makers),
    )
