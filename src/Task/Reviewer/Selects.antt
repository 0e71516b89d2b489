-- ===== src/Task/Reviewer/Selects.antt =====
-- Which candidate `_activate_template_review` takes as the reviewer, and what the metadata say then.
use filum_reforge.Base.{
  subst, Option-cases, String, Bool, true, false, not, ◌&&◌, Option, none, some, List, [], ◌∷◌,
  ◌++◌, ◌≡◌, refl, arith, ◌==◌, eq_iff, All, inl, inr, ◌∙◌, sym, ap, if◌then◌else◌,
}
use filum_reforge.Value.{
  Value, str, null, arr, nil, cons, Fields, end, field, field_of, get, set_field,
}
use filum_reforge.Value.Lookup.{get-set_field}
use filum_reforge.Task.Defs.{Task, is_present}
use filum_reforge.Task.Services.{TaskServices}
use filum_reforge.Task.Reviewer.{drop_field, select_reviewer, exclusion_reason}

get-drop_field :
    (k j : String) (fs : Fields) → get (drop_field k fs) j ≡ (if k == j then null else get fs j)
unfolding get drop_field field_of
get-drop_field k j end = ground (arith, eq_iff k j)
get-drop_field k j (field i w rest) =
    ground (arith, get-drop_field k j rest, eq_iff i k, eq_iff i j, eq_iff k j)

skip_set :
    (k j : String) (v : Value) (fs : Fields)
    → (k == j) ≡ false
    → get (set_field k v fs) j ≡ get fs j
skip_set k j v fs h = get-set_field k j v fs ∙ ap (λ b. if b then v else get fs j) h

skip_drop : (k j : String) (fs : Fields) → (k == j) ≡ false → get (drop_field k fs) j ≡ get fs j
skip_drop k j fs h = get-drop_field k j fs ∙ ap (λ b. if b then null else get fs j) h

-- The key is none of those that naming a reviewer writes.
unfoldable pub is_other : String → Bool
is_other j =
    not ("latest_review_state" == j)
    && not ("reviewer_id" == j)
    && not ("reviewer_ids" == j)
    && not ("reviewer_source" == j)
    && not ("self_review_fallback" == j)
    && not ("review_blocked_reason" == j)

-- The metadata after a reviewer is named.
abbrev pub named_metadata : Fields → String × String → Fields
named_metadata metadata chosen = drop_field "review_blocked_reason" (
    drop_field "self_review_fallback" (
      set_field "reviewer_source" (str chosen.0) (
        set_field "reviewer_ids" (arr (cons (str chosen.1) nil)) (
          set_field "reviewer_id" (str chosen.1)
            (set_field "latest_review_state" (str "pending_review") metadata)))))

pub get-named :
    (j : String) (metadata : Fields) (chosen : String × String)
    → is_other j ≡ true
    → get (named_metadata metadata chosen) j ≡ get metadata j
unfolding is_other
get-named j metadata chosen other =
    skip_drop "review_blocked_reason" j _ (ground arith)
    ∙ skip_drop "self_review_fallback" j _ (ground arith)
    ∙ skip_set "reviewer_source" j _ _ (ground arith)
    ∙ skip_set "reviewer_ids" j _ _ (ground arith)
    ∙ skip_set "reviewer_id" j _ _ (ground arith)
    ∙ skip_set "latest_review_state" j _ metadata (ground arith)

pub get-named_reviewer :
    (metadata : Fields) (chosen : String × String)
    → get (named_metadata metadata chosen) "reviewer_id" ≡ str chosen.1
get-named_reviewer metadata chosen =
    get-drop_field "review_blocked_reason" "reviewer_id" _
    ∙ get-drop_field "self_review_fallback" "reviewer_id" _
    ∙ get-set_field "reviewer_source" "reviewer_id" _ _
    ∙ get-set_field "reviewer_ids" "reviewer_id" _ _
    ∙ get-set_field "reviewer_id" "reviewer_id" _ _

-- Which candidate is taken, and what is known of those that are not.
pub data Selection (is_excluded : String → Bool) (candidates : List (String × String))
    : Option (String × String) → Type 0 where
  nobody :
      All (λ (c : String × String). is_excluded c.1 ≡ true) candidates
      → Selection is_excluded candidates none
  chosen :
      (before after : List (String × String)) (c : String × String)
      → candidates ≡ before ++ c ∷ after
      → is_excluded c.1 ≡ false
      → All (λ (d : String × String). is_excluded d.1 ≡ true) before
      → Selection is_excluded candidates (some c)

add_excluded :
    (is_excluded : String → Bool) (c : String × String) (rest : List (String × String))
    (found : Option (String × String))
    → is_excluded c.1 ≡ true
    → Selection is_excluded rest found
    → Selection is_excluded (c ∷ rest) found
add_excluded is_excluded c rest none h (nobody all) = nobody (h, all)
add_excluded is_excluded c rest (some _) h (chosen before after d split fit earlier) =
    chosen (c ∷ before) after d (ap (λ ys. c ∷ ys) split) fit (h, earlier)

module _ {R : Type 0} (services : TaskServices R) (runtime : R) where
  unfoldable pub is_excluded : Task → String → Bool
  unfolding is_present
  is_excluded task id = is_present (exclusion_reason services runtime task id)

  select_free :
      (task : Task) (operator : String) (c : String × String) (rest : List (String × String))
      → exclusion_reason services runtime task c.1 ≡ none
      → (select_reviewer services runtime task operator (c ∷ rest)).0 ≡ some c
  unfolding select_reviewer
  select_free task operator c rest h = ground arith

  select_later :
      (task : Task) (operator : String) (c : String × String) (rest : List (String × String))
      (reason : String)
      → exclusion_reason services runtime task c.1 ≡ some reason
      → (select_reviewer services runtime task operator (c ∷ rest)).0
        ≡ (select_reviewer services runtime task operator rest).0
  unfolding select_reviewer
  select_later task operator c rest reason h = ground arith

  -- The first candidate that may review is taken.
  pub select_reviewer-Selection :
      (task : Task) (operator : String) (candidates : List (String × String))
      → Selection
          (is_excluded task)
          candidates
          (select_reviewer services runtime task operator candidates).0
  unfolding is_excluded is_present select_reviewer
  select_reviewer-Selection task operator [] = nobody tt
  select_reviewer-Selection task operator (c ∷ rest) =
      elim (Option-cases (exclusion_reason services runtime task c.1)) [
        | inl free ↦
            subst (Selection (is_excluded task) (c ∷ rest))
              (sym (select_free task operator c rest free))
              (chosen [] rest c refl (ap is_present free) tt)
        | inr (reason, e) ↦
            subst (Selection (is_excluded task) (c ∷ rest))
              (sym (select_later task operator c rest reason e))
              (add_excluded (is_excluded task) c rest _ (ap is_present e)
                (select_reviewer-Selection task operator rest))
      ]
