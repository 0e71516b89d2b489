-- ===== src/Chain/Tests.antt =====
-- A chain of two templates, and a third that would close it.
use filum_reforge.Base.{String, Bool, true, some, List, [], ◌∷◌, ◌≡◌, refl, Dict, insert, ◌↔◌}
use filum_reforge.Value.{str, obj, Fields, end, field, get}
use filum_reforge.Errors.{Result, ok, raise, invalid}
use filum_reforge.Search.{Walk}
use filum_reforge.Chain.{
  Validate, ChainTemplate, OnComplete, source_code, downstream, would_create_template_chain_cycle,
  validate_on_complete_for_publish,
}
use filum_reforge.Chain.Cycle.{would_create_template_chain_cycle_correct}
use filum_reforge.Chain.Publish.{IsAcyclic, active_edges, validate_on_complete-IsAcyclic}
use filum_reforge.Chain.Trigger.{CompletedRun, ChainStart, build_chained_context}

abbrev edges : Dict String
edges = ("b", "c") ∷ ("c", "a") ∷ []

would_create_template_chain_cycle_correct_example :
    (answer : Bool) × (would_create_template_chain_cycle "a" "b" edges ≡ some answer)
    × ((answer ≡ true) ↔ Walk (downstream edges) "b" "a")
would_create_template_chain_cycle_correct_example =
    would_create_template_chain_cycle_correct "a" "b" edges

closes : would_create_template_chain_cycle "a" "b" edges ≡ some true
unfolding would_create_template_chain_cycle
closes = refl

-- An object is in order if it has the key.
abbrev validate : Validate
validate fields = elim (get fields "next_template_code") as (λ _. Result OnComplete) [
  | str s ↦ ok (record { next_template_code = s; carry_inputs = true })
  | _ ↦ raise (invalid "missing")
]

abbrev template_of : String → String → ChainTemplate
template_of code next = record {
  id = code;
  code = code;
  base_code = some code;
  version = 1;
  is_active = true;
  config = field "on_complete" (obj (field "next_template_code" (str next) end)) end;
}

abbrev last_template : ChainTemplate
last_template = record (template_of "c" "d") { config = end }

abbrev templates : List ChainTemplate
templates = template_of "b" "c" ∷ last_template ∷ []

abbrev link : OnComplete
link = record { next_template_code = "b"; carry_inputs = true }

abbrev raw : Fields
raw = field "next_template_code" (str "b") end

raw_found : get (template_of "a" "b").config "on_complete" ≡ obj raw
unfolding get
raw_found = refl

raw_valid : validate raw ≡ ok link
unfolding get
raw_valid = refl

validate_on_complete-IsAcyclic_example :
    (errors : List String) × (validate_on_complete_for_publish validate templates
        (template_of "a" "b")
      ≡ some errors)
    × (errors ≡ []
        → IsAcyclic (active_edges validate templates (template_of "a" "b"))
        → IsAcyclic (
            insert
              (source_code (template_of "a" "b"))
              "b"
              (active_edges validate templates (template_of "a" "b"))))
validate_on_complete-IsAcyclic_example =
    validate_on_complete-IsAcyclic validate templates (template_of "a" "b") raw link raw_found
      raw_valid

abbrev finished_run : CompletedRun
finished_run = record {
  id = "r1";
  template = some (template_of "a" "b");
  context = end;
  has_initiator = true;
}

abbrev begun : ChainStart
begun = record { template = template_of "b" "c"; context = build_chained_context "r1" end "a" link }
