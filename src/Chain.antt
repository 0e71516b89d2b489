-- ===== src/Chain.antt =====
-- backend/app/services/workflow_graph_template_chain_service.py: templates that start another template when
-- a run completes.
pub mod Cycle
pub mod Publish
pub mod Trigger
pub mod Tests
use Prim.Native.String.{◌++◌ as text_append}
use filum_reforge.Base.{
  ℕ, zero, suc, ◌+◌, String, Bool, true, false, not, ◌||◌, ◌&&◌, Option, none, some, List, [], ◌∷◌,
  ◌++◌, any, elem, length, Dict, lookup, insert, ltb, ◌==◌, if◌then◌else◌,
}
use filum_reforge.Value.{
  Value, null, bool, str, obj, arr, Fields, end, field, field_of, get, set_field, truthy, texts,
  texts_of,
}
use filum_reforge.Text.{or_text}
use filum_reforge.Errors.{Failure, Result, ok, raise}

-- `OnCompleteTemplateChainSchema`
pub record OnComplete : Type 0 where
  pub next_template_code : String
  pub carry_inputs : Bool

-- The columns of `WorkflowGraphTemplate` that are used here.
pub record ChainTemplate : Type 0 where
  pub id : String
  pub code : String
  pub base_code : Option String
  pub version : ℕ
  pub is_active : Bool
  pub config : Fields

-- `template.base_code or template.code`
unfoldable pub source_code : ChainTemplate → String
unfolding or_text
source_code template = elim template.base_code [
  | some base ↦ or_text base template.code
  | none ↦ template.code
]

-- How pydantic reads an object as an `OnComplete`, or the message of its first error.
abbrev pub Validate : Type 0
Validate = Fields → Result OnComplete

-- `parse_on_complete_config`
unfoldable pub parse_on_complete_config : Validate → Fields → Option OnComplete
unfolding get
parse_on_complete_config validate config = elim (get config "on_complete") [
  | obj raw ↦ elim (validate raw) [ ok parsed ↦ some parsed | raise e ↦ none ]
  | _ ↦ none
]

unfoldable pub load_active_on_complete_edges :
    Validate → List ChainTemplate → Dict String → Dict String
unfolding parse_on_complete_config source_code insert
load_active_on_complete_edges validate [] edges = edges
load_active_on_complete_edges validate (template ∷ rest) edges =
    let added = elim (parse_on_complete_config validate template.config) as (λ _. Dict String) [
      | some on_complete ↦ insert (source_code template) on_complete.next_template_code edges
      | none ↦ edges
    ] in
    load_active_on_complete_edges validate rest (if template.is_active then added else edges)

-- The templates that a template starts: none, or the one of `edges.get`, unless its code is empty.
unfoldable pub downstream : Dict String → String → List String
unfolding lookup
downstream edges code = elim (lookup code edges) [
  | some next ↦ if next == "" then [] else next ∷ []
  | none ↦ []
]

-- The loop over the stack. Out of fuel is `none`.
unfoldable pub chain_loop : Dict String → String → ℕ → List String → List String → Option Bool
unfolding elem downstream
chain_loop edges start fuel visited [] = some false
chain_loop edges start zero visited (current ∷ rest) = none
chain_loop edges start (suc fuel) visited (current ∷ rest) =
    let skip = chain_loop edges start fuel visited rest in
    let expand =
      chain_loop edges start fuel (current ∷ visited) (downstream edges current ++ rest) in
    if current == start then some true else if elem current visited then skip else expand

-- Each template is expanded once and gives one other.
abbrev pub chain_fuel : Dict String → ℕ
chain_fuel edges = suc (length edges)

unfoldable pub would_create_template_chain_cycle : String → String → Dict String → Option Bool
unfolding chain_loop
would_create_template_chain_cycle start_code next_code edges =
    if start_code == next_code
    then some true
    else chain_loop edges start_code (chain_fuel edges) [] (next_code ∷ [])

-- An active template has the base code.
unfoldable pub is_chain_target : String → ChainTemplate → Bool
is_chain_target code template =
    template.is_active && elim template.base_code [ some base ↦ base == code | none ↦ false ]

unfoldable pub error_if : Bool → String → List String
error_if true message = message ∷ []
error_if false message = []

unfoldable pub chain_messages : List ChainTemplate → String → String → Bool → List String
unfolding error_if is_chain_target
chain_messages templates start next is_cycle =
    error_if (next == start) "on_complete.next_template_code 不能指向当前模板。"
    ++ error_if (not (any (is_chain_target next) templates))
        (text_append "on_complete 目标模板「" (text_append next "」不存在或未 active。"))
    ++ error_if is_cycle "on_complete 模板链存在环路，无法发布。"

-- What the check of an object that is in order comes to; `none` is a loop out of fuel.
unfoldable pub chain_errors :
    Validate → List ChainTemplate → ChainTemplate → OnComplete → Option (List String)
unfolding source_code chain_messages load_active_on_complete_edges would_create_template_chain_cycle
    insert
chain_errors validate templates template parsed =
    let start = source_code template in
    let next = parsed.next_template_code in
    let edges = insert start next (load_active_on_complete_edges validate templates []) in
    elim (would_create_template_chain_cycle start next edges) [
      | none ↦ none
      | some is_cycle ↦ some (chain_messages templates start next is_cycle)
    ]

unfoldable pub validate_on_complete_for_publish :
    Validate → List ChainTemplate → ChainTemplate → Option (List String)
unfolding get chain_errors
validate_on_complete_for_publish validate templates template =
    elim (get template.config "on_complete") [
      | null ↦ some []
      | obj raw ↦ elim (validate raw) [
        | raise e ↦ some (text_append "on_complete: " e.message ∷ [])
        | ok parsed ↦ chain_errors validate templates template parsed
      ]
      | _ ↦ some ("on_complete 必须是对象。" ∷ [])
    ]
