-- ===== src/Task/Paging.antt =====
-- `_paginate_task_center_list` of backend/app/services/task_service.py.
pub mod Visits
use filum_reforge.Base.{
  ℕ, zero, suc, String, Bool, ltb, ◌&&◌, Option, none, some, List, [], ◌∷◌, ◌==◌, length, take,
  if◌then◌else◌,
}

pub record TaskCenterListPage (A : Type 0) : Type 0 where
  pub items : List A
  pub next_cursor : Option String
  pub has_more : Bool

module _ {A : Type 0} where
  -- `entries[start:]` after the entry with the id; with no such entry the list from its start.
  unfoldable pub after_entry : (A → String) → String → List A → Option (List A)
  after_entry id_of key [] = none
  after_entry id_of key (x ∷ xs) =
      let rest = after_entry id_of key xs in if id_of x == key then some xs else rest

  unfoldable pub sliced : (A → String) → Option String → List A → List A
  unfolding after_entry
  sliced id_of none entries = entries
  sliced id_of (some key) entries = elim (after_entry id_of key entries) [
    | some rest ↦ rest
    | none ↦ entries
  ]

  -- `xs[-1]`, if there is one.
  unfoldable pub last_id : (A → String) → List A → Option String
  last_id id_of [] = none
  last_id id_of (x ∷ []) = some (id_of x)
  last_id id_of (x ∷ y ∷ xs) = last_id id_of (y ∷ xs)

  unfoldable pub paginate : (A → String) → ℕ → Option String → List A → TaskCenterListPage A
  unfolding sliced last_id
  paginate id_of limit after_task_id entries =
      let rest = sliced id_of after_task_id entries in
      let page = take limit rest in
      let more = ltb limit (length rest) in
      record {
        items = page;
        next_cursor = if more then last_id id_of page else none;
        has_more = more;
      }

  -- What a client sees that asks for the next page while the answer has a cursor. Out of fuel is
  -- `none`.
  unfoldable pub fetch_pages :
      (A → String) → ℕ → ℕ → Option String → List A → Option (List (List A))
  unfolding paginate
  fetch_pages id_of limit zero cursor entries = none
  fetch_pages id_of limit (suc fuel) cursor entries =
      let page = paginate id_of limit cursor entries in
      elim (page.next_cursor) [
        | none ↦ some (page.items ∷ [])
        | some next ↦ elim (fetch_pages id_of limit fuel (some next) entries) [
          | some pages ↦ some (page.items ∷ pages)
          | none ↦ none
        ]
      ]
