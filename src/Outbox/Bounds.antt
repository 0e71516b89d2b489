-- ===== src/Outbox/Bounds.antt =====
-- How many attempts an event gets, and what a run of the worker may change.
use filum_reforge.Base.{
  ℕ, zero, suc, ◌≤◌, ◌<◌, String, ◌≡◌, refl, sym, ◌∙◌, subst, ◌⊎◌, inl, inr, true, none, List, [],
  ◌∷◌, arith, ◌==◌, All, Bool-cases, Option-cases, length, take, map, leb, select_if,
}
use filum_reforge.Command.Incident.{Incident}
use filum_reforge.Outbox.{
  OutboxStatus, waiting, retrying, dispatched, given_up, OutboxEvent, Surroundings, is_undelivered,
  delivery_error, mark_dispatched, mark_failure, dispatch_event, claim_event, handle_event,
  can_handle, process_event, process_ids, pending_ids, process_events, sort_by_age, is_due,
}

-- An event that is undelivered has an attempt left; one that was given up has had all five.
unfoldable pub Fits : OutboxStatus → OutboxEvent → Type 0
Fits waiting event = event.attempt_count < 5
Fits retrying event = event.attempt_count < 5
Fits dispatched event =
    (event.attempt_count ≤ 5) × (event.available_at ≡ none) × (event.last_error ≡ none)
Fits given_up event = event.attempt_count ≡ 5

unfoldable pub IsSound : OutboxEvent → Type 0
unfolding Fits
IsSound event = Fits event.status event

-- The event is as before, or it was undelivered and has had another attempt.
unfoldable pub Progress : OutboxEvent → OutboxEvent → Type 0
Progress before after =
    (before ≡ after)
    ⊎ ((is_undelivered before.status ≡ true)
        × (before.id ≡ after.id)
        × (before.attempt_count < after.attempt_count))

unfoldable pub ProgressAll : List OutboxEvent → List OutboxEvent → Type 0
ProgressAll [] [] = Unit
ProgressAll (a ∷ xs) (b ∷ ys) = Progress a b × ProgressAll xs ys
ProgressAll _ _ = ⊥

Progress-trans : (a b c : OutboxEvent) → Progress a b → Progress b c → Progress a c
unfolding Progress
Progress-trans a b c ab bc = elim bc [
  | inl e ↦ subst (Progress a) e ab
  | inr (open_b, id, more) ↦ elim ab [
    | inl e ↦ subst (λ x. Progress x c) (sym e) (inr (open_b, id, more))
    | inr (open_a, id', more') ↦ inr (open_a, id' ∙ id, omega arith)
  ]
]

ProgressAll-refl : (events : List OutboxEvent) → ProgressAll events events
unfolding ProgressAll Progress
ProgressAll-refl [] = tt
ProgressAll-refl (event ∷ events) = (inl refl, ProgressAll-refl events)

ProgressAll-trans :
    (xs ys zs : List OutboxEvent) → ProgressAll xs ys → ProgressAll ys zs → ProgressAll xs zs
unfolding ProgressAll
ProgressAll-trans [] [] [] h k = tt
ProgressAll-trans [] [] (c ∷ zs) h k = elim k [ ]
ProgressAll-trans [] (b ∷ ys) zs h k = elim h [ ]
ProgressAll-trans (a ∷ xs) [] zs h k = elim h [ ]
ProgressAll-trans (a ∷ xs) (b ∷ ys) [] h k = elim k [ ]
ProgressAll-trans (a ∷ xs) (b ∷ ys) (c ∷ zs) (h, hs) (k, ks) =
    (Progress-trans a b c h k, ProgressAll-trans xs ys zs hs ks)

undelivered_left :
    (status : OutboxStatus) (event : OutboxEvent)
    → is_undelivered status ≡ true
    → Fits status event
    → event.attempt_count < 5
unfolding is_undelivered Fits
undelivered_left waiting event e h = h
undelivered_left retrying event e h = h
undelivered_left status event e h = cc

module _ (around : Surroundings) where
  mark_failure-IsSound :
      (now : ℕ) (error : String) (event : OutboxEvent)
      → event.attempt_count ≤ 5
      → IsSound (mark_failure around now error event)
  unfolding mark_failure IsSound Fits
  mark_failure-IsSound now error event h = elim (Bool-cases (leb 5 event.attempt_count)) [
    | inl e ↦ rw e (ground arith)
    | inr e ↦ rw e (ground arith)
  ]

  dispatch_event-attempt_count :
      (now : ℕ) (event : OutboxEvent)
      → ((dispatch_event around now event).attempt_count ≡ event.attempt_count)
        × ((dispatch_event around now event).id ≡ event.id)
  unfolding dispatch_event mark_dispatched mark_failure
  dispatch_event-attempt_count now event = ground arith

  handle_event-IsSound :
      (now : ℕ) (event : OutboxEvent)
      → event.attempt_count < 5
      → IsSound (handle_event around now event)
  unfolding handle_event dispatch_event claim_event mark_dispatched mark_failure IsSound Fits
  handle_event-IsSound now event h =
      let claimed = claim_event around now event in
      elim (Option-cases (delivery_error around claimed)) [
        | inl sent ↦ rw (sent, dispatch_event) (omega arith, refl, refl)
        | inr (error, raised) ↦
            rw (raised, dispatch_event) (mark_failure-IsSound now error claimed h)
      ]

  handle_event-Progress :
      (now : ℕ) (event : OutboxEvent)
      → is_undelivered event.status ≡ true
      → Progress event (handle_event around now event)
  unfolding Progress handle_event claim_event
  handle_event-Progress now event e =
      let same = dispatch_event-attempt_count now (claim_event around now event) in
      inr (e, sym same.1, omega (arith, same.0))

  process_event-ProgressAll :
      (now : ℕ) (id : String) (events : List OutboxEvent) (incidents : List Incident)
      → ProgressAll events (process_event around now id events incidents).1
  unfolding process_event ProgressAll Progress can_handle
  process_event-ProgressAll now id [] incidents = tt
  process_event-ProgressAll now id (event ∷ events) incidents =
      let later = process_event-ProgressAll now id events incidents in
      elim (Bool-cases (can_handle around id event)) [
        | inl e ↦
            rw (e, process_event)
              (handle_event-Progress now event (ground arith), ProgressAll-refl events)
        | inr e ↦ elim (Bool-cases (event.id == id)) [
          | inl same ↦ rw (e, same, process_event) (inl refl, ProgressAll-refl events)
          | inr other ↦ rw (e, other, process_event) (inl refl, later)
        ]
      ]

  process_event-All :
      (now : ℕ) (id : String) (events : List OutboxEvent) (incidents : List Incident)
      → All IsSound events
      → All IsSound (process_event around now id events incidents).1
        × ((process_event around now id events incidents).0 ≤ 1)
  unfolding process_event can_handle
  process_event-All now id [] incidents h = (tt, omega arith)
  process_event-All now id (event ∷ events) incidents (sound, rest) =
      let later = process_event-All now id events incidents rest in
      elim (Bool-cases (can_handle around id event)) [
        | inl e ↦
            rw (e, process_event)
              (
                (
                  handle_event-IsSound now event (
                      undelivered_left event.status event (ground arith) (unfold IsSound in sound)),
                  rest,
                ),
                omega arith,
              )
        | inr e ↦ elim (Bool-cases (event.id == id)) [
          | inl same ↦ rw (e, same, process_event) ((sound, rest), omega arith)
          | inr other ↦ rw (e, other, process_event) ((sound, later.0), later.1)
        ]
      ]

  process_ids-All :
      (clock : String → ℕ) (ids : List String) (events : List OutboxEvent)
      (incidents : List Incident)
      → All IsSound events
      → ((process_ids around clock ids events incidents).0 ≤ length ids)
        × All IsSound (process_ids around clock ids events incidents).1
        × ProgressAll events (process_ids around clock ids events incidents).1
  unfolding process_ids
  process_ids-All clock [] events incidents h = (omega arith, h, ProgressAll-refl events)
  process_ids-All clock (id ∷ ids) events incidents h =
      let after = (process_event around (clock id) id events incidents).1 in
      let noted = (process_event around (clock id) id events incidents).2 in
      let once = process_event-All (clock id) id events incidents h in
      let rest = process_ids-All clock ids after noted once.0 in
      (
        omega (arith, once.1, rest.0),
        rest.1,
        ProgressAll-trans events after (process_ids around clock ids after noted).1
            (process_event-ProgressAll (clock id) id events incidents) rest.2,
      )

length-batch :
    (n : ℕ) (events : List OutboxEvent) → length (map (λ event. event.id) (take n events)) ≤ n
length-batch zero events = omega arith
length-batch (suc n) [] = omega arith
length-batch (suc n) (event ∷ events) = omega (arith, length-batch n events)

-- A run of the worker on sound events handles at most 50 of them and leaves all sound: an event gets at
-- most five attempts, and is given up exactly at the fifth. An event that is delivered or given up is
-- not touched, and any other that changes has had one attempt more.
pub process_events_correct :
    (around : Surroundings) (clock : String → ℕ) (now : ℕ) (events : List OutboxEvent)
    (incidents : List Incident)
    → All IsSound events
    → ((process_events around clock now events incidents).0 ≤ 50)
      × All IsSound (process_events around clock now events incidents).1
      × ProgressAll events (process_events around clock now events incidents).1
unfolding process_events pending_ids
process_events_correct around clock now events incidents h =
    let run = process_ids-All around clock (pending_ids around now events) events incidents h in
    let due = sort_by_age (select_if (is_due around now) events) in
    (omega (arith, run.0, length-batch 50 due), run.1, run.2)
