-- ===== src/Screening/Keeps.antt =====
-- What every step of a turn's screen keeps: what the two kinds of write keep is kept by the whole turn.
use suraksha_setu.Prelude.{
  ℕ, String, ◌≡◌, refl, Bool, true, false, ◌&&◌, ◌||◌, Option, none, some, List, [], ◌∷◌, ltb,
  ◌str_eq◌, if◌then◌else◌, Bool-cases, Option-cases, inl, inr,
}
use suraksha_setu.Prelude.Dict.{lookup}
use suraksha_setu.Prelude.Texts.{in_texts}
use suraksha_setu.Screening.State.{
  Value, text, confirmed, is_confirmed, Answer, Understood, answered, several, unusable,
  domain_down, left_open, RequiredAttribute, SlotCandidate, PromptId, Action, no_action,
  slot_answer, reask, confirm_answer, elect_answer, period_answer, other_action, Message, TurnInput,
  Setup, Screen, Result, ok, ◌>>=◌, ret,
}
use suraksha_setu.Screening.Take.{
  is_rule, is_under_age, said_again, is_ill, status_of, asked, attr, write, record_answer,
  take_understood, take, take_candidates, pending, answer_pending, slot_action, is_pending,
  count_invalid,
}
use suraksha_setu.Screening.Prompt.{fix, confirm_each}
use suraksha_setu.Screening.Respond.{
  notes, invalid_answer, invalid_for, or_next, re_asked, is_readback, is_advisor, confirm_slot,
  confirm_attr, after_advisor, re_ask, take_message, take_action, has_minor, after_prompt,
  after_confirm, after_readback, respond_rest, take_turn, respond, said,
}
use suraksha_setu.Screening.Kept.{
  Property, Holds, Keeps, KeptByWrites, Keeps-after, if-Holds, if-Keeps, disclosed-Holds,
  count_invalid-Holds, ask_with-Holds, next-Keeps, notes_in-Holds,
}

module _ (setup : Setup) (input : TurnInput) (prompt : Option PromptId) (P : Property)
    (writes : KeptByWrites setup input prompt P) where
  record_answer-Holds :
      (slot evidence : String) (raw : Value) (confidence : ℕ) (a : Answer) (s : Screen)
      → (is_rule slot setup.attrs || in_texts slot setup.extra) ≡ true
      → ltb confidence setup.settings.confidence_readback_floor ≡ false
      → setup.understand slot raw evidence ≡ answered a
      → is_under_age slot a.value ≡ false
      → Holds setup input prompt P s
      → Holds setup input prompt P (record_answer setup slot confidence a s)
  unfolding record_answer
  record_answer-Holds slot evidence raw confidence a s rule sure e adult h =
      let w = writes.on_answer slot evidence raw confidence a s rule sure e adult h in
      let written = write setup slot a.value (status_of a (lookup slot s.known)) confidence s in
      if-Holds setup input prompt P ((slot str_eq "health_flags") && is_ill a.value) _ _
        (disclosed-Holds setup input prompt P written w) w

  take_understood-Keeps :
      (slot evidence : String) (raw : Value) (confidence : ℕ) (u : Understood)
      → (is_rule slot setup.attrs || in_texts slot setup.extra) ≡ true
      → ltb confidence setup.settings.confidence_readback_floor ≡ false
      → setup.understand slot raw evidence ≡ u
      → Keeps setup input prompt P (take_understood setup slot confidence u)
  unfolding take_understood
  take_understood-Keeps slot evidence raw confidence (several found) rule sure e s h = h
  take_understood-Keeps slot evidence raw confidence unusable rule sure e s h = h
  take_understood-Keeps slot evidence raw confidence domain_down rule sure e s h = h
  take_understood-Keeps slot evidence raw confidence (left_open amount) rule sure e s h = h
  take_understood-Keeps slot evidence raw confidence (answered a) rule sure e s h =
      elim (Bool-cases (is_under_age slot a.value)) [
        | inl minor ↦ rw minor h
        | inr adult ↦ rw adult (
            if-Keeps setup input prompt P (said_again (lookup slot s.known) a.value) _ _ h (
              record_answer-Holds slot evidence raw confidence a
                (record s { filled = slot ∷ s.filled }) rule sure e adult h))
      ]

  pub take-Keeps :
      (slot evidence : String) (raw : Value) (confidence : ℕ)
      → Keeps setup input prompt P (take setup slot raw evidence confidence)
  unfolding take
  take-Keeps slot evidence raw confidence s h =
      elim (Bool-cases (is_rule slot setup.attrs || in_texts slot setup.extra)) [
        | inr r ↦ rw r h
        | inl r ↦ elim (Bool-cases (ltb confidence setup.settings.confidence_readback_floor)) [
          | inl c ↦ rw (r, c) h
          | inr c ↦
              rw (r, c)
                (take_understood-Keeps slot evidence raw confidence
                  (setup.understand slot raw evidence) r c refl s h)
        ]
      ]

  take_candidates-Keeps :
      (cs : List SlotCandidate) → Keeps setup input prompt P (take_candidates setup cs)
  unfolding take_candidates
  take_candidates-Keeps [] s h = h
  take_candidates-Keeps (c ∷ cs) s h =
      let slot = setup.alias c.slot in
      elim (Bool-cases (in_texts slot setup.kinds)) [
        | inr k ↦ rw k (take_candidates-Keeps cs s h)
        | inl k ↦ rw k (
            Keeps-after setup input prompt P
              (take setup slot c.value c.evidence_span c.confidence
                (record s { offered = slot ∷ s.offered }))
              (λ taken. take_candidates setup cs)
              (take-Keeps slot c.evidence_span c.value c.confidence
                (record s { offered = slot ∷ s.offered }) h)
              (λ taken. take_candidates-Keeps cs))
      ]

  take_open-Keeps :
      (slot evidence : String) (raw : Value)
      → Keeps setup input prompt P
          (take setup slot raw evidence setup.full_confidence >>= λ taken. ret tt)
  take_open-Keeps slot evidence raw s h =
      Keeps-after setup input prompt P (take setup slot raw evidence setup.full_confidence s)
        (λ taken. ret tt) (take-Keeps slot evidence raw setup.full_confidence s h) (λ taken t k. k)

  answer_pending-Keeps :
      (m : Option Message) (slot : Option String)
      → Keeps setup input prompt P (answer_pending setup m slot)
  unfolding answer_pending
  answer_pending-Keeps (some m) (some slot) s h =
      if-Keeps setup input prompt P _ _ (ok tt, s)
        (take_open-Keeps slot m.stored_raw (text m.stored_raw) s h) h
  answer_pending-Keeps none slot s h = h
  answer_pending-Keeps (some m) none s h = h

  slot_action-Keeps :
      (slot shown : String) (value : Value)
      → Keeps setup input prompt P (slot_action setup slot value shown)
  unfolding slot_action
  slot_action-Keeps slot shown value s h =
      if-Keeps setup input prompt P (is_pending setup slot (pending setup s)) _ (ok tt, s)
        (take_open-Keeps slot shown value s h) h

  re_ask-Keeps : (o : Option RequiredAttribute) → Keeps setup input prompt P (re_ask setup input o)
  re_ask-Keeps none s h = h
  re_ask-Keeps (some a) s h =
      ask_with-Holds setup input prompt P a (setup.choices a.attribute) none s h

  take_message-Keeps : Keeps setup input prompt P (take_message setup input)
  unfolding notes
  take_message-Keeps s h =
      Keeps-after setup input prompt P (take_candidates setup input.slots_pending s) _
        (take_candidates-Keeps input.slots_pending s h)
        (λ done t k.
          Keeps-after setup input prompt P
            (answer_pending setup input.pipeline (pending setup (notes setup input t))
              (notes setup input t))
            (λ done. ret false)
            (answer_pending-Keeps input.pipeline (pending setup (notes setup input t))
              (notes setup input t) (notes_in-Holds setup input prompt P input.pipeline t k))
            (λ done u l. l))

  take_action-Keeps : (a : Action) → Keeps setup input prompt P (take_action setup input a)
  take_action-Keeps (slot_answer slot value shown) s h =
      Keeps-after setup input prompt P (slot_action setup slot value shown s) (λ done. ret false)
        (slot_action-Keeps slot shown value s h) (λ done t k. k)
  take_action-Keeps (reask slot) s h = re_ask-Keeps (attr setup slot s) s h
  take_action-Keeps no_action s h = take_message-Keeps s h
  take_action-Keeps (confirm_answer b) s h = h
  take_action-Keeps (elect_answer b) s h = h
  take_action-Keeps (period_answer p) s h = h
  take_action-Keeps other_action s h = h

  pub confirm_each-Holds :
      (as' : List RequiredAttribute) (s : Screen)
      → is_readback setup input prompt ≡ true
      → said input ≡ some true
      → Holds setup input prompt P s
      → Holds setup input prompt P (confirm_each setup as' s)
  unfolding confirm_each
  confirm_each-Holds [] s r y h = h
  confirm_each-Holds (a ∷ as') s r y h = elim (Option-cases (lookup a.attribute s.known)) [
    | inl e ↦ rw (e, confirm_each) (confirm_each-Holds as' s r y h)
    | inr ((status, value), e) ↦
        rw (e, confirm_each)
          (if-Holds setup input prompt P (is_confirmed status) _ _ (confirm_each-Holds as' s r y h)
            (confirm_each-Holds as'
              (write setup a.attribute value confirmed setup.full_confidence s) r y
              (writes.on_confirm a.attribute value status s r y e h)))
  ]

  invalid_answer-Holds :
      (a : RequiredAttribute) (s : Screen)
      → Holds setup input prompt P s
      → Holds setup input prompt P (invalid_answer setup input a s)
  unfolding invalid_answer
  invalid_answer-Holds a s h =
      let counted = count_invalid-Holds setup input prompt P false s h in
      if-Holds setup input prompt P _ _ _
        (count_invalid-Holds setup input prompt P true (count_invalid false s) counted)
        (ask_with-Holds setup input prompt P a (setup.choices a.attribute) (some "format_hint")
          (count_invalid false s) counted)

  or_next-Keeps :
      (o : Option RequiredAttribute) → Keeps setup input prompt P (or_next setup input o)
  or_next-Keeps none s h = next-Keeps setup input prompt P s h
  or_next-Keeps (some a) s h = invalid_answer-Holds a s h

  after_advisor-Keeps : (o : Option Bool) → Keeps setup input prompt P (after_advisor setup input o)
  after_advisor-Keeps (some true) s h = h
  after_advisor-Keeps (some false) s h =
      next-Keeps setup input prompt P (count_invalid true s)
        (count_invalid-Holds setup input prompt P true s h)
  after_advisor-Keeps none s h =
      next-Keeps setup input prompt P (count_invalid true s)
        (count_invalid-Holds setup input prompt P true s h)

  after_prompt-Keeps :
      (answer : Option Bool) → Keeps setup input prompt P (after_prompt setup input prompt answer)
  unfolding after_prompt
  after_prompt-Keeps answer s h =
      if-Keeps setup input prompt P (is_advisor setup input prompt) _ _
        (after_advisor-Keeps answer s h) (or_next-Keeps (invalid_for setup input prompt s) s h)

  re_asked-Keeps :
      (o : Option RequiredAttribute) (s : Screen) (r : Result Bool × Screen)
      → Holds setup input prompt P s
      → Holds setup input prompt P r.1
      → Holds setup input prompt P (re_asked setup input o s r).1
  re_asked-Keeps none s r h k = k
  re_asked-Keeps (some a) s r h k =
      ask_with-Holds setup input prompt P a (setup.choices a.attribute) none s h

  after_confirm-Keeps :
      (answer : Option Bool) → Keeps setup input prompt P (after_confirm setup input prompt answer)
  unfolding after_confirm
  after_confirm-Keeps (some false) s h =
      re_asked-Keeps (confirm_attr setup input (confirm_slot setup input prompt) s) s _ h
        (after_prompt-Keeps (some false) s h)
  after_confirm-Keeps (some true) s h = after_prompt-Keeps (some true) s h
  after_confirm-Keeps none s h = after_prompt-Keeps none s h

  after_readback-Keeps :
      (answer : Option Bool)
      → said input ≡ answer
      → Keeps setup input prompt P (after_readback setup input prompt answer)
  unfolding after_readback fix
  after_readback-Keeps none e s h = after_confirm-Keeps none s h
  after_readback-Keeps (some true) e s h = elim (Bool-cases (is_readback setup input prompt)) [
    | inr k ↦ rw k (after_confirm-Keeps (some true) s h)
    | inl k ↦ rw k (next-Keeps setup input prompt P _ (confirm_each-Holds (asked setup s) s k e h))
  ]
  after_readback-Keeps (some false) e s h =
      if-Keeps setup input prompt P (is_readback setup input prompt) _ _ h
        (after_confirm-Keeps (some false) s h)

  respond_rest-Keeps : Keeps setup input prompt P (respond_rest setup input prompt)
  unfolding respond_rest
  respond_rest-Keeps s h = if-Keeps setup input prompt P (has_minor s.signals) _ _ h (
      if-Keeps setup input prompt P _ _ _
        (next-Keeps setup input prompt P (count_invalid true s)
          (count_invalid-Holds setup input prompt P true s h))
        (after_readback-Keeps (said input) refl s h))

  unless_stopped-Keeps :
      (p : Option PromptId) (stopped : Bool)
      → p ≡ prompt
      → Keeps setup input prompt P (if stopped then ret false else respond_rest setup input p)
  unless_stopped-Keeps p true e s h = h
  unless_stopped-Keeps p false e s h = rw e (respond_rest-Keeps s h)

  -- The whole turn.
  pub respond-Keeps :
      (s : Screen)
      → s.last_prompt_id ≡ prompt
      → Holds setup input prompt P s
      → Holds setup input prompt P (respond setup input s).1
  unfolding respond take_turn
  respond-Keeps s e h =
      Keeps-after setup input prompt P (take_action setup input input.action s)
        (λ stopped. if stopped then ret false else respond_rest setup input s.last_prompt_id)
        (take_action-Keeps input.action s h)
        (λ stopped. unless_stopped-Keeps s.last_prompt_id stopped e)
