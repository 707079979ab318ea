-- ===== src/Needs/Keeps.antt =====
-- graph/states/s2.py: what S2's prompts and its turn keep: see Kept.
use suraksha_setu.Prelude.{
  ℕ, String, ◌≡◌, refl, Bool, true, false, Option, none, some, List, ◌str_eq◌, if◌then◌else◌,
  Bool-cases, Option-cases, inl, inr,
}
use suraksha_setu.Fsm.Facts.{is_some}
use suraksha_setu.Turn.State.{EligibilityResult, SuitabilityResult}
use suraksha_setu.Screening.State.{
  Value, RequiredAttribute, PromptId, QuickReply, Action, no_action, slot_answer, reask,
  confirm_answer, elect_answer, period_answer, other_action, TurnInput, Setup, Screen, Result, ok,
  M, ◌>>=◌, ret,
}
use suraksha_setu.Screening.Take.{asked, all_confirmed, count_invalid}
use suraksha_setu.Screening.Prompt.{confirm_one, next_question, choice_offered, fix, reply}
use suraksha_setu.Screening.Respond.{
  is_readback, is_advisor, confirm_slot, invalid_for, has_minor, said,
}
use suraksha_setu.Screening.Evaluate.{engine_result, values_of, recompute}
use suraksha_setu.Screening.Kept.{
  Property, Holds, Keeps, Keeps-after, if-Holds, if-Keeps, count_invalid-Holds, ask_with-Holds,
  confirm_one-Keeps,
}
use suraksha_setu.Screening.Keeps.{confirm_each-Holds}
use suraksha_setu.Needs.Setup.{NeedsRules, on_path_setup, is_distress, payload}
use suraksha_setu.Needs.Take.{take_candidates, slot_action, notes, answer}
use suraksha_setu.Needs.Prompt.{
  or_rephrase, ask_needs, ask, ask_period, offer, hold, summary, decide_needs, decide_if, readback,
  next_attr, next_confirm, next_choice, next_period, next,
}
use suraksha_setu.Needs.Respond.{
  attr_of, invalid_answer, or_next, re_asked, after_advisor, after_prompt, confirm_attr,
  after_confirm, confirm_all, after_readback, respond_rest, re_ask, take_message, take_action,
  take_turn, respond,
}
use suraksha_setu.Needs.Own.{is_bound}
use suraksha_setu.Needs.Kept.{
  KeptByNeeds, as_writes, take_candidates-Keeps, answer-Keeps, slot_action-Keeps, notes-Holds,
}

-- The decision leaves a record that is not bound, or none.
pub is_bound-hold :
    (setup : Setup) (rules : NeedsRules) (result : SuitabilityResult) (s : Screen)
    → is_bound (hold rules setup result s).1.needs ≡ false
unfolding hold summary reply
is_bound-hold setup rules result s =
    let digest = rules.needs_sha256 (payload s.known s.comprehension) in
    elim (Bool-cases (result.inputs_sha256 str_eq digest)) [ inl e ↦ rw e refl | inr e ↦ rw e refl ]

module _ (setup : Setup) (input : TurnInput) (prompt : Option PromptId) (P : Property)
    (kept : KeptByNeeds setup input prompt P) where
  hold-Keeps :
      (rules : NeedsRules) (result : SuitabilityResult)
      → Keeps setup input prompt P (hold rules setup result)
  hold-Keeps rules result s h =
      kept.on_unbound (hold rules setup result s).1 (is_bound-hold setup rules result s)

  decide_needs-Keeps : (rules : NeedsRules) → Keeps setup input prompt P (decide_needs rules setup)
  unfolding decide_needs
  decide_needs-Keeps rules s h =
      let body = payload s.known s.comprehension in
      elim (Option-cases
        (rules.evaluate_suitability s.eligibility s.known body (rules.needs_sha256 body))) [
          | inl e ↦ rw (e, decide_needs) h
          | inr (result, e) ↦ rw (e, decide_needs) (hold-Keeps rules result s h)
        ]

  decide_if-Keeps :
      (rules : NeedsRules) (b : Bool) → Keeps setup input prompt P (decide_if rules setup b)
  decide_if-Keeps rules true s h = decide_needs-Keeps rules s h
  decide_if-Keeps rules false s h = h

  recompute-Keeps :
      (screening : Setup) (engine : List (String × Value) → Option EligibilityResult)
      → Keeps setup input prompt P (recompute screening engine)
  unfolding recompute
  recompute-Keeps screening engine s h =
      elim (Bool-cases (all_confirmed (asked screening s) s.known)) [
        | inr c ↦ rw (c, recompute) h
        | inl c ↦ elim (Option-cases (engine (values_of (asked screening s) s.known))) [
          | inl e ↦ rw (c, e, recompute) h
          | inr (result, e) ↦ rw (c, e, recompute) (kept.on_engine _ s h)
        ]
      ]

  pub readback-Keeps :
      (rules : NeedsRules) (screening : Setup)
      (engine : List (String × Value) → Option EligibilityResult)
      → Keeps setup input prompt P (readback rules setup screening engine)
  unfolding readback
  readback-Keeps rules screening engine s h =
      if-Keeps setup input prompt P (is_some (engine_result s.eligibility)) _ _
        (decide_needs-Keeps rules s h)
        (Keeps-after setup input prompt P (recompute screening engine s) (decide_if rules setup)
          (recompute-Keeps screening engine s h) (decide_if-Keeps rules))

module _ (setup : Setup) (input : TurnInput) (prompt : Option PromptId) (P : Property)
    (kept : KeptByNeeds setup input prompt P) (read : M (Unit {0}))
    (reads : Keeps setup input prompt P read) where
  pub ask_needs-Holds :
      (a : RequiredAttribute) (quick : List QuickReply) (instead : Option String) (s : Screen)
      → Holds setup input prompt P s
      → Holds setup input prompt P (ask_needs setup a quick instead s)
  unfolding ask_needs
  ask_needs-Holds a quick instead s h =
      let put = ask_with-Holds setup input prompt P a quick (or_rephrase s.rephrased instead) s h in
      if-Holds setup input prompt P (is_distress s.known) _ _ put put

  ask-Holds :
      (a : RequiredAttribute) (s : Screen)
      → Holds setup input prompt P s
      → Holds setup input prompt P (ask setup a s)
  ask-Holds a s h = ask_needs-Holds a (setup.choices a.attribute) none s h

  next_attr-Keeps :
      (o : Option RequiredAttribute) → Keeps setup input prompt P (next_attr setup o read)
  next_attr-Keeps (some a) s h = ask-Holds a s h
  next_attr-Keeps none s h =
      if-Keeps setup input prompt P _ (ok true, s) ((read >>= λ done. ret false) s) h
        (Keeps-after setup input prompt P (read s) (λ done. ret false) (reads s h) (λ done t k. k))

  next_confirm-Keeps : (o : Option String) → Keeps setup input prompt P (next_confirm setup o read)
  next_confirm-Keeps (some slot) s h =
      Keeps-after setup input prompt P (confirm_one setup slot s) (λ done. ret false)
        (confirm_one-Keeps setup input prompt P slot s h) (λ done t k. k)
  next_confirm-Keeps none s h = next_attr-Keeps (next_question (on_path_setup setup s) s) s h

  next_choice-Keeps :
      (o : Option (RequiredAttribute × List QuickReply))
      → Keeps setup input prompt P (next_choice setup o read)
  next_choice-Keeps (some (a, quick)) s h = ask_needs-Holds a quick none s h
  next_choice-Keeps none s h = next_confirm-Keeps s.confirm s h

  next_period-Keeps :
      (o : Option (String × ℕ)) → Keeps setup input prompt P (next_period setup o read)
  unfolding ask_period offer
  next_period-Keeps (some (slot, amount)) s h = h
  next_period-Keeps none s h =
      if-Keeps setup input prompt P s.offer_short _ _ h
        (next_choice-Keeps (choice_offered (on_path_setup setup s) s.options s) s h)

  pub next-Keeps : Keeps setup input prompt P (next setup read)
  unfolding next
  next-Keeps s h = next_period-Keeps s.period s h

  next_counted-Holds :
      (s : Screen)
      → Holds setup input prompt P s
      → Holds setup input prompt P (next setup read (count_invalid true s)).1
  next_counted-Holds s h =
      next-Keeps (count_invalid true s) (count_invalid-Holds setup input prompt P true s h)

  re_ask-Keeps :
      (o : Option RequiredAttribute) → Keeps setup input prompt P (re_ask setup input read o)
  re_ask-Keeps none s h = h
  re_ask-Keeps (some a) s h = ask-Holds a s h

  take_message-Keeps : Keeps setup input prompt P (take_message setup input read)
  take_message-Keeps s h =
      Keeps-after setup input prompt P (take_candidates setup input.slots_pending s) _
        (take_candidates-Keeps setup input prompt P kept input.slots_pending s h)
        (λ done t k.
          Keeps-after setup input prompt P (answer setup input.pipeline (notes setup input t))
            (λ done. ret false)
            (answer-Keeps setup input prompt P kept input.pipeline (notes setup input t)
              (notes-Holds setup input prompt P kept t k))
            (λ done u l. l))

  take_action-Keeps : (a : Action) → Keeps setup input prompt P (take_action setup input read a)
  take_action-Keeps (slot_answer slot value shown) s h =
      Keeps-after setup input prompt P (slot_action setup slot value shown s) (λ done. ret false)
        (slot_action-Keeps setup input prompt P kept slot shown value s h) (λ done t k. k)
  take_action-Keeps (reask slot) s h = re_ask-Keeps (attr_of setup input read slot s) s h
  take_action-Keeps no_action s h = take_message-Keeps s h
  take_action-Keeps (confirm_answer b) s h = h
  take_action-Keeps (elect_answer b) s h = h
  take_action-Keeps (period_answer p) s h = h
  take_action-Keeps other_action s h = h

  invalid_answer-Holds :
      (a : RequiredAttribute) (s : Screen)
      → Holds setup input prompt P s
      → Holds setup input prompt P (invalid_answer setup input read a s)
  unfolding invalid_answer
  invalid_answer-Holds a s h =
      let counted = count_invalid-Holds setup input prompt P false s h in
      if-Holds setup input prompt P _ _ _
        (count_invalid-Holds setup input prompt P true (count_invalid false s) counted)
        (ask_needs-Holds a (setup.choices a.attribute) (some "format_hint") (count_invalid false s)
          counted)

  or_next-Keeps :
      (o : Option RequiredAttribute) → Keeps setup input prompt P (or_next setup input read o)
  or_next-Keeps none s h = next-Keeps s h
  or_next-Keeps (some a) s h = invalid_answer-Holds a s h

  after_advisor-Keeps :
      (o : Option Bool) → Keeps setup input prompt P (after_advisor setup input read o)
  after_advisor-Keeps (some true) s h = h
  after_advisor-Keeps (some false) s h = next_counted-Holds s h
  after_advisor-Keeps none s h = next_counted-Holds s h

  after_prompt-Keeps :
      (o : Option Bool) → Keeps setup input prompt P (after_prompt setup input read prompt o)
  unfolding after_prompt
  after_prompt-Keeps o s h =
      if-Keeps setup input prompt P (is_advisor setup input prompt) _ _ (after_advisor-Keeps o s h)
        (or_next-Keeps (invalid_for (on_path_setup setup s) input prompt s) s h)

  re_asked-Keeps :
      (o : Option RequiredAttribute) (s : Screen) (r : Result Bool × Screen)
      → Holds setup input prompt P s
      → Holds setup input prompt P r.1
      → Holds setup input prompt P (re_asked setup input read o s r).1
  re_asked-Keeps none s r h k = k
  re_asked-Keeps (some a) s r h k = ask-Holds a s h

  after_confirm-Keeps :
      (o : Option Bool) → Keeps setup input prompt P (after_confirm setup input read prompt o)
  unfolding after_confirm
  after_confirm-Keeps (some false) s h =
      re_asked-Keeps (confirm_attr setup input read (confirm_slot setup input prompt) s) s _ h
        (after_prompt-Keeps (some false) s h)
  after_confirm-Keeps (some true) s h = after_prompt-Keeps (some true) s h
  after_confirm-Keeps none s h = after_prompt-Keeps none s h

  after_readback-Keeps :
      (o : Option Bool)
      → said input ≡ o
      → Keeps setup input prompt P (after_readback setup input read prompt o)
  unfolding after_readback fix
  after_readback-Keeps none e s h = after_confirm-Keeps none s h
  after_readback-Keeps (some true) e s h = elim (Bool-cases (is_readback setup input prompt)) [
    | inr k ↦ rw k (after_confirm-Keeps (some true) s h)
    | inl k ↦ rw k (
        next-Keeps (confirm_all setup input read s) (
          confirm_each-Holds setup input prompt P (as_writes setup input prompt P kept)
            (asked (on_path_setup setup s) s) s k e h))
  ]
  after_readback-Keeps (some false) e s h =
      if-Keeps setup input prompt P (is_readback setup input prompt) _ _ h
        (after_confirm-Keeps (some false) s h)

  respond_rest-Keeps : Keeps setup input prompt P (respond_rest setup input read prompt)
  unfolding respond_rest
  respond_rest-Keeps s h = if-Keeps setup input prompt P (has_minor s.signals) _ _ h (
      if-Keeps setup input prompt P _ _ _ (next_counted-Holds s h)
        (after_readback-Keeps (said input) refl s h))

  unless_stopped-Keeps :
      (p : Option PromptId) (stopped : Bool)
      → p ≡ prompt
      → Keeps setup input prompt P (if stopped then ret false else respond_rest setup input read p)
  unless_stopped-Keeps p true e s h = h
  unless_stopped-Keeps p false e s h = rw e (respond_rest-Keeps s h)

  pub respond-Keeps :
      (s : Screen)
      → s.last_prompt_id ≡ prompt
      → Holds setup input prompt P s
      → Holds setup input prompt P (respond setup input read s).1
  unfolding respond take_turn
  respond-Keeps s e h =
      Keeps-after setup input prompt P (take_action setup input read input.action s)
        (λ stopped. if stopped then ret false else respond_rest setup input read s.last_prompt_id)
        (take_action-Keeps input.action s h)
        (λ stopped. unless_stopped-Keeps s.last_prompt_id stopped e)
