-- ===== src/Screening/Ready.antt =====
-- graph/states/s1.py: when `respond` hands the turn to the engine.
use suraksha_setu.Prelude.{
  String, ◌≡◌, Bool, true, false, not, Option, none, some, List, if◌then◌else◌, Bool-cases, inl,
  inr,
}
use suraksha_setu.Screening.State.{
  RequiredAttribute, PromptId, QuickReply, TurnInput, Setup, Screen, Result, ok, raised, M, after,
  ret,
}
use suraksha_setu.Screening.Take.{is_all_confirmed, count_invalid}
use suraksha_setu.Screening.Prompt.{
  is_nil, readback, confirm_one, choice_offered, next_question, next_attr, next_confirm,
  next_choice, next, confirm_all, fix,
}
use suraksha_setu.Screening.Respond.{
  invalid_for, or_next, re_asked, is_readback, is_advisor, confirm_slot, confirm_attr, has_minor,
  after_advisor, after_prompt, after_confirm, after_readback, respond_rest, take_action, take_turn,
  respond, said,
}

module _ (setup : Setup) (input : TurnInput) where
  -- A turn that is ready for the engine has every asked slot confirmed.
  abbrev pub Ready : Result Bool × Screen → Type 0
  Ready (ok true, t) = is_all_confirmed setup t ≡ true
  Ready (ok false, t) = Unit
  Ready (raised, t) = Unit

  if-Ready :
      (b : Bool) (r t : Result Bool × Screen) → Ready r → Ready t → Ready (if b then r else t)
  if-Ready true r t hr ht = hr
  if-Ready false r t hr ht = ht

  after-Ready :
      {A : Type 0} (r : Result A × Screen) (f : A → M Bool)
      → ((a : A) (s : Screen) → Ready (f a s))
      → Ready (after r f)
  after-Ready (ok a, s) f k = k a s
  after-Ready (raised, s) f k = tt

  next_attr-Ready : (o : Option RequiredAttribute) (s : Screen) → Ready (next_attr setup o s)
  next_attr-Ready (some a) s = tt
  next_attr-Ready none s = elim (Bool-cases (is_all_confirmed setup s)) [
    | inl c ↦ rw c c
    | inr c ↦ rw c (after-Ready (readback setup s) (λ done. ret false) (λ done t. tt))
  ]

  next_confirm-Ready : (o : Option String) (s : Screen) → Ready (next_confirm setup o s)
  next_confirm-Ready (some slot) s =
      after-Ready (confirm_one setup slot s) (λ done. ret false) (λ done t. tt)
  next_confirm-Ready none s = next_attr-Ready (next_question setup s) s

  next_choice-Ready :
      (o : Option (RequiredAttribute × List QuickReply)) (s : Screen)
      → Ready (next_choice setup o s)
  next_choice-Ready (some (a, quick)) s = tt
  next_choice-Ready none s = next_confirm-Ready s.confirm s

  next-Ready : (s : Screen) → Ready (next setup s)
  unfolding next
  next-Ready s = next_choice-Ready (choice_offered setup s.options s) s

  or_next-Ready : (o : Option RequiredAttribute) (s : Screen) → Ready (or_next setup input o s)
  or_next-Ready none s = next-Ready s
  or_next-Ready (some a) s = tt

  after_advisor-Ready : (o : Option Bool) (s : Screen) → Ready (after_advisor setup input o s)
  after_advisor-Ready (some true) s = tt
  after_advisor-Ready (some false) s = next-Ready (count_invalid true s)
  after_advisor-Ready none s = next-Ready (count_invalid true s)

  after_prompt-Ready :
      (p : Option PromptId) (o : Option Bool) (s : Screen) → Ready (after_prompt setup input p o s)
  unfolding after_prompt
  after_prompt-Ready p o s =
      if-Ready (is_advisor setup input p) _ _ (after_advisor-Ready o s)
        (or_next-Ready (invalid_for setup input p s) s)

  re_asked-Ready :
      (o : Option RequiredAttribute) (s : Screen) (r : Result Bool × Screen)
      → Ready r
      → Ready (re_asked setup input o s r)
  re_asked-Ready none s r h = h
  re_asked-Ready (some a) s r h = tt

  after_confirm-Ready :
      (p : Option PromptId) (o : Option Bool) (s : Screen) → Ready (after_confirm setup input p o s)
  unfolding after_confirm
  after_confirm-Ready p (some false) s =
      re_asked-Ready (confirm_attr setup input (confirm_slot setup input p) s) s _
        (after_prompt-Ready p (some false) s)
  after_confirm-Ready p (some true) s = after_prompt-Ready p (some true) s
  after_confirm-Ready p none s = after_prompt-Ready p none s

  after_readback-Ready :
      (p : Option PromptId) (o : Option Bool) (s : Screen)
      → Ready (after_readback setup input p o s)
  unfolding after_readback
  after_readback-Ready p none s = after_confirm-Ready p none s
  after_readback-Ready p (some true) s =
      if-Ready (is_readback setup input p) _ _ (next-Ready (confirm_all setup s))
        (after_confirm-Ready p (some true) s)
  after_readback-Ready p (some false) s =
      if-Ready (is_readback setup input p) (ok false, fix setup s) _ tt
        (after_confirm-Ready p (some false) s)

  respond_rest-Ready : (p : Option PromptId) (s : Screen) → Ready (respond_rest setup input p s)
  unfolding respond_rest
  respond_rest-Ready p s =
      if-Ready (has_minor s.signals) (ok false, s) _ tt
        (if-Ready (not (is_nil s.filled)) _ _ (next-Ready (count_invalid true s))
          (after_readback-Ready p (said input) s))

  unless_stopped-Ready :
      (p : Option PromptId) (stopped : Bool) (s : Screen)
      → Ready ((if stopped then ret false else respond_rest setup input p) s)
  unless_stopped-Ready p true s = tt
  unless_stopped-Ready p false s = respond_rest-Ready p s

  respond_lem : (s : Screen) → Ready (respond setup input s)
  unfolding respond take_turn
  respond_lem s =
      after-Ready (take_action setup input input.action s)
        (λ stopped. if stopped then ret false else respond_rest setup input s.last_prompt_id)
        (unless_stopped-Ready s.last_prompt_id)

  -- The engine is asked only when every slot that is asked for holds a confirmed value: `respond`
  -- never returns true before that.
  pub respond-confirmed :
      (s t : Screen) → respond setup input s ≡ (ok true, t) → is_all_confirmed setup t ≡ true
  respond-confirmed s t h = let ready = respond_lem s in rw h at ready
