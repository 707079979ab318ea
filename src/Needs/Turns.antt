-- ===== src/Needs/Turns.antt =====
-- graph/states/s2.py: what the S2 node keeps: see Kept. Only the binding is left to the property.
use suraksha_setu.Prelude.{
  ℕ, String, ◌≡◌, refl, Bool, true, false, not, ◌&&◌, Option, none, some, List, [], ◌∷◌,
  if◌then◌else◌, Bool-cases, inl, inr, arith,
}
use suraksha_setu.Prelude.Dict.{lookup, insert}
use suraksha_setu.Fsm.Facts.{SuitabilityOutcome, is_some}
use suraksha_setu.Turn.State.{SuitabilityResult}
use suraksha_setu.Screening.State.{
  number, proposed, corrected, is_confirmed, RequiredAttribute, PromptId, period_prompt,
  short_prompt, elect_prompt, amber_prompt, ask_prompt, confirm_prompt, readback_prompt, fix_prompt,
  advisor_prompt, done_prompt, other_prompt, Period, HeldNeeds, TurnInput, Setup, Screen, Result,
  ok, raised, M, ret,
}
use suraksha_setu.Screening.Prompt.{reply}
use suraksha_setu.Screening.Respond.{is_readback, said}
use suraksha_setu.Screening.Kept.{Property, Holds, Keeps, Keeps-after, if-Holds}
use suraksha_setu.Needs.Setup.{NeedsRules, is_short}
use suraksha_setu.Needs.Prompt.{
  unanswered, ask_period, next, is_partial, is_amber, bridge, fit_reply, outcome_reply, route, bind,
}
use suraksha_setu.Needs.Respond.{respond}
use suraksha_setu.Needs.Own.{
  bound_result, elected, named_period, yearly, down, or_down, go_on, take_short, said_yearly,
  take_period, recorded_election, off_short, ask_first, elect, take_elect, confirm_amber,
  refuse_amber, take_amber, for_bound, own_prompt,
}
use suraksha_setu.Needs.Node.{is_yes, is_confirmed_summary, bind_held, when_ready, or_respond, body}
use suraksha_setu.Needs.Kept.{KeptByNeeds}
use suraksha_setu.Needs.Keeps.{ask_needs-Holds, next-Keeps, respond-Keeps}

later_status : (b : Bool) → is_confirmed (if b then corrected else proposed) ≡ false
later_status true = refl
later_status false = refl

module _ (rules : NeedsRules) (setup : Setup) (input : TurnInput) (prompt : Option PromptId)
    (P : Property) where
  fit_reply-Holds :
      (partial amber : Bool) (result : SuitabilityResult) (s : Screen)
      → Holds setup input prompt P s
      → Holds setup input prompt P (fit_reply rules setup partial amber result.affordability s)
  unfolding bridge reply
  fit_reply-Holds partial amber result s h =
      if-Holds setup input prompt P (partial && not amber) _ _ h
        (if-Holds setup input prompt P (is_amber result.affordability) _ _ h h)

  outcome_reply-Holds :
      (o : SuitabilityOutcome) (agreed : Bool) (result : SuitabilityResult) (s : Screen)
      → Holds setup input prompt P s
      → Holds setup input prompt P (outcome_reply rules setup o agreed result s)
  unfolding reply
  outcome_reply-Holds SuitabilityOutcome.escalate agreed result s h = h
  outcome_reply-Holds SuitabilityOutcome.no_gap agreed result s h = h
  outcome_reply-Holds SuitabilityOutcome.fit agreed result s h =
      fit_reply-Holds (is_partial rules setup result) agreed result s h

  pub route-Holds :
      (agreed : Bool) (result : SuitabilityResult) (s : Screen)
      → Holds setup input prompt P s
      → Holds setup input prompt P (route rules setup agreed result s)
  unfolding route
  route-Holds agreed result s h = outcome_reply-Holds result.outcome agreed result s h

module _ (rules : NeedsRules) (setup : Setup) (input : TurnInput) (prompt : Option PromptId)
    (P : Property) (kept : KeptByNeeds setup input prompt P) (read : M (Unit {0}))
    (reads : Keeps setup input prompt P read) where
  read_if-Keeps : (b : Bool) → Keeps setup input prompt P (if b then read else ret tt)
  read_if-Keeps true s h = reads s h
  read_if-Keeps false s h = h

  pub go_on-Keeps : Keeps setup input prompt P (go_on rules setup input read)
  go_on-Keeps s h =
      Keeps-after setup input prompt P (next setup read s) (λ ready. if ready then read else ret tt)
        (next-Keeps setup input prompt P kept read reads s h) read_if-Keeps

  take_period-Keeps :
      (slot : String) (amount : ℕ) (p : Option Period)
      → Keeps setup input prompt P (take_period rules setup input read slot amount p)
  unfolding take_period ask_period
  take_period-Keeps slot amount none s h = h
  take_period-Keeps slot amount (some p) s h =
      let yearly_said = said_yearly rules setup input read slot (yearly amount p) s in
      Keeps-after setup input prompt P (next setup read yearly_said) (λ ready. ret tt)
        (next-Keeps setup input prompt P kept read reads yearly_said (
          kept.on_unconfirmed slot (number (yearly amount p)) _ setup.full_confidence s
            (later_status (is_some (lookup slot s.known))) h))
        (λ ready t k. k)

  off_short-Holds :
      (s : Screen)
      → Holds setup input prompt P s
      → Holds setup input prompt P (off_short rules setup input read s)
  off_short-Holds s h = if-Holds setup input prompt P (is_short s) _ s h h

  ask_first-Holds :
      (as' : List RequiredAttribute) (s : Screen)
      → Holds setup input prompt P s
      → Holds setup input prompt P (ask_first rules setup input read as' s)
  ask_first-Holds [] s h = h
  ask_first-Holds (a ∷ as') s h =
      ask_needs-Holds setup input prompt P kept read reads a (setup.choices a.attribute) none s h

  elect-Holds :
      (result : SuitabilityResult) (agreed : Bool) (s : Screen)
      → Holds setup input prompt P s
      → Holds setup input prompt P (elect rules setup input read result agreed s)
  unfolding elect
  elect-Holds result true s h = route-Holds rules setup input prompt P true result _ h
  elect-Holds result false s h =
      ask_first-Holds (unanswered setup.attrs s.known) _
        (off_short-Holds (recorded_election rules setup input read result false s) h)

  confirm_amber-Holds :
      (result : SuitabilityResult) (s : Screen)
      → Holds setup input prompt P s
      → Holds setup input prompt P (confirm_amber rules setup input read result s)
  unfolding confirm_amber bridge
  confirm_amber-Holds result s h =
      if-Holds setup input prompt P (is_partial rules setup result) _ _ h h

  -- What a turn that answers one of S2's prompts does.
  abbrev OwnKeeps : Option (M (Unit {0})) → Type 0
  OwnKeeps none = Unit
  OwnKeeps (some m) = Keeps setup input prompt P m

  take_short-Keeps : (o : Option Bool) → OwnKeeps (take_short rules setup input read o)
  take_short-Keeps none = tt
  take_short-Keeps (some true) =
      λ s. go_on-Keeps (record s { counters = insert "short_path" 1 s.counters })
  take_short-Keeps (some false) = go_on-Keeps

  take_elect-Keeps :
      (result : SuitabilityResult) (o : Option Bool)
      → OwnKeeps (take_elect rules setup input read result o)
  take_elect-Keeps result none = tt
  take_elect-Keeps result (some agreed) = elect-Holds result agreed

  take_amber-Keeps :
      (result : SuitabilityResult) (o : Option Bool)
      → OwnKeeps (take_amber rules setup input read result o)
  unfolding refuse_amber
  take_amber-Keeps result none = tt
  take_amber-Keeps result (some true) = confirm_amber-Holds result
  take_amber-Keeps result (some false) = λ s h. h

  for_bound-Keeps :
      (o : Option SuitabilityResult) (f : SuitabilityResult → Option (M (Unit {0})))
      → ((result : SuitabilityResult) → OwnKeeps (f result))
      → OwnKeeps (for_bound rules setup input read o f)
  for_bound-Keeps none f k = tt
  for_bound-Keeps (some result) f k = k result

  own_prompt-Keeps :
      (p : Option PromptId) (s : Screen) → OwnKeeps (own_prompt rules setup input read p s)
  unfolding own_prompt
  own_prompt-Keeps none s = tt
  own_prompt-Keeps (some short_prompt) s = take_short-Keeps (said input)
  own_prompt-Keeps (some (period_prompt slot amount)) s =
      take_period-Keeps slot amount (named_period input)
  own_prompt-Keeps (some elect_prompt) s =
      for_bound-Keeps (bound_result s) _ (λ result. take_elect-Keeps result (elected input))
  own_prompt-Keeps (some amber_prompt) s =
      for_bound-Keeps (bound_result s) _ (λ result. take_amber-Keeps result (said input))
  own_prompt-Keeps (some (ask_prompt p slot)) s = tt
  own_prompt-Keeps (some (confirm_prompt p slot)) s = tt
  own_prompt-Keeps (some (readback_prompt p)) s = tt
  own_prompt-Keeps (some (fix_prompt p)) s = tt
  own_prompt-Keeps (some (advisor_prompt p)) s = tt
  own_prompt-Keeps (some done_prompt) s = tt
  own_prompt-Keeps (some (other_prompt t)) s = tt

  yes_said : (o : Option Bool) → is_yes rules setup input read o ≡ true → o ≡ some true
  yes_said none h = absurd (ground arith)
  yes_said (some b) h = rw h refl

module _ (rules : NeedsRules) (setup : Setup) (input : TurnInput) (prompt : Option PromptId)
    (P : Property) (kept : KeptByNeeds setup input prompt P) (read : M (Unit {0}))
    (reads : Keeps setup input prompt P read)
    (binds : (result : SuitabilityResult) (s : Screen)
      → is_readback setup input prompt ≡ true
      → said input ≡ some true
      → s.suitability ≡ some result
      → Holds setup input prompt P s
      → Holds setup input prompt P (bind rules setup result s).1) where
  bind_held-Keeps :
      (held : Option HeldNeeds) (result : Option SuitabilityResult) (s : Screen)
      → is_readback setup input prompt ≡ true
      → said input ≡ some true
      → s.suitability ≡ result
      → Holds setup input prompt P s
      → Holds setup input prompt P (bind_held rules setup input read held result s).1
  bind_held-Keeps none result s r y e h = reads s h
  bind_held-Keeps (some held) none s r y e h = reads s h
  bind_held-Keeps (some held) (some result) s r y e h = binds result s r y e h

  when_ready-Keeps :
      (ready : Bool) → Keeps setup input prompt P (when_ready rules setup input read prompt ready)
  when_ready-Keeps false s h = h
  when_ready-Keeps true s h =
      elim (Bool-cases (is_confirmed_summary rules setup input read prompt s)) [
        | inr c ↦ rw c (reads s h)
        | inl c ↦
            let r : is_readback setup input prompt ≡ true = ground (arith, c) in
            let y =
              yes_said rules setup input prompt P kept read reads (said input)
                (ground (arith, c)) in
            rw c (bind_held-Keeps s.needs s.suitability s r y refl h)
      ]

  when_ready_at :
      (p : Option PromptId) (ready : Bool)
      → p ≡ prompt
      → Keeps setup input prompt P (when_ready rules setup input read p ready)
  when_ready_at p ready e s h = rw e (when_ready-Keeps ready s h)

  or_respond-Keeps :
      (o : Option (M (Unit {0}))) (s : Screen)
      → s.last_prompt_id ≡ prompt
      → OwnKeeps rules setup input prompt P kept read reads o
      → Holds setup input prompt P s
      → Holds setup input prompt P (or_respond rules setup input read o s).1
  or_respond-Keeps (some m) s e k h = k s h
  or_respond-Keeps none s e k h =
      Keeps-after setup input prompt P (respond setup input read s)
        (when_ready rules setup input read s.last_prompt_id)
        (respond-Keeps setup input prompt P kept read reads s e h)
        (λ ready. when_ready_at s.last_prompt_id ready e)

  pub body-Keeps :
      (s : Screen)
      → s.last_prompt_id ≡ prompt
      → Holds setup input prompt P s
      → Holds setup input prompt P (body rules setup input read s).1
  unfolding body
  body-Keeps s e h =
      or_respond-Keeps (own_prompt rules setup input read s.last_prompt_id s) s e
        (own_prompt-Keeps rules setup input prompt P kept read reads s.last_prompt_id s) h

  pub or_down-Holds :
      (r : Result (Unit {0}) × Screen)
      → Holds setup input prompt P r.1
      → Holds setup input prompt P (or_down r)
  unfolding down
  or_down-Holds (ok done, s) h = h
  or_down-Holds (raised, s) h = h
