-- ===== src/Needs/Node.antt =====
-- graph/states/s2.py: the S2 node, its entry, and the correction of a needs fact that S3 calls. Of the
-- errors of the services, a 4xx, which ends the turn, is not modelled.
use suraksha_setu.Prelude.{
  String, Bool, true, false, not, ◌&&◌, ◌||◌, Option, none, some, List, [], ◌∷◌, ◌++◌,
  if◌then◌else◌,
}
use suraksha_setu.Prelude.Texts.{in_texts}
use suraksha_setu.Fsm.Facts.{Correction}
use suraksha_setu.Turn.State.{EligibilityResult, SuitabilityResult}
use suraksha_setu.Turn.Decide.{set_correction}
use suraksha_setu.Screening.State.{
  Value, SlotCandidate, RequiredAttribute, PromptId, retry_reply, HeldNeeds, TurnInput, Setup,
  Screen, Result, ok, raised, M, ◌>>=◌, ret,
}
use suraksha_setu.Screening.Take.{Known}
use suraksha_setu.Screening.Prompt.{is_nil}
use suraksha_setu.Screening.Respond.{add_signal, is_readback, said}
use suraksha_setu.Screening.Evaluate.{same_known, correction}
use suraksha_setu.Needs.Setup.{needs_names, NeedsRules, setup_of, is_readable, alias_of}
use suraksha_setu.Needs.Take.{take_needs}
use suraksha_setu.Needs.Prompt.{next, readback, bind}
use suraksha_setu.Needs.Respond.{respond}
use suraksha_setu.Needs.Own.{opened, has_correction, or_down, own_prompt, down}

-- How the node leaves the turn: with its reply, or failed as a whole.
pub data Outcome : Type 0 where
  settled failed : Screen → Outcome

abbrev pub screen_of : Outcome → Screen
screen_of (settled s) = s
screen_of (failed s) = s

module _ (rules : NeedsRules) (setup : Setup) (input : TurnInput) (read : M (Unit {0})) where
  abbrev pub is_yes : Option Bool → Bool
  is_yes (some b) = b
  is_yes none = false

  -- A yes to the summary, with no answer beside it.
  abbrev pub is_confirmed_summary : Option PromptId → Screen → Bool
  is_confirmed_summary prompt s =
      is_readback setup input prompt && is_nil s.filled && is_yes (said input)

  abbrev pub bind_held : Option HeldNeeds → Option SuitabilityResult → M (Unit {0})
  bind_held (some held) (some result) s = bind rules setup result s
  bind_held _ _ s = read s

  abbrev pub when_ready : Option PromptId → Bool → M (Unit {0})
  when_ready prompt false s = (ok tt, s)
  when_ready prompt true s =
      if is_confirmed_summary prompt s then bind_held s.needs s.suitability s else read s

  abbrev pub or_respond : Option (M (Unit {0})) → M (Unit {0})
  or_respond (some m) s = m s
  or_respond none s = (respond setup input read >>= when_ready s.last_prompt_id) s

  -- The node on an opened screen.
  unfoldable pub body : M (Unit {0})
  unfolding own_prompt respond bind
  body s = or_respond (own_prompt rules setup input read s.last_prompt_id s) s

module _ (rules : NeedsRules) (screening : Setup)
    (engine : List (String × Value) → Option EligibilityResult) where
  abbrev pub read_with : Setup → M (Unit {0})
  read_with setup = readback rules setup screening engine

  abbrev pub on_open : TurnInput → Option (List RequiredAttribute) → Screen → Outcome
  on_open input none s = settled (down s)
  on_open input (some required) s =
      if is_readable required
      then settled (
          or_down (
            body rules (setup_of rules required) input (read_with (setup_of rules required))
              (opened [] s)))
      else failed s

  -- After the correction of an eligibility fact, which re-runs S1's rows.
  unfoldable pub node_rest : TurnInput → Bool → Bool → Bool → Screen → Outcome
  unfolding body opened down readback
  node_rest input is_valid asks_human overlong s =
      if has_correction s.signals || not is_valid || asks_human || overlong
      then settled s
      else on_open input rules.required s

  abbrev pub unless_raised : Result (Unit {0}) × Screen → (Screen → Outcome) → Outcome
  unless_raised (ok done, s) f = f s
  unless_raised (raised, s) f = failed s

  unfoldable pub node : TurnInput → Bool → Bool → Bool → Screen → Outcome
  unfolding node_rest correction
  node input is_valid asks_human overlong s =
      unless_raised (correction screening engine input is_valid s)
        (node_rest input is_valid asks_human overlong)

  -- An outage on entry offers a retry, after the bridge of the state that was left.
  abbrev pub or_retry : List String → Result (Unit {0}) × Screen → Screen
  or_retry lead (ok done, s) = s
  or_retry lead (raised, s) = record s {
    parts = lead ++ "needs_retry" ∷ [];
    quick_replies = retry_reply ∷ [];
    phrase = none;
  }

  abbrev pub enter_with : Option (List RequiredAttribute) → Screen → Outcome
  enter_with none s = settled (or_retry s.parts (raised, s))
  enter_with (some required) s =
      let setup = setup_of rules required in
      if is_readable required
      then settled (
          or_retry s.parts (
            (next setup (read_with setup) >>= λ ready. if ready then read_with setup else ret tt)
              (opened s.parts s)))
      else failed s

  unfoldable pub enter : Screen → Outcome
  unfolding next opened readback
  enter = enter_with rules.required

abbrev pub needs_candidates : List SlotCandidate → List SlotCandidate
needs_candidates [] = []
needs_candidates (c ∷ cs) =
    let rest = needs_candidates cs in
    if in_texts (alias_of c.slot) needs_names
    then record c { slot = alias_of c.slot } ∷ rest
    else rest

unfoldable pub take_each : Setup → List SlotCandidate → M (Unit {0})
unfolding take_needs
take_each setup [] = ret tt
take_each setup (c ∷ cs) =
    take_needs setup c.slot c.value c.evidence_span c.confidence >>= λ taken. take_each setup cs

-- A changed fact is the turn's signal for G3.
unfoldable pub signal_needs : Known → Screen → Screen
signal_needs before s =
    if same_known s.known before then s else add_signal (set_correction Correction.needs_slot) s

abbrev pub signalled : Known → Result (Unit {0}) × Screen → Outcome
signalled before (ok done, s) = settled (signal_needs before s)
signalled before (raised, s) = failed s

module _ (rules : NeedsRules) where
  abbrev pub correct_with : List SlotCandidate → Option (List RequiredAttribute) → Screen → Outcome
  correct_with cs none s = failed s
  correct_with cs (some required) s =
      if is_readable required
      then signalled s.known (take_each (setup_of rules required) cs (opened [] s))
      else failed s

  -- `correction`, V4 in S3: a changed needs fact. An error of the domain tier fails the turn.
  unfoldable pub correct_needs : TurnInput → Bool → Screen → Outcome
  unfolding take_each signal_needs opened
  correct_needs input is_valid s =
      let said = needs_candidates input.slots_pending in
      if not is_valid || is_nil said || has_correction s.signals
      then settled s
      else correct_with said rules.required s
