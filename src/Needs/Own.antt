-- ===== src/Needs/Own.antt =====
-- graph/states/s2.py: S2's own prompts: the short path, the period of an amount, the election and the
-- confirmation of amber. Each is for the answer to it, and the last two only for a bound record.
use suraksha_setu.Prelude.{
  ℕ, String, Bool, true, false, ◌||◌, Option, none, some, List, [], ◌∷◌, ◌++◌, ◌*◌, if◌then◌else◌,
  length,
}
use suraksha_setu.Prelude.Dict.{lookup, insert}
use suraksha_setu.Fsm.Facts.{is_some}
use suraksha_setu.Turn.State.{SuitabilityResult}
use suraksha_setu.Turn.Decide.{
  Signal, set_correction, amber_confirmed, sufficiency_elected, dependency_down,
}
use suraksha_setu.Screening.State.{
  number, proposed, corrected, RequiredAttribute, Prefix, PromptId, period_prompt, short_prompt,
  elect_prompt, amber_prompt, advisor_prompt, Period, month, year, human_reply, continue_reply,
  elect_answer, period_answer, HeldNeeds, sufficiency_election, TurnInput, Setup, Screen, Result,
  ok, raised, M, ◌>>=◌, ret, modify,
}
use suraksha_setu.Screening.Take.{write}
use suraksha_setu.Screening.Prompt.{reply}
use suraksha_setu.Screening.Respond.{add_signal, said}
use suraksha_setu.Needs.Setup.{NeedsRules, is_short}
use suraksha_setu.Needs.Prompt.{
  unanswered, ask, ask_needs, ask_period, next, is_partial, bridge, route,
}

-- A new screen on the session and the turn, with the slots that are known.
unfoldable pub opened : List String → Screen → Screen
opened lead s = record s {
  lead = lead;
  replies = [];
  filled = [];
  offered = [];
  confirm = none;
  options = none;
  noted = false;
  period = none;
  offer_short = false;
  rephrased = false;
  distressed_now = false;
}

abbrev months_per_year : ℕ
months_per_year = 12

abbrev pub is_correction : Signal → Bool
is_correction (set_correction c) = true
is_correction _ = false

-- `turn.signals.get("correction")`
abbrev pub has_correction : List Signal → Bool
has_correction [] = false
has_correction (s ∷ ss) = is_correction s || has_correction ss

-- The needs record is bound to a hash.
abbrev pub is_bound : Option HeldNeeds → Bool
is_bound none = false
is_bound (some held) = is_some held.slots_sha256

-- The result that the open prompt is about: none once the record has changed.
abbrev pub bound_result : Screen → Option SuitabilityResult
bound_result s = if is_bound s.needs then s.suitability else none

-- `_choice` of an ELECT.
abbrev pub elected : TurnInput → Option Bool
elected input = elim input.action [ elect_answer b ↦ b | _ ↦ said input ]

abbrev pub named_period : TurnInput → Option Period
named_period input = elim input.action [
  | period_answer p ↦ p
  | _ ↦ elim input.pipeline [ none ↦ none | some m ↦ m.period_said ]
]

abbrev pub yearly : ℕ → Period → ℕ
yearly amount month = amount * months_per_year
yearly amount year = amount

-- `_down`: pause, and save what was said.
unfoldable pub down : Screen → Screen
down s = record (add_signal dependency_down s) { parts = []; quick_replies = []; phrase = none }

abbrev pub or_down : {A : Type 0} → Result A × Screen → Screen
or_down (ok a, s) = s
or_down (raised, s) = down s

module _ (rules : NeedsRules) (setup : Setup) (input : TurnInput) (read : M (Unit {0})) where
  -- The next prompt, or the summary.
  abbrev pub go_on : M (Unit {0})
  go_on = next setup read >>= λ ready. if ready then read else ret tt

  abbrev pub take_short : Option Bool → Option (M (Unit {0}))
  take_short none = none
  take_short (some true) =
      some (λ s. go_on (record s { counters = insert "short_path" 1 s.counters }))
  take_short (some false) = some go_on

  -- The amount as said, annualised, then read back.
  abbrev pub said_yearly : String → ℕ → Screen → Screen
  said_yearly slot amount s =
      let status = if is_some (lookup slot s.known) then corrected else proposed in
      let written = write setup slot (number amount) status setup.full_confidence s in
      record written { filled = slot ∷ written.filled; confirm = some slot }

  -- `_period`
  unfoldable pub take_period : String → ℕ → Option Period → M (Unit {0})
  unfolding write next ask_period
  take_period slot amount none s = (ok tt, ask_period setup slot amount s)
  take_period slot amount (some p) s =
      (next setup read >>= λ ready. ret tt) (said_yearly slot (yearly amount p) s)

  abbrev pub recorded_election : SuitabilityResult → Bool → Screen → Screen
  recorded_election result agreed s = record s {
    needs_events =
        s.needs_events
        ++ sufficiency_election result.profile_sufficiency rules.profile_sufficiency_min
            (length (unanswered setup.attrs s.known)) agreed
          ∷ [];
  }

  abbrev pub off_short : Screen → Screen
  off_short s = if is_short s then record s { counters = insert "short_path" 0 s.counters } else s

  abbrev pub ask_first : List RequiredAttribute → Screen → Screen
  ask_first [] s = s
  ask_first (a ∷ as') s = ask setup a s

  -- `_elect`: go on with a partial profile, or answer the questions that are left.
  unfoldable pub elect : SuitabilityResult → Bool → Screen → Screen
  unfolding route unanswered ask_needs
  elect result true s =
      route rules setup true result
        (add_signal sufficiency_elected (recorded_election result true s))
  elect result false s =
      ask_first (unanswered setup.attrs s.known) (off_short (recorded_election result false s))

  abbrev pub take_elect : SuitabilityResult → Option Bool → Option (M (Unit {0}))
  take_elect result none = none
  take_elect result (some agreed) = some (modify (elect result agreed))

  abbrev elected_if : Bool → Screen → Screen
  elected_if partial s = if partial then add_signal sufficiency_elected s else s

  -- A yes to amber; the amber prompt follows the election.
  unfoldable pub confirm_amber : SuitabilityResult → Screen → Screen
  unfolding bridge
  confirm_amber result s =
      let partial = is_partial rules setup result in
      bridge rules setup partial (elected_if partial (add_signal amber_confirmed s))

  unfoldable pub refuse_amber : Screen → Screen
  unfolding reply
  refuse_amber s =
      reply ("advisor_offer" ∷ []) (human_reply ∷ continue_reply ∷ [])
        (record s { last_prompt_id = some (advisor_prompt Prefix.s2) })

  abbrev pub take_amber : SuitabilityResult → Option Bool → Option (M (Unit {0}))
  take_amber result none = none
  take_amber result (some true) = some (modify (confirm_amber result))
  take_amber result (some false) = some (modify refuse_amber)

  abbrev pub for_bound :
      Option SuitabilityResult → (SuitabilityResult → Option (M (Unit {0}))) → Option (M (Unit {0}))
  for_bound none f = none
  for_bound (some result) f = f result

  -- `_prompts`: what the turn does as the answer to one of S2's own prompts; none where it is no
  -- answer to one, and nothing is done.
  unfoldable pub own_prompt : Option PromptId → Screen → Option (M (Unit {0}))
  unfolding next take_period elect confirm_amber refuse_amber
  own_prompt (some short_prompt) s = take_short (said input)
  own_prompt (some (period_prompt slot amount)) s =
      some (take_period slot amount (named_period input))
  own_prompt (some elect_prompt) s =
      for_bound (bound_result s) (λ result. take_elect result (elected input))
  own_prompt (some amber_prompt) s =
      for_bound (bound_result s) (λ result. take_amber result (said input))
  own_prompt _ s = none
