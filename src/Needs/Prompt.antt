-- ===== src/Needs/Prompt.antt =====
-- graph/states/s2.py: the prompts of S2, the decision of the Suitability Service that the summary
-- shows, and the needs record that a yes to the summary binds.
use suraksha_setu.Prelude.{
  ℕ, String, Bool, true, false, not, ◌&&◌, ◌||◌, Option, none, some, List, [], ◌∷◌, ◌++◌, ltb,
  ◌str_eq◌, if◌then◌else◌,
}
use suraksha_setu.Prelude.Dict.{lookup, insert}
use suraksha_setu.Prelude.Texts.{in_texts}
use suraksha_setu.Fsm.Facts.{SuitabilityOutcome, Affordability, Correction, is_some}
use suraksha_setu.Turn.State.{EligibilityResult, SuitabilityResult}
use suraksha_setu.Turn.Decide.{set_correction}
use suraksha_setu.Screening.State.{
  RequiredAttribute, Prefix, readback_prompt, period_prompt, short_prompt, elect_prompt,
  amber_prompt, done_prompt, PromptId, month, year, QuickReply, human_reply, confirm_reply,
  period_reply, elect_reply, Value, SlotStatus, engine_decision, Setup, Screen, ok, raised, M,
  ◌>>=◌, ret,
}
use suraksha_setu.Screening.Take.{Known, asked, is_all_confirmed}
use suraksha_setu.Screening.Prompt.{
  reply, ask_with, confirm_one, yes_no_replies, next_question, choice_offered,
}
use suraksha_setu.Screening.Evaluate.{engine_result, recompute}
use suraksha_setu.Screening.Respond.{add_signal}
use suraksha_setu.Needs.Setup.{needs_names, NeedsRules, on_path_setup, is_distress, payload, drop}

abbrev is_missing : Option (SlotStatus × Value) → Bool
is_missing none = true
is_missing (some (status, Value.nothing)) = true
is_missing (some (status, _)) = false

-- `unanswered`: never asked, or declined.
unfoldable pub unanswered : List RequiredAttribute → Known → List RequiredAttribute
unanswered [] known = []
unanswered (a ∷ as') known =
    let rest = unanswered as' known in
    if is_missing (lookup a.attribute known) then a ∷ rest else rest

abbrev is_asked : String → List RequiredAttribute → Bool
is_asked slot [] = false
is_asked slot (a ∷ as') = a.attribute str_eq slot || is_asked slot as'

-- Whether a slot that was not asked has a text of what is assumed for it.
abbrev assumes : List String → List String → List RequiredAttribute → Bool
assumes texts [] as' = false
assumes texts (slot ∷ slots) as' =
    not (is_asked slot as') && in_texts slot texts || assumes texts slots as'

abbrev part_if : Bool → String → List String
part_if true part = part ∷ []
part_if false part = []

abbrev pub or_rephrase : Bool → Option String → Option String
or_rephrase true none = some "rephrase"
or_rephrase _ instead = instead

abbrev pub is_amber : Affordability → Bool
is_amber Affordability.amber = true
is_amber _ = false

-- A prompt of S2, with its quick replies.
abbrev pub prompted : PromptId → List String → List QuickReply → Screen → Screen
prompted prompt parts quick s =
    reply parts quick (record s { pending_slot = none; last_prompt_id = some prompt })

module _ (setup : Setup) where
  -- Put more simply after a difficulty, and with no generated sentence once distress is stated.
  unfoldable pub ask_needs : RequiredAttribute → List QuickReply → Option String → Screen → Screen
  unfolding ask_with
  ask_needs a quick instead s =
      let said = ask_with setup a quick (or_rephrase s.rephrased instead) s in
      if is_distress s.known then record said { phrase = none } else said

  abbrev pub ask : RequiredAttribute → Screen → Screen
  ask a = ask_needs a (setup.choices a.attribute) none

  unfoldable pub ask_period : String → ℕ → Screen → Screen
  unfolding reply
  ask_period slot amount s =
      reply ("period_ask" ∷ []) (period_reply month ∷ period_reply year ∷ [])
        (record s { pending_slot = some slot; last_prompt_id = some (period_prompt slot amount) })

  unfoldable pub offer : Screen → Screen
  unfolding reply
  offer s =
      prompted short_prompt ("short_path_offer" ∷ []) yes_no_replies
        (record s { counters = insert "short_offered" 1 s.counters })

module _ (rules : NeedsRules) (setup : Setup) where
  abbrev pub is_partial : SuitabilityResult → Bool
  is_partial result = ltb result.profile_sufficiency rules.profile_sufficiency_min

  abbrev pub summary_parts : SuitabilityResult → Screen → List String
  summary_parts result s =
      "needs_summary"
      ∷ (part_if (assumes rules.assumed needs_names (asked (on_path_setup setup s) s))
            "summary_assumed"
          ++ part_if (in_texts "IMPLAUSIBLE_INPUT" result.reason_codes) "summary_implausible"
          ++ "summary_question" ∷ [])

  unfoldable pub summary : SuitabilityResult → Screen → Screen
  unfolding reply
  summary result s = prompted (readback_prompt Prefix.s2) (summary_parts result s) yes_no_replies s

  -- The result is held with the needs that were sent, unbound, if it echoes their hash.
  unfoldable pub hold : SuitabilityResult → M (Unit {0})
  unfolding summary payload
  hold result s =
      let body = payload s.known s.comprehension in
      let digest = rules.needs_sha256 body in
      let decided = record s {
        needs_events = s.needs_events ++ engine_decision body digest result ∷ [];
      } in
      if result.inputs_sha256 str_eq digest
      then (
        ok tt,
        summary result (record decided {
          needs = some (record { body = body; slots_sha256 = none });
          suitability = some result;
        }),
      )
      else (raised, drop decided)

  unfoldable pub decide_needs : M (Unit {0})
  unfolding hold payload
  decide_needs s =
      let body = payload s.known s.comprehension in
      elim (rules.evaluate_suitability s.eligibility s.known body (rules.needs_sha256 body)) [
        | none ↦ (raised, s)
        | some result ↦ hold result s
      ]

  abbrev pub decide_if : Bool → M (Unit {0})
  decide_if true s = decide_needs s
  decide_if false s = (ok tt, add_signal (set_correction Correction.eligibility_slot) s)

  -- The engine's result is computed again if the session has lost it; where it is not ELIGIBLE any
  -- more, S1's rows run again.
  unfoldable pub readback :
      Setup → (List (String × Value) → Option EligibilityResult) → M (Unit {0})
  unfolding decide_needs recompute
  readback screening engine s =
      if is_some (engine_result s.eligibility)
      then decide_needs s
      else (recompute screening engine >>= decide_if) s

  -- The bridge to S3.
  unfoldable pub bridge : Bool → Screen → Screen
  unfolding reply
  bridge partial = prompted done_prompt ("needs_done" ∷ part_if partial "partial_profile") []

  abbrev pub fit_reply : Bool → Bool → Affordability → Screen → Screen
  fit_reply partial elected affordability s =
      if partial && not elected
      then prompted elect_prompt ("partial_offer" ∷ []) (elect_reply true ∷ elect_reply false ∷ [])
          s
      else if is_amber affordability
      then prompted amber_prompt ("amber_confirm" ∷ []) (confirm_reply true ∷ human_reply ∷ []) s
      else bridge partial s

  abbrev pub outcome_reply : SuitabilityOutcome → Bool → SuitabilityResult → Screen → Screen
  outcome_reply SuitabilityOutcome.escalate elected result s = reply [] [] s
  outcome_reply SuitabilityOutcome.no_gap elected result s = reply ("no_gap" ∷ []) [] s
  outcome_reply SuitabilityOutcome.fit elected result s =
      fit_reply (is_partial result) elected result.affordability s

  -- `_route`: the reply for a bound record.
  unfoldable pub route : Bool → SuitabilityResult → Screen → Screen
  unfolding bridge reply
  route elected result s = record (outcome_reply result.outcome elected result s) { phrase = none }

  -- `_bind`: the needs are taken from the slots again, and bound only if the result is for them.
  unfoldable pub bind : SuitabilityResult → M (Unit {0})
  unfolding route payload
  bind result s =
      let body = payload s.known s.comprehension in
      let digest = rules.needs_sha256 body in
      if digest str_eq result.inputs_sha256
      then (
        ok tt,
        route false result
            (record s { needs = some (record { body = body; slots_sha256 = some digest }) }),
      )
      else (raised, drop s)

module _ (setup : Setup) where
  abbrev pub next_attr : Option RequiredAttribute → (M (Unit {0})) → M Bool
  next_attr (some a) readback s = (ok false, ask setup a s)
  next_attr none readback s =
      if is_all_confirmed (on_path_setup setup s) s
      then (ok true, s)
      else (readback >>= λ done. ret false) s

  abbrev pub next_confirm : Option String → (M (Unit {0})) → M Bool
  next_confirm (some slot) readback s = (confirm_one setup slot >>= λ done. ret false) s
  next_confirm none readback s = next_attr (next_question (on_path_setup setup s) s) readback s

  abbrev pub next_choice : Option (RequiredAttribute × List QuickReply) → (M (Unit {0})) → M Bool
  next_choice (some (a, quick)) readback s = (ok false, ask_needs setup a quick none s)
  next_choice none readback s = next_confirm s.confirm readback s

  abbrev pub next_period : Option (String × ℕ) → (M (Unit {0})) → M Bool
  next_period (some (slot, amount)) readback s = (ok false, ask_period setup slot amount s)
  next_period none readback s =
      if s.offer_short
      then (ok false, offer setup s)
      else next_choice (choice_offered (on_path_setup setup s) s.options s) readback s

  -- The period of an amount, the offer of the short path, or S1's next prompt; with S2's read-back.
  unfoldable pub next : (M (Unit {0})) → M Bool
  unfolding ask_needs ask_period offer confirm_one
  next readback s = next_period s.period readback s
