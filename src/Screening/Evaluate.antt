-- ===== src/Screening/Evaluate.antt =====
-- graph/states/s1.py: the S1 node, the engine's decision, and the V4 correction. The engine is the
-- Eligibility Service: a parameter, from the asked slots and their values to its result, or none when
-- the domain tier is down. The event that records a decision is kept as the result that it records.
-- A DomainError is the tier being down or a 5xx: a 4xx, which `outage` raises again, is left out.
use suraksha_setu.Prelude.{
  String, Bool, true, false, not, ◌&&◌, ◌||◌, Option, none, some, List, [], ◌∷◌, ◌++◌, ltb, leb,
  if◌then◌else◌,
}
use suraksha_setu.Prelude.Dict.{lookup, insert, count_of}
use suraksha_setu.Prelude.Texts.{in_texts}
use suraksha_setu.Fsm.Facts.{EligibilityOutcome, Correction}
use suraksha_setu.Turn.State.{EligibilityPayload, EligibilityResult}
use suraksha_setu.Turn.Decide.{express_path, reask_exhausted, set_eligibility, set_correction}
use suraksha_setu.Screening.State.{
  Value, number, RequiredAttribute, SlotCandidate, SlotStatus, proposed, corrected, declined,
  confirmed, TurnInput, Setup, Screen, Result, ok, raised, M, after, ◌>>=◌, ret, same_value,
  QuickReply,
}
use suraksha_setu.Screening.Take.{Known, all_confirmed, asked, attr, take}
use suraksha_setu.Screening.Prompt.{ask, value_of, next, readback}
use suraksha_setu.Screening.Respond.{respond, add_signal, has_minor}

abbrev pub values_of : List RequiredAttribute → Known → List (String × Value)
values_of [] known = []
values_of (a ∷ as') known = (a.attribute, value_of (lookup a.attribute known)) ∷ values_of as' known

-- `_payload`: an age outside 18 to 75 has none.
unfoldable pub payload : Value → EligibilityResult → Option EligibilityPayload
payload (number n) result =
    if leb 18 n && leb n 75 then some (record { engine = some result }) else none
payload _ result = none

abbrev pub engine_result : Option EligibilityPayload → Option EligibilityResult
engine_result none = none
engine_result (some p) = p.engine

abbrev pub is_re_ask : EligibilityOutcome → Bool
is_re_ask EligibilityOutcome.re_ask = true
is_re_ask _ = false

abbrev pub is_eligible : EligibilityOutcome → Bool
is_eligible EligibilityOutcome.eligible = true
is_eligible _ = false

abbrev same_status : SlotStatus → SlotStatus → Bool
same_status proposed proposed = true
same_status corrected corrected = true
same_status declined declined = true
same_status confirmed confirmed = true
same_status _ _ = false

abbrev holds_entry : Option (SlotStatus × Value) → SlotStatus → Value → Bool
holds_entry none status value = false
holds_entry (some (s, v)) status value = same_status s status && same_value v value

abbrev within : Known → Known → Bool
within [] known = true
within ((slot, (status, value)) ∷ rest) known =
    holds_entry (lookup slot known) status value && within rest known

-- Python's equality of two dictionaries.
abbrev pub same_known : Known → Known → Bool
same_known a b = within a b && within b a

-- What `Screen.load` meets: the rules' attributes, which are then those of the setup; a domain tier that
-- is down; or an attribute that S1 cannot read, for which it raises a RuntimeError.
pub data Load : Type 0 where
  loaded rules_down unreadable_rules : Load

module _ (setup : Setup) (engine : List (String × Value) → Option EligibilityResult) where
  -- `_record`: the session's payload.
  abbrev pub recorded : EligibilityResult → Screen → Screen
  recorded result s = record s {
    eligibility = payload (value_of (lookup "age_years" s.known)) result;
  }

  abbrev with_eligibility : EligibilityResult → Screen → Screen
  with_eligibility result s =
      let told =
        add_signal
          (set_eligibility (record {
            outcome = result.outcome;
            escalation_reason = result.escalation_reason;
            eligible_uins = result.eligible_uins;
          }))
          s in
      if ltb 0 (count_of "express_path" s.counters) then add_signal express_path told else told

  abbrev ask_again : Option RequiredAttribute → Screen → Screen
  ask_again none s = s
  ask_again (some a) s = ask setup a (record s {
    counters = insert "occupation_reask" 1 s.counters;
    lead = s.lead ++ "reask" ∷ [];
  })

  -- What follows on each outcome.
  unfoldable pub outcome_reply : EligibilityOutcome → Screen → Screen
  unfolding count_of
  outcome_reply EligibilityOutcome.re_ask s =
      if leb 1 (count_of "occupation_reask" s.counters)
      then add_signal reask_exhausted s
      else ask_again (attr setup "occupation_code" s) s
  outcome_reply EligibilityOutcome.not_eligible s = record s {
    parts = "not_eligible" ∷ [];
    quick_replies = [];
  }
  outcome_reply EligibilityOutcome.eligible s = record s {
    parts = "screening_done" ∷ [];
    quick_replies = [];
  }
  outcome_reply _ s = s

  unfoldable pub evaluated : EligibilityResult → Screen → Screen
  unfolding outcome_reply count_of payload
  evaluated result s = outcome_reply result.outcome (with_eligibility result (recorded result s))

  -- `_evaluate`
  unfoldable pub evaluate : M (Unit {0})
  unfolding evaluated
  evaluate s = elim (engine (values_of (asked setup s) s.known)) [
    | none ↦ (raised, s)
    | some result ↦ (ok tt, evaluated result s)
  ]

  abbrev re_asked_occupation : Option RequiredAttribute → Screen → Screen
  re_asked_occupation none s = s
  re_asked_occupation (some a) s = ask setup a (record s { lead = s.lead ++ "reask" ∷ [] })

  abbrev decide_again : EligibilityResult → M (Unit {0})
  decide_again result s =
      if is_re_ask result.outcome
      then (if in_texts "occupation_code" s.filled
          then evaluate s
          else (ok tt, re_asked_occupation (attr setup "occupation_code" s) s))
      else (ok tt, s)

  -- `_decide`: the engine decides, unless it already has for these values.
  unfoldable pub decide_screen : M (Unit {0})
  unfolding evaluate
  decide_screen s = elim (engine_result s.eligibility) [
    | none ↦ evaluate s
    | some result ↦ decide_again result s
  ]

  -- `outage`: the domain tier down in S1, the template and a retry.
  abbrev pub or_outage : Result (Unit {0}) × Screen → Screen
  or_outage (ok done, s) = s
  or_outage (raised, s) = record s {
    parts = "screening_retry" ∷ [];
    quick_replies = QuickReply.retry_reply ∷ [];
    phrase = none;
  }

  -- With the screen that was loaded; an attribute that S1 cannot read ends the node in an error.
  abbrev pub with_load : Load → (Screen → Result (Unit {0}) × Screen) → Screen → Option Screen
  with_load loaded step s = some (or_outage (step s))
  with_load rules_down step s = some (or_outage (raised, s))
  with_load unreadable_rules step s = none

  -- The S1 node: without a valid consent, on a request for a human and on an overlong message it
  -- leaves the turn alone.
  unfoldable pub node : Load → TurnInput → Bool → Bool → Bool → Screen → Option Screen
  unfolding respond decide_screen
  node load input is_valid asks_human overlong s =
      if not is_valid || asks_human
      then some s
      else if overlong
      then some s
      else with_load load (respond setup input >>= λ ready. if ready then decide_screen else ret tt)
          s

  -- `enter`: the next question or the read-back, and never an evaluation.
  unfoldable pub enter : Load → Screen → Option Screen
  unfolding next readback
  enter load s = with_load load (next setup >>= λ ready. if ready then readback setup else ret tt) s

  -- The candidates of `correction`: those for an eligibility slot, by our names.
  abbrev pub corrections : List SlotCandidate → List SlotCandidate
  corrections [] = []
  corrections (c ∷ cs) =
      let rest = corrections cs in
      if in_texts (setup.alias c.slot) setup.eligibility_slots
      then record c { slot = setup.alias c.slot } ∷ rest
      else rest

  unfoldable pub take_each : List SlotCandidate → M (Unit {0})
  unfolding take
  take_each [] = ret tt
  take_each (c ∷ cs) =
      take setup c.slot c.value c.evidence_span c.confidence >>= λ taken. take_each cs

  -- A changed fact, and no minor: the turn's signal for G2.
  unfoldable pub signal_correction : Known → Screen → Screen
  signal_correction before s =
      if not (has_minor s.signals) && not (same_known s.known before)
      then add_signal (set_correction Correction.eligibility_slot) s
      else s

  -- With the candidates that are for an eligibility slot.
  unfoldable pub correct_by : List SlotCandidate → Bool → M (Unit {0})
  unfolding take_each signal_correction
  correct_by [] is_valid s = (ok tt, s)
  correct_by (c ∷ cs) false s = (ok tt, s)
  correct_by (c ∷ cs) true s =
      after (take_each (c ∷ cs) s) (λ done t. (ok tt, signal_correction s.known t))

  -- `correction`: an error of the domain services is the caller's.
  unfoldable pub correction : TurnInput → Bool → M (Unit {0})
  unfolding correct_by
  correction input is_valid s = correct_by (corrections input.slots_pending) is_valid s

  -- `recompute`: the engine's result again, for slots that are all confirmed; true when it is ELIGIBLE.
  unfoldable pub recompute : M Bool
  unfolding payload
  recompute s =
      if all_confirmed (asked setup s) s.known
      then elim (engine (values_of (asked setup s) s.known)) [
        | none ↦ (raised, s)
        | some result ↦ (ok (is_eligible result.outcome), recorded result s)
      ]
      else (ok false, s)
