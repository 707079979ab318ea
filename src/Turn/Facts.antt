-- ===== src/Turn/Facts.antt =====
-- graph/facts.py: build_facts, the decide node's input to `transition`.
use suraksha_setu.Prelude.{
  ℕ, String, Bool, true, false, not, ◌&&◌, ◌||◌, Option, none, some, List, [], ◌∷◌, leb, ◌==◌,
  ◌str_eq◌, if◌then◌else◌,
}
use suraksha_setu.Prelude.Dict.{count_of}
use suraksha_setu.Fsm.States.{FsmState, pause, same_state}
use suraksha_setu.Fsm.Facts.{
  Facts, ConsentStatus, Eligibility, EligibilityOutcome, MandatoryTrigger, S0Intent, Suitability,
}
use suraksha_setu.Turn.State.{
  SessionState, Frame, ConsentRecord, EligibilityPayload, EligibilityResult, NeedsPayload,
  SuitabilityResult, TurnAnalysis, BlockReason, Settings, Intent,
}

abbrev intent_number : Intent → ℕ
intent_number Intent.slot_answer = 0
intent_number Intent.correction = 1
intent_number Intent.side_query = 2
intent_number Intent.meta_human = 3
intent_number Intent.meta_restart = 4
intent_number Intent.meta_withdraw = 5
intent_number Intent.meta_language = 6
intent_number Intent.off_topic = 7
intent_number Intent.safety = 8
intent_number Intent.adversarial = 9
intent_number Intent.new_purchase = 10
intent_number Intent.specific_plan = 11
intent_number Intent.existing_policy = 12
intent_number Intent.general_faq = 13
intent_number Intent.express_path = 14
intent_number Intent.need_time = 15
intent_number Intent.reject_all = 16
intent_number Intent.decline = 17
intent_number Intent.objection_price = 18
intent_number Intent.objection_trust = 19
intent_number Intent.objection_competitor = 20
intent_number Intent.objection_guarantee = 21
intent_number Intent.objection_other = 22
intent_number Intent.frustration = 23
intent_number Intent.financial_distress = 24
intent_number Intent.comprehension_difficulty = 25

-- `intent in intents`
abbrev pub has : Intent → List Intent → Bool
has i [] = false
has i (j ∷ js) = intent_number i == intent_number j || has i js

-- `reason in record.valid_reasons`
abbrev pub has_reason : String → List String → Bool
has_reason r [] = false
has_reason r (s ∷ ss) = r str_eq s || has_reason r ss

-- `S0_INTENTS`: the first of the four intents, in the order of the dict, that the turn has.
unfoldable pub s0_intent : List Intent → Option S0Intent
s0_intent intents =
    if has Intent.new_purchase intents
    then some S0Intent.new_purchase
    else if has Intent.specific_plan intents
    then some S0Intent.specific_plan
    else if has Intent.existing_policy intents
    then some S0Intent.existing_policy
    else if has Intent.general_faq intents
    then some S0Intent.general_faq
    else none

-- `bool(intents & OBJECTIONS)`
unfoldable pub objects : List Intent → Bool
objects intents =
    has Intent.objection_price intents
    || has Intent.objection_trust intents
    || has Intent.objection_competitor intents
    || has Intent.objection_guarantee intents
    || has Intent.objection_other intents

unfoldable pub consent_status : Option ConsentRecord → ConsentStatus
consent_status none = ConsentStatus.absent
consent_status (some record_) =
    if record_.valid_p1
    then ConsentStatus.valid
    else if has_reason "P1_NOT_GRANTED" record_.valid_reasons
    then ConsentStatus.refused
    else ConsentStatus.lapsed

abbrev pub intents_of : Option TurnAnalysis → List Intent
intents_of none = []
intents_of (some analysis) = analysis.intents

abbrev engine_of : Option EligibilityPayload → Option EligibilityResult
engine_of none = none
engine_of (some payload) = payload.engine

abbrev pub is_safety : Option BlockReason → Bool
is_safety (some BlockReason.safety) = true
is_safety _ = false

-- The 18+ box unticked with P1 granted.
abbrev undeclared_age : Option ConsentRecord → Bool
undeclared_age none = false
undeclared_age (some record_) =
    has_reason "AGE_NOT_DECLARED" record_.valid_reasons
    && not (has_reason "P1_NOT_GRANTED" record_.valid_reasons)

abbrev minor_outcome : Option EligibilityResult → Bool
minor_outcome none = false
minor_outcome (some engine) = elim engine.outcome [
  | EligibilityOutcome.data_erasure_exit ↦ true
  | _ ↦ false
]

abbrev eligibility_of : Option EligibilityResult → Option Eligibility
eligibility_of none = none
eligibility_of (some engine) = some (record {
  outcome = engine.outcome;
  escalation_reason = engine.escalation_reason;
  eligible_uins = engine.eligible_uins;
})

abbrev suitability_of : Option SuitabilityResult → Option Suitability
suitability_of none = none
suitability_of (some suit) = some (record {
  inputs_sha256 = suit.inputs_sha256;
  outcome = suit.outcome;
  escalation_reason = suit.escalation_reason;
  profile_sufficiency = suit.profile_sufficiency;
  affordability = suit.affordability;
})

abbrev hash_of : Option NeedsPayload → Option String
hash_of none = none
hash_of (some needs) = some needs.slots_sha256

abbrev top_state : List Frame → Option FsmState
top_state [] = none
top_state (frame ∷ rest) = some frame.state

-- `session.stack[-1].state` in PAUSE.
abbrev pub paused_from_of : FsmState → List Frame → Option FsmState
paused_from_of state stack = if same_state state pause then top_state stack else none

unfoldable pub mandatory_trigger_of :
    Option BlockReason → List Intent → ℕ → ℕ → Option MandatoryTrigger
mandatory_trigger_of block_reason intents injections limit =
    if is_safety block_reason || has Intent.safety intents
    then some MandatoryTrigger.self_harm
    else if leb limit injections
    then some MandatoryTrigger.injection_limit
    else none

-- A structured action's type, where a decision reads it.
pub data ActionType : Type 0 where
  erase human_request fact other : ActionType

abbrev pub is_erase : Option ActionType → Bool
is_erase (some erase) = true
is_erase _ = false

abbrev is_human_request : Option ActionType → Bool
is_human_request (some human_request) = true
is_human_request _ = false

unfoldable pub build_facts :
    SessionState → Option TurnAnalysis → Option BlockReason → Settings → Option ActionType → Facts
unfolding s0_intent objects consent_status mandatory_trigger_of count_of
build_facts session analysis block_reason settings action_type =
    let intents = intents_of analysis in
    let engine = engine_of session.eligibility in
    record {
      consent = consent_status session.consent;
      intent = s0_intent intents;
      minor = undeclared_age session.consent || minor_outcome engine;
      eligibility = eligibility_of engine;
      reask_exhausted = false;
      express_path = has Intent.express_path intents;
      quote_satisfied = false;
      advisory_opt_in = false;
      apply_request = false;
      suitability = suitability_of session.suitability;
      needs_slots_sha256 = hash_of session.needs;
      sufficiency_elected = false;
      amber_confirmed = false;
      selected = none;
      acks_valid_for_selected = false;
      no_options = false;
      all_rejected = has Intent.reject_all intents;
      rediscovery_loops = count_of "rediscovery_loops" session.counters;
      need_time = has Intent.need_time intents;
      explicit_decline = has Intent.decline intents;
      end_requested = false;
      correction = none;
      paused_from = paused_from_of session.fsm_state session.stack;
      withdraw = has Intent.meta_withdraw intents || is_erase action_type;
      human_request = has Intent.meta_human intents || is_human_request action_type;
      frustration = has Intent.frustration intents;
      low_confidence_streak = count_of "low_confidence_streak" session.counters;
      mandatory_trigger =
          mandatory_trigger_of block_reason intents (count_of "injection" session.counters)
            settings.injection_hit_limit;
      inactivity_timeout = false;
      dependency_down = false;
      faq = has Intent.general_faq intents;
      objection = objects intents;
    }
