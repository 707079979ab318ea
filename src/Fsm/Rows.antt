-- ===== src/Fsm/Rows.antt =====
-- fsm/rows.py: the transition rows of each state, and the order in which they are tried. A row's
-- `trigger`, `matrix_priority` and `fallback` are texts for the diagram, and are left out.
use suraksha_setu.Prelude.{
  ℕ, String, Bool, true, false, not, ◌&&◌, ◌||◌, Option, none, some, List, [], ◌∷◌, ◌++◌, ltb, leb,
  ◌str_eq◌, if◌then◌else◌,
}
use suraksha_setu.Fsm.States.{
  FsmState, s0, s1, quote_only, s2, s3, human_escalation, pause, exit, exit_advisory, data_erasure,
  handoff, in_states,
}
use suraksha_setu.Fsm.Facts.{
  Facts, Eligibility, Suitability, EligibilityOutcome, SuitabilityOutcome, Affordability, S0Intent,
  Correction, Selected, Score, trigger_value, is_some, is_refused, eligibility_outcome, is_eligible,
  valid_p1, consent_given_ever, eligible_now, suitability_current, current_suitability,
  over_insured,
}

pub record Thresholds : Type 0 where
  pub profile_sufficiency_min : Score
  pub rediscovery_loop_limit : ℕ
  pub low_confidence_streak_limit : ℕ

abbrev pub Condition : Type 0
Condition = Facts → Thresholds → Bool

pub data Target : Type 0 where
  goto : FsmState → Target
  stay : Target
  resume : Target

pub data Subgraph : Type 0 where
  side_query objection : Subgraph

-- `reason_code: str | Callable[[Facts], str]`
pub data ReasonCode : Type 0 where
  code : String → ReasonCode
  computed : (Facts → String) → ReasonCode

pub record Row : Type 0 where
  pub id : String
  pub states : List FsmState
  pub order : ℕ
  pub to : Target
  pub condition : Condition
  pub reason_code : ReasonCode
  pub subgraph : Option Subgraph

abbrev reason_of : ReasonCode → Facts → String
reason_of (code c) f = c
reason_of (computed g) f = g f

abbrev pub reason : Row → Facts → String
reason r f = reason_of r.reason_code f

-- `Row(...)` with its fields in the source's order.
abbrev row : String → List FsmState → ℕ → Target → Condition → ReasonCode → Row
row id states order to condition reason_code = record {
  id = id;
  states = states;
  order = order;
  to = to;
  condition = condition;
  reason_code = reason_code;
  subgraph = none;
}

abbrev or_else : Option String → String → String
or_else none d = d
or_else (some c) d = if c str_eq "" then d else c

-- CC2's reason: a mandatory trigger names itself first.
escalation_reason : Facts → String
escalation_reason f = elim f.mandatory_trigger [
  | some trigger ↦ trigger_value trigger
  | none ↦
      if f.human_request
      then "HE_REQUEST"
      else if f.frustration
      then "HE_FRUSTRATION"
      else "HE_LOW_CONFIDENCE"
]

pause_reason : Facts → String
pause_reason f = if f.inactivity_timeout then "INACTIVITY" else "DEPENDENCY_DOWN"

abbrev eligibility_escalation : Option Eligibility → Option String
eligibility_escalation none = none
eligibility_escalation (some e) = e.escalation_reason

abbrev suitability_escalation : Option Suitability → Option String
suitability_escalation none = none
suitability_escalation (some s) = s.escalation_reason

eligibility_reason : Facts → String
eligibility_reason f = or_else (eligibility_escalation f.eligibility) "HE_ELIGIBILITY"

suitability_reason : Facts → String
suitability_reason f = or_else (suitability_escalation f.suitability) "HE_SUITABILITY"

-- The comparisons of the rows' conditions.
abbrev pub is_erasure_exit : Option EligibilityOutcome → Bool
is_erasure_exit (some EligibilityOutcome.data_erasure_exit) = true
is_erasure_exit _ = false

abbrev is_escalated : Option EligibilityOutcome → Bool
is_escalated (some EligibilityOutcome.human_escalation) = true
is_escalated _ = false

abbrev is_re_ask : Option EligibilityOutcome → Bool
is_re_ask (some EligibilityOutcome.re_ask) = true
is_re_ask _ = false

abbrev is_not_eligible : Option EligibilityOutcome → Bool
is_not_eligible (some EligibilityOutcome.not_eligible) = true
is_not_eligible _ = false

abbrev is_existing_policy : Option S0Intent → Bool
is_existing_policy (some S0Intent.existing_policy) = true
is_existing_policy _ = false

abbrev is_specific_plan : Option S0Intent → Bool
is_specific_plan (some S0Intent.specific_plan) = true
is_specific_plan _ = false

abbrev is_new_purchase : Option S0Intent → Bool
is_new_purchase (some S0Intent.new_purchase) = true
is_new_purchase _ = false

abbrev pub corrects_eligibility : Option Correction → Bool
corrects_eligibility (some Correction.eligibility_slot) = true
corrects_eligibility _ = false

abbrev corrects_needs : Option Correction → Bool
corrects_needs (some Correction.needs_slot) = true
corrects_needs _ = false

abbrev is_fit : SuitabilityOutcome → Bool
is_fit SuitabilityOutcome.fit = true
is_fit _ = false

abbrev is_escalate : Option Suitability → Bool
is_escalate (some s) = elim s.outcome [ SuitabilityOutcome.escalate ↦ true | _ ↦ false ]
is_escalate none = false

abbrev is_amber : Affordability → Bool
is_amber Affordability.amber = true
is_amber _ = false

-- `uin in frozenset`
abbrev pub in_uins : String → List String → Bool
in_uins u [] = false
in_uins u (v ∷ vs) = u str_eq v || in_uins u vs

-- S2 -> S3: a current FIT record (I2), sufficient or elected, amber only once confirmed.
unfoldable pub suitable : Condition
unfolding current_suitability
suitable f t = elim (current_suitability f) [
  | none ↦ false
  | some s ↦
      is_fit s.outcome
      && (leb t.profile_sufficiency_min s.profile_sufficiency || f.sufficiency_elected)
      && (not (is_amber s.affordability) || f.amber_confirmed)
]

-- The engine found the chosen plan eligible.
abbrev pub is_eligible_uin : Selected → Option Eligibility → Bool
is_eligible_uin chosen none = false
is_eligible_uin chosen (some e) = is_eligible (some e.outcome) && in_uins chosen.uin e.eligible_uins

-- V7: a chosen plan the engine found eligible, its quote valid, every ack hash-bound.
unfoldable pub can_hand_off : Condition
can_hand_off f t = elim f.selected [
  | none ↦ false
  | some chosen ↦
      chosen.quote_valid && f.acks_valid_for_selected && is_eligible_uin chosen f.eligibility
]

abbrev pub engaged : List FsmState
engaged = s0 ∷ s1 ∷ quote_only ∷ s2 ∷ s3 ∷ []

abbrev pub active : List FsmState
active = s0 ∷ s1 ∷ quote_only ∷ s2 ∷ s3 ∷ pause ∷ []

-- CC2: a mandatory trigger, an explicit request, frustration or low confidence.
unfoldable pub escalates : Condition
escalates f t =
    is_some f.mandatory_trigger
    || f.human_request
    || f.frustration
    || leb t.low_confidence_streak_limit f.low_confidence_streak

unfoldable pub cross_cutting : List Row
unfolding escalation_reason pause_reason valid_p1 consent_given_ever suitability_current escalates
cross_cutting =
    row "CC1" active 1 (goto data_erasure) (λ f t. f.withdraw) (code "WITHDRAW")
    ∷ row "CC1b" active 2 (goto data_erasure) (λ f t. f.minor) (code "MINOR")
    ∷ row "CC2" active 3 (goto human_escalation) escalates (computed escalation_reason)
    ∷ row "CC3" engaged 4 (goto pause)
        (λ f t. consent_given_ever f && (f.inactivity_timeout || f.dependency_down))
        (computed pause_reason)
    ∷ row "G1" (s1 ∷ quote_only ∷ s2 ∷ s3 ∷ []) 5 (goto s0) (λ f t. not (valid_p1 f))
        (code "CONSENT_LAPSED")
    ∷ row "G2" (s2 ∷ s3 ∷ []) 6 (goto s1) (λ f t. corrects_eligibility f.correction)
        (code "CORRECTION_ELIGIBILITY")
    ∷ row "G3" (s3 ∷ []) 7 (goto s2) (λ f t. corrects_needs f.correction) (code "CORRECTION_NEEDS")
    ∷ row "G4" (s3 ∷ []) 8 (goto s2) (λ f t. not (suitability_current f)) (code "SUITABILITY_STALE")
    ∷ record {
      id = "CC4";
      states = engaged;
      order = 9;
      to = stay;
      condition = λ f t. f.faq;
      reason_code = code "FAQ";
      subgraph = some side_query;
    }
    ∷ record {
      id = "CC5";
      states = engaged;
      order = 10;
      to = stay;
      condition = λ f t. f.objection;
      reason_code = code "OBJECTION";
      subgraph = some objection;
    }
    ∷ row "CC3b" (s1 ∷ quote_only ∷ s2 ∷ []) 11 (goto pause)
        (λ f t. consent_given_ever f && f.need_time) (code "NEED_TIME")
    ∷ row "CC5b" (s1 ∷ quote_only ∷ s2 ∷ s3 ∷ []) 12 (goto exit) (λ f t. f.end_requested)
        (code "OBJECTION_EXIT")
    ∷ []

-- `_table`: a state's own rows, and last the row that always matches. Its id is the prefix with
-- ".STAY" behind it, which the caller writes out.
abbrev table : FsmState → String → List Row → List Row
table state stay_id rows = rows ++ row stay_id (state ∷ []) 99 stay (λ f t. true) (code "STAY") ∷ []

unfoldable pub state_rows : FsmState → List Row
unfolding eligibility_reason suitability_reason valid_p1 eligible_now current_suitability
    over_insured suitable can_hand_off
state_rows s0 = table s0 "S0.STAY" (
    row "S0.1" (s0 ∷ []) 1 (goto human_escalation) (λ f t. is_existing_policy f.intent)
      (code "HE_EXISTING_POLICY")
    ∷ row "S0.2" (s0 ∷ []) 2 (goto exit) (λ f t. is_refused f.consent) (code "CONSENT_REFUSED")
    ∷ row "S0.3" (s0 ∷ []) 3 (goto quote_only) (λ f t. valid_p1 f && is_specific_plan f.intent)
        (code "SPECIFIC_PLAN")
    ∷ row "S0.4" (s0 ∷ []) 4 (goto s1) (λ f t. valid_p1 f && is_new_purchase f.intent)
        (code "NEW_PURCHASE")
    ∷ [])
state_rows s1 = table s1 "S1.STAY" (
    row "S1.0" (s1 ∷ []) 0 (goto data_erasure)
      (λ f t. is_erasure_exit (eligibility_outcome f.eligibility)) (code "MINOR")
    ∷ row "S1.1" (s1 ∷ []) 1 (goto human_escalation)
        (λ f t. is_escalated (eligibility_outcome f.eligibility)) (computed eligibility_reason)
    ∷ row "S1.1b" (s1 ∷ []) 2 (goto human_escalation)
        (λ f t. is_re_ask (eligibility_outcome f.eligibility) && f.reask_exhausted)
        (code "HE_RE_ASK_LIMIT")
    ∷ row "S1.2" (s1 ∷ []) 3 (goto exit)
        (λ f t. is_not_eligible (eligibility_outcome f.eligibility)) (code "NOT_ELIGIBLE")
    ∷ row "S1.3" (s1 ∷ []) 4 (goto quote_only) (λ f t. eligible_now f && f.express_path)
        (code "EXPRESS_PATH")
    ∷ row "S1.4" (s1 ∷ []) 5 (goto s2) (λ f t. eligible_now f) (code "ELIGIBLE")
    ∷ [])
state_rows quote_only = table quote_only "QO.STAY" (
    row "QO.1" (quote_only ∷ []) 1 stay (λ f t. f.apply_request) (code "HARD_BLOCK_C13")
    ∷ row "QO.2" (quote_only ∷ []) 2 (goto exit) (λ f t. f.quote_satisfied) (code "QUOTE_SATISFIED")
    ∷ row "QO.3" (quote_only ∷ []) 3 (goto s2) (λ f t. f.advisory_opt_in && eligible_now f)
        (code "ADVISORY_OPT_IN")
    ∷ row "QO.3b" (quote_only ∷ []) 4 (goto s1) (λ f t. f.advisory_opt_in && not (eligible_now f))
        (code "ADVISORY_OPT_IN_SCREEN")
    ∷ [])
state_rows s2 = table s2 "S2.STAY" (
    row "S2.1b" (s2 ∷ []) 1 (goto human_escalation) (λ f t. is_escalate (current_suitability f))
      (computed suitability_reason)
    ∷ row "S2.1" (s2 ∷ []) 2 (goto exit_advisory) (λ f t. over_insured f) (code "NO_GAP")
    ∷ row "S2.2" (s2 ∷ []) 3 (goto s3) suitable (code "SUITABLE")
    ∷ [])
state_rows s3 = table s3 "S3.STAY" (
    row "S3.0" (s3 ∷ []) 0 (goto human_escalation) (λ f t. f.no_options) (code "HE_NO_OPTION")
    ∷ row "S3.1" (s3 ∷ []) 1 (goto exit) (λ f t. f.explicit_decline && leb 1 f.rediscovery_loops)
        (code "DECLINED")
    ∷ row "S3.2" (s3 ∷ []) 2 (goto pause) (λ f t. f.need_time) (code "NEED_TIME")
    ∷ row "S3.3" (s3 ∷ []) 3 (goto s2)
        (λ f t. f.all_rejected && ltb f.rediscovery_loops t.rediscovery_loop_limit)
        (code "REDISCOVERY")
    ∷ row "S3.3b" (s3 ∷ []) 4 (goto human_escalation)
        (λ f t. f.all_rejected && leb t.rediscovery_loop_limit f.rediscovery_loops)
        (code "HE_REDISCOVERY_LIMIT")
    ∷ row "S3.4" (s3 ∷ []) 5 (goto handoff) can_hand_off (code "HANDOFF")
    ∷ [])
state_rows pause =
    table pause "PAUSE.STAY"
      (row "PAUSE.R" (pause ∷ []) 1 resume (λ f t. not f.inactivity_timeout) (code "RESUMED") ∷ [])
state_rows human_escalation = table human_escalation "HUMAN_ESCALATION.STAY" []
state_rows exit = table exit "EXIT.STAY" []
state_rows exit_advisory = table exit_advisory "EXIT_ADVISORY.STAY" []
state_rows data_erasure = table data_erasure "DATA_ERASURE.STAY" []
state_rows handoff = table handoff "HANDOFF.STAY" []

-- `sorted(rows, key=lambda r: r.order)`, which is stable: an insertion sort.
insert_by_order : Row → List Row → List Row
insert_by_order r [] = r ∷ []
insert_by_order r (x ∷ xs) =
    let rest = insert_by_order r xs in if leb r.order x.order then r ∷ x ∷ xs else x ∷ rest

unfoldable pub sorted_by_order : List Row → List Row
unfolding insert_by_order
sorted_by_order [] = []
sorted_by_order (r ∷ rs) = insert_by_order r (sorted_by_order rs)

-- `row for row in CROSS_CUTTING if state in row.states`
unfoldable pub in_scope : FsmState → List Row → List Row
in_scope s [] = []
in_scope s (r ∷ rs) = let rest = in_scope s rs in if in_states s r.states then r ∷ rest else rest

-- `_EVALUATION[state]`: the rows tried for `state`, in order; the last always matches.
unfoldable pub evaluation_rows : FsmState → List Row
unfolding cross_cutting state_rows sorted_by_order in_scope
evaluation_rows s = sorted_by_order (in_scope s cross_cutting) ++ sorted_by_order (state_rows s)
