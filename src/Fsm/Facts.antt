-- ===== src/Fsm/Facts.antt =====
-- fsm/facts.py: the transition function's only input besides the current state. An optional field
-- is an `Option`, a `Literal` a data type. A score is a finite, non-negative double: it is modelled
-- by the number of units of 2 ^ -1074 in it, so that `>=` is exact.
use suraksha_setu.Prelude.{ℕ, String, Bool, true, false, ◌||◌, Option, none, some, List, ◌str_eq◌}
use suraksha_setu.Fsm.States.{FsmState}

pub data EligibilityOutcome : Type 0 where
  eligible not_eligible human_escalation data_erasure_exit re_ask : EligibilityOutcome

pub data SuitabilityOutcome : Type 0 where
  fit no_gap escalate : SuitabilityOutcome

pub data Affordability : Type 0 where
  green amber red unknown : Affordability

pub data ConsentStatus : Type 0 where
  absent refused valid lapsed : ConsentStatus

pub data S0Intent : Type 0 where
  new_purchase specific_plan existing_policy general_faq : S0Intent

pub data MandatoryTrigger : Type 0 where
  self_harm vulnerable_complex affordability_red out_of_scope injection_limit : MandatoryTrigger

-- The enum's values: the escalation reason codes.
abbrev pub trigger_value : MandatoryTrigger → String
trigger_value self_harm = "HE_SAFETY"
trigger_value vulnerable_complex = "HE_VULNERABLE_COMPLEX"
trigger_value affordability_red = "HE_AFFORDABILITY_RED"
trigger_value out_of_scope = "HE_OUT_OF_SCOPE"
trigger_value injection_limit = "HE_INJECTION"

pub data Correction : Type 0 where
  eligibility_slot needs_slot : Correction

abbrev pub Score : Type 0
Score = ℕ

pub record Eligibility : Type 0 where
  pub outcome : EligibilityOutcome
  pub escalation_reason : Option String
  pub eligible_uins : List String

pub record Suitability : Type 0 where
  pub inputs_sha256 : String
  pub outcome : SuitabilityOutcome
  pub escalation_reason : Option String
  pub profile_sufficiency : Score
  pub affordability : Affordability

pub record Selected : Type 0 where
  pub uin : String
  pub quote_valid : Bool

pub record Facts : Type 0 where
  pub consent : ConsentStatus
  pub intent : Option S0Intent
  pub minor : Bool
  pub eligibility : Option Eligibility
  pub reask_exhausted : Bool
  pub express_path : Bool
  pub quote_satisfied : Bool
  pub advisory_opt_in : Bool
  pub apply_request : Bool
  pub suitability : Option Suitability
  pub needs_slots_sha256 : Option String
  pub sufficiency_elected : Bool
  pub amber_confirmed : Bool
  pub selected : Option Selected
  pub acks_valid_for_selected : Bool
  pub no_options : Bool
  pub all_rejected : Bool
  pub rediscovery_loops : ℕ
  pub need_time : Bool
  pub explicit_decline : Bool
  pub end_requested : Bool
  pub correction : Option Correction
  pub paused_from : Option FsmState
  pub withdraw : Bool
  pub human_request : Bool
  pub frustration : Bool
  pub low_confidence_streak : ℕ
  pub mandatory_trigger : Option MandatoryTrigger
  pub inactivity_timeout : Bool
  pub dependency_down : Bool
  pub faq : Bool
  pub objection : Bool

-- `Facts()`: every field at its default, "nothing happened".
abbrev pub no_facts : Facts
no_facts = record {
  consent = absent;
  intent = none;
  minor = false;
  eligibility = none;
  reask_exhausted = false;
  express_path = false;
  quote_satisfied = false;
  advisory_opt_in = false;
  apply_request = false;
  suitability = none;
  needs_slots_sha256 = none;
  sufficiency_elected = false;
  amber_confirmed = false;
  selected = none;
  acks_valid_for_selected = false;
  no_options = false;
  all_rejected = false;
  rediscovery_loops = 0;
  need_time = false;
  explicit_decline = false;
  end_requested = false;
  correction = none;
  paused_from = none;
  withdraw = false;
  human_request = false;
  frustration = false;
  low_confidence_streak = 0;
  mandatory_trigger = none;
  inactivity_timeout = false;
  dependency_down = false;
  faq = false;
  objection = false;
}

-- `is not None`
abbrev pub is_some {ℓ} : {A : Type ℓ} → Option A → Bool
is_some none = false
is_some (some a) = true

-- The comparisons of a `Literal` field with one of its values.
abbrev pub is_valid : ConsentStatus → Bool
is_valid valid = true
is_valid _ = false

abbrev pub is_refused : ConsentStatus → Bool
is_refused refused = true
is_refused _ = false

abbrev pub is_lapsed : ConsentStatus → Bool
is_lapsed lapsed = true
is_lapsed _ = false

abbrev pub eligibility_outcome : Option Eligibility → Option EligibilityOutcome
eligibility_outcome none = none
eligibility_outcome (some e) = some e.outcome

abbrev pub is_eligible : Option EligibilityOutcome → Bool
is_eligible (some EligibilityOutcome.eligible) = true
is_eligible _ = false

unfoldable pub valid_p1 : Facts → Bool
valid_p1 f = is_valid f.consent

unfoldable pub consent_given_ever : Facts → Bool
consent_given_ever f = is_valid f.consent || is_lapsed f.consent

unfoldable pub eligible_now : Facts → Bool
eligible_now f = is_eligible (eligibility_outcome f.eligibility)

-- `self.suitability.inputs_sha256 == self.needs_slots_sha256`, where either may be `None`.
abbrev same_hash : Option Suitability → Option String → Bool
same_hash none _ = false
same_hash (some s) none = false
same_hash (some s) (some h) = s.inputs_sha256 str_eq h

unfoldable pub suitability_current : Facts → Bool
suitability_current f = same_hash f.suitability f.needs_slots_sha256

unfoldable pub current_suitability : Facts → Option Suitability
unfolding suitability_current
current_suitability f = elim (suitability_current f) [ true ↦ f.suitability | false ↦ none ]

abbrev pub is_outcome_no_gap : SuitabilityOutcome → Bool
is_outcome_no_gap no_gap = true
is_outcome_no_gap _ = false

abbrev no_gap_of : Option Suitability → Bool
no_gap_of none = false
no_gap_of (some s) = is_outcome_no_gap s.outcome

unfoldable pub over_insured : Facts → Bool
unfolding current_suitability
over_insured f = no_gap_of (current_suitability f)
