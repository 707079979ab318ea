-- ===== src/Turn/State.antt =====
-- graph/state.py, analysis/models.py and the parts of domain/models.py that the turn's decisions
-- read. Of `SessionState` the fields that only a template, an audit pin or a reply reads are left
-- out. `stack[-1]` is the head of `stack`.
use suraksha_setu.Prelude.{ℕ, String, Bool, Option, List}
use suraksha_setu.Fsm.States.{FsmState}
use suraksha_setu.Fsm.Facts.{EligibilityOutcome, SuitabilityOutcome, Affordability, Score}
use suraksha_setu.Fsm.Rows.{Thresholds}

pub record Frame : Type 0 where
  pub state : FsmState
  pub pending_slot : Option String
  pub prompt_id : Option String
  pub focus_uins : List String

pub record ConsentRecord : Type 0 where
  pub valid_p1 : Bool
  pub valid_reasons : List String

pub record EligibilityResult : Type 0 where
  pub outcome : EligibilityOutcome
  pub escalation_reason : Option String
  pub eligible_uins : List String

pub record EligibilityPayload : Type 0 where
  pub engine : Option EligibilityResult

pub record NeedsPayload : Type 0 where
  pub slots_sha256 : String

pub record SuitabilityResult : Type 0 where
  pub inputs_sha256 : String
  pub outcome : SuitabilityOutcome
  pub escalation_reason : Option String
  pub profile_sufficiency : Score
  pub affordability : Affordability
  pub reason_codes : List String

pub record SessionState : Type 0 where
  pub fsm_state : FsmState
  pub pending_slot : Option String
  pub stack : List Frame
  pub consent : Option ConsentRecord
  pub eligibility : Option EligibilityPayload
  pub needs : Option NeedsPayload
  pub suitability : Option SuitabilityResult
  pub counters : List (String × ℕ)
  pub last_prompt_id : Option String
  pub focus_uins : List String

pub data Intent : Type 0 where
  slot_answer correction side_query meta_human meta_restart meta_withdraw meta_language off_topic
        safety adversarial new_purchase specific_plan existing_policy general_faq express_path
        need_time reject_all decline objection_price objection_trust objection_competitor
        objection_guarantee objection_other frustration financial_distress
        comprehension_difficulty :
      Intent

pub record TurnAnalysis : Type 0 where
  pub intents : List Intent
  pub side_query : Option String

pub data BlockReason : Type 0 where
  injection safety : BlockReason

pub record PipelineResult : Type 0 where
  pub analysis : Option TurnAnalysis
  pub block_reason : Option BlockReason

-- The parts of `Settings` that a decision reads; the state machine's thresholds are among them.
pub record Settings : Type 0 where
  pub thresholds : Thresholds
  pub injection_hit_limit : ℕ
  pub side_query_max_stack : ℕ
