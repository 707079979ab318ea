-- ===== src/Fsm/Tests.antt =====
-- The state machine on concrete facts, and the theorems at inputs that meet their hypotheses.
use suraksha_setu.Prelude.{◌≡◌, refl, true, none, some, [], ◌∷◌, ◌↔◌}
use suraksha_setu.Fsm.States.{FsmState, s1, s2, s3, pause, exit, handoff}
use suraksha_setu.Fsm.Facts.{
  Facts, Eligibility, Suitability, ConsentStatus, EligibilityOutcome, SuitabilityOutcome,
  Affordability, no_facts, valid_p1, suitability_current,
}
use suraksha_setu.Fsm.Rows.{Thresholds, Row, evaluation_rows}
use suraksha_setu.Fsm.Transition.{Transition, transition, first_match, invariants}
use suraksha_setu.Fsm.Depth.{Settles, transition-Settles}
use suraksha_setu.Fsm.Order.{FirstOf, one_row_decides}
use suraksha_setu.Fsm.Safety.{consent_first, suitability_first}
use suraksha_setu.Fsm.Handoff.{
  HandoffReady, RecommendReady, StandsInS3, handoff_only_when_ready, recommend_exactly_when,
}
use suraksha_setu.Fsm.Priority.{HardBlocks, transition-HardBlocks}

abbrev defaults : Thresholds
defaults = record {
  profile_sufficiency_min = 7;
  rediscovery_loop_limit = 2;
  low_confidence_streak_limit = 2;
}

abbrev suits : Suitability
suits = record {
  inputs_sha256 = "a1";
  outcome = SuitabilityOutcome.fit;
  escalation_reason = none;
  profile_sufficiency = 8;
  affordability = Affordability.green;
}

abbrev screened : Eligibility
screened = record {
  outcome = EligibilityOutcome.eligible;
  escalation_reason = none;
  eligible_uins = "999N001V02" ∷ [];
}

-- A customer with consent, a current suitability record and a chosen, acknowledged plan.
abbrev ready : Facts
ready = record no_facts {
  consent = ConsentStatus.valid;
  eligibility = some screened;
  suitability = some suits;
  needs_slots_sha256 = some "a1";
  selected = some (record { uin = "999N001V02"; quote_valid = true });
  acks_valid_for_selected = true;
}

abbrev decision : FsmState → Facts → Transition
decision to f = record {
  to = to;
  row_id = "S3.4";
  reason_code = "HANDOFF";
  subgraph = none;
  invariants = ("I1", true) ∷ ("I2", true) ∷ ("I5", true) ∷ [];
}

hands_off : transition ready s3 defaults ≡ some (decision handoff ready)
unfolding transition first_match evaluation_rows invariants
hands_off = refl

abbrev resumed : Facts
resumed = record ready { paused_from = some s3 }

hands_off_resumed : transition resumed pause defaults ≡ some (decision handoff resumed)
unfolding transition first_match evaluation_rows invariants
hands_off_resumed = refl

abbrev recommends : Transition
recommends = record {
  to = s3;
  row_id = "S2.2";
  reason_code = "SUITABLE";
  subgraph = none;
  invariants = ("I1", true) ∷ ("I2", true) ∷ ("I5", true) ∷ [];
}

recommends_from_s2 : transition ready s2 defaults ≡ some recommends
unfolding transition first_match evaluation_rows invariants
recommends_from_s2 = refl

abbrev pauses : Transition
pauses = record {
  to = pause;
  row_id = "CC3";
  reason_code = "INACTIVITY";
  subgraph = none;
  invariants = ("I1", true) ∷ ("I2", true) ∷ ("I5", true) ∷ [];
}

abbrev idle : Facts
idle = record ready { inactivity_timeout = true }

idle_to_pause : transition idle s1 defaults ≡ some pauses
unfolding transition first_match evaluation_rows invariants
idle_to_pause = refl

abbrev stays_out : Transition
stays_out = record {
  to = exit;
  row_id = "EXIT.STAY";
  reason_code = "STAY";
  subgraph = none;
  invariants = ("I5", true) ∷ [];
}

stays_in_exit : transition ready exit defaults ≡ some stays_out
unfolding transition first_match evaluation_rows invariants
stays_in_exit = refl

transition-Settles_example : Settles ready pause defaults
transition-Settles_example = transition-Settles ready pause defaults

consent_first_example : valid_p1 resumed ≡ true
consent_first_example =
    consent_first resumed pause defaults (decision handoff resumed) refl hands_off_resumed refl

suitability_first_example : suitability_current ready ≡ true
suitability_first_example =
    suitability_first ready s2 defaults recommends refl recommends_from_s2 refl

transition-HardBlocks_example : HardBlocks idle defaults pause
transition-HardBlocks_example = transition-HardBlocks idle s1 defaults pauses refl idle_to_pause

handoff_only_when_ready_example : StandsInS3 resumed pause × HandoffReady resumed defaults
handoff_only_when_ready_example =
    handoff_only_when_ready resumed pause defaults (decision handoff resumed) refl hands_off_resumed
      refl

recommend_exactly_when_example : (recommends.to ≡ s3) ↔ RecommendReady ready defaults
recommend_exactly_when_example = recommend_exactly_when ready defaults recommends recommends_from_s2

one_row_decides_example :
    (r : Row) × (first_match (evaluation_rows s3) ready defaults ≡ some r)
    × FirstOf ready defaults (evaluation_rows s3) r
one_row_decides_example = one_row_decides ready s3 defaults
