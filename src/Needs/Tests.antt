-- ===== src/Needs/Tests.antt =====
-- A needs discovery on one slot, and the theorems at inputs that meet their hypotheses.
use suraksha_setu.Prelude.{
  ℕ, String, ◌≡◌, refl, true, false, Option, none, some, List, [], ◌∷◌, if◌then◌else◌, ◌==◌, arith,
}
use suraksha_setu.Prelude.Dict.{lookup, insert, count_of}
use suraksha_setu.Fsm.States.{FsmState}
use suraksha_setu.Fsm.Facts.{SuitabilityOutcome, Affordability, EligibilityOutcome}
use suraksha_setu.Turn.State.{EligibilityPayload, EligibilityResult, SuitabilityResult}
use suraksha_setu.Screening.State.{
  Value, number, SlotStatus, Understood, answered, unusable, Prefix, readback_prompt,
  RequiredAttribute, no_action, NeedsBody, TurnInput, Setup, Screen, ok,
}
use suraksha_setu.Screening.Take.{Known, asked_of, first_missing, all_confirmed}
use suraksha_setu.Screening.Prompt.{confirm_each}
use suraksha_setu.Screening.Respond.{said}
use suraksha_setu.Screening.Evaluate.{correction, correct_by}
use suraksha_setu.Needs.Setup.{NeedsRules, setup_of, slots_of, payload, on_path}
use suraksha_setu.Needs.Prompt.{summary, hold, decide_needs, next, bind, route}
use suraksha_setu.Needs.Respond.{take_turn, after_readback, respond_rest, respond}
use suraksha_setu.Needs.Own.{opened, is_bound, bound_result, own_prompt}
use suraksha_setu.Needs.Node.{screen_of, body, node_rest, node}
use suraksha_setu.Needs.Current.{Current, Apart, node-Current}
use suraksha_setu.Needs.Bound.{is_summary, bound_by_yes}
use suraksha_setu.Needs.Binds.{agreement, next_turn, decide_needs-binds}

abbrev income_only : List RequiredAttribute
income_only =
    record { attribute = "annual_income_inr"; reason_line_id = "RL-S2-INCOME"; asked_if = none }
    ∷ []

abbrev heard : String → Value → String → Understood
heard slot (number n) evidence =
    answered (record { value = number n; is_declined = false; is_derived = true })
heard slot raw evidence = unusable

abbrev said_income : List (String × Value) → ℕ
said_income ((slot, number n) ∷ rest) = n
said_income (x ∷ rest) = said_income rest
said_income [] = 0

-- A hash that tells one income from the others.
abbrev digest : NeedsBody → String
digest body = if said_income body.slots == 960000 then "a1" else "b2"

abbrev service : Option EligibilityPayload → Known → NeedsBody → String → Option SuitabilityResult
service eligible known sent sha = some (record {
  inputs_sha256 = sha;
  outcome = SuitabilityOutcome.fit;
  escalation_reason = none;
  profile_sufficiency = 8;
  affordability = Affordability.green;
  reason_codes = [];
})

abbrev rules : NeedsRules
rules = record {
  settings = record {
    confidence_readback_floor = 60;
    confidence_accept = 80;
    invalid_input_limit = 3;
  };
  profile_sufficiency_min = 7;
  full_confidence = 100;
  required = some income_only;
  understand = heard;
  goal_labels = [];
  income_labels = [];
  assumed = [];
  needs_sha256 = digest;
  evaluate_suitability = service;
}

-- S1's, with nothing left to ask.
abbrev screening : Setup
screening = record (setup_of rules []) { prefix = Prefix.s1; needs_slots = [] }

abbrev eligible_engine : List (String × Value) → Option EligibilityResult
eligible_engine values =
    some (record {
      outcome = EligibilityOutcome.eligible;
      escalation_reason = none;
      eligible_uins = [];
    })

abbrev session : Screen
session = record {
  fsm_state = FsmState.s2;
  counters = [];
  last_prompt_id = some (readback_prompt Prefix.s2);
  pending_slot = none;
  eligibility = none;
  needs = none;
  suitability = none;
  comprehension = 0;
  needs_events = [];
  slot_rows = [];
  signals = [];
  parts = [];
  quick_replies = [];
  phrase = none;
  is_answered = false;
  known = ("annual_income_inr", (SlotStatus.proposed, number 960000)) ∷ [];
  lead = [];
  replies = [];
  filled = [];
  offered = [];
  confirm = none;
  options = none;
  noted = false;
  period = none;
  offer_short = false;
  rephrased = false;
  distressed_now = false;
}

abbrev decided : Screen
decided = (decide_needs rules (setup_of rules income_only) session).1

decided_ok : decide_needs rules (setup_of rules income_only) session ≡ (ok tt, decided)
unfolding decide_needs hold summary slots_of lookup
decided_ok = refl

decide_needs-binds_example :
    (result : SuitabilityResult) × ((decided.suitability ≡ some result)
      × (bound_result (
            screen_of
              (node rules screening eligible_engine agreement true false false (next_turn decided)))
          ≡ some result))
unfolding decide_needs hold summary slots_of lookup first_missing asked_of on_path count_of
decide_needs-binds_example =
    decide_needs-binds rules screening eligible_engine income_only session decided refl refl
      decided_ok refl

says_less : TurnInput
says_less = record agreement {
  action = no_action;
  slots_pending =
      record { slot = "income"; value = number 500000; evidence_span = "5 lakh"; confidence = 90 }
      ∷ [];
}

nothing_shared : Apart screening
nothing_shared slot h = absurd (ground arith)

abbrev bound_session : Screen
bound_session = record session {
  needs = some (record { body = payload session.known 0; slots_sha256 = some "a1" });
  suitability = service none [] (payload session.known 0) "a1";
}

bound_session-Current : Current rules bound_session
unfolding slots_of lookup payload
bound_session-Current = (refl, refl)

-- A bound record, and a lower income in the next turn: the record is dropped.
node-Current_example :
    Current rules
      (screen_of (node rules screening eligible_engine says_less true false false bound_session))
node-Current_example =
    node-Current rules screening eligible_engine says_less true false false bound_session
      nothing_shared bound_session-Current

agreed_binds :
    is_bound
      (screen_of
        (node rules screening eligible_engine agreement true false false (next_turn decided))).needs
    ≡ true
unfolding decide_needs hold summary slots_of lookup first_missing asked_of on_path count_of node
    node_rest correction correct_by opened body own_prompt respond take_turn respond_rest
    after_readback confirm_each next all_confirmed insert bind route
agreed_binds = refl

bound_by_yes_example :
    (is_summary (next_turn decided).last_prompt_id ≡ true) × (said agreement ≡ some true)
unfolding decide_needs hold summary slots_of lookup
bound_by_yes_example =
    bound_by_yes rules screening eligible_engine agreement true false false (next_turn decided) refl
      agreed_binds
