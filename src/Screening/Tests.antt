-- ===== src/Screening/Tests.antt =====
-- A screen on one rule, and the theorems at inputs that meet their hypotheses.
use suraksha_setu.Prelude.{
  String, ◌≡◌, refl, true, false, Option, none, some, List, [], ◌∷◌, ◌⊎◌, arith,
}
use suraksha_setu.Prelude.Dict.{lookup, insert, count_of}
use suraksha_setu.Fsm.States.{FsmState}
use suraksha_setu.Fsm.Facts.{EligibilityOutcome}
use suraksha_setu.Turn.State.{EligibilityResult}
use suraksha_setu.Screening.State.{
  Value, number, SlotStatus, Understood, answered, unusable, Prefix, PromptId, readback_prompt,
  SlotCandidate, Action, no_action, confirm_answer, TurnInput, Setup, Screen, ok,
}
use suraksha_setu.Screening.Take.{
  Known, asked_of, find_attr, first_missing, all_confirmed, is_all_confirmed, take_candidates, take,
  take_understood, record_answer, write, note, answer_pending, count_invalid,
}
use suraksha_setu.Screening.Prompt.{reply, readback, confirm_each, next}
use suraksha_setu.Screening.Respond.{take_turn, respond_rest, after_readback, notes, respond}
use suraksha_setu.Screening.Written.{
  overlay, Adult, Evidenced, any_stale, known_is_reloaded, rows-Evidenced,
}
use suraksha_setu.Screening.Evaluate.{loaded, node, correction}
use suraksha_setu.Screening.Corrected.{node_asks_confirmed, correction_drops_result}

abbrev heard : String → Value → String → Understood
heard slot (number n) evidence =
    answered (record { value = number n; is_declined = false; is_derived = false })
heard slot raw evidence = unusable

abbrev age_only : Setup
age_only = record {
  prefix = Prefix.s1;
  attrs = record { attribute = "age_years"; reason_line_id = "RL-S1-AGE"; asked_if = none } ∷ [];
  extra = [];
  settings = record {
    confidence_readback_floor = 60;
    confidence_accept = 80;
    invalid_input_limit = 3;
  };
  kinds = "age_years" ∷ [];
  alias = λ slot. slot;
  eligibility_slots = "age_years" ∷ [];
  needs_slots = [];
  understand = heard;
  can_read = λ slot value. true;
  choices = λ slot. [];
  full_confidence = 100;
}

abbrev proposed_age : Known
proposed_age = ("age_years", (SlotStatus.proposed, number 30)) ∷ []

abbrev screen_with : Known → Option PromptId → Screen
screen_with known prompt = record {
  fsm_state = FsmState.s1;
  counters = [];
  last_prompt_id = prompt;
  pending_slot = none;
  eligibility = none;
  needs = none;
  suitability = none;
  comprehension = 0;
  needs_events = [];
  slot_rows = [];
  signals = [];
  parts = [];
  quick_replies = [];
  phrase = none;
  is_answered = false;
  known = known;
  lead = [];
  replies = [];
  filled = [];
  offered = [];
  confirm = none;
  options = none;
  noted = false;
  period = none;
  offer_short = false;
  rephrased = false;
  distressed_now = false;
}

abbrev turn_with : Action → List SlotCandidate → TurnInput
turn_with action slots = record {
  action = action;
  pipeline = none;
  slots_pending = slots;
  is_text = true;
  identity = false;
  handled = false;
}

abbrev says_41 : TurnInput
says_41 =
    turn_with no_action
      (record { slot = "age_years"; value = number 41; evidence_span = "41"; confidence = 90 } ∷ [])

abbrev before : Screen
before = screen_with proposed_age (some (readback_prompt Prefix.s1))

abbrev yes : TurnInput
yes = turn_with (confirm_answer (some true)) []

-- A yes to the read-back confirms the age, and the turn is ready.
yes_confirms : (respond age_only yes before).0 ≡ ok true
unfolding respond take_turn respond_rest after_readback confirm_each write next asked_of
    first_missing all_confirmed find_attr lookup insert
yes_confirms = refl

-- A corrected age is written with the status corrected.
says_41_writes : any_stale age_only says_41 (respond age_only says_41 before).1.slot_rows ≡ true
unfolding respond take_turn take_candidates take take_understood record_answer write respond_rest
    next answer_pending notes note count_invalid count_of asked_of first_missing all_confirmed
    find_attr readback reply lookup insert
says_41_writes = refl

proposed_age-Adult : Adult proposed_age
unfolding lookup
proposed_age-Adult slot = ground arith

known_is_reloaded_example :
    (respond age_only says_41 before).1.known
    ≡ overlay proposed_age (respond age_only says_41 before).1.slot_rows
unfolding overlay
known_is_reloaded_example = known_is_reloaded age_only says_41 proposed_age before refl

rows-Evidenced_example :
    Evidenced age_only says_41
      (some (readback_prompt Prefix.s1))
      (respond age_only says_41 before).1.slot_rows
rows-Evidenced_example = rows-Evidenced age_only says_41 before proposed_age-Adult refl

abbrev eligible_engine : List (String × Value) → Option EligibilityResult
eligible_engine values =
    some (record {
      outcome = EligibilityOutcome.eligible;
      escalation_reason = none;
      eligible_uins = [];
    })

abbrev no_engine : List (String × Value) → Option EligibilityResult
no_engine values = none

says_41_unconfirmed : is_all_confirmed age_only (respond age_only says_41 before).1 ≡ false
unfolding respond take_turn take_candidates take take_understood record_answer write respond_rest
    next answer_pending notes note count_invalid count_of asked_of first_missing all_confirmed
    find_attr readback reply lookup insert
says_41_unconfirmed = refl

node_asks_confirmed_example :
    node age_only eligible_engine loaded says_41 true false false before
    ≡ node age_only no_engine loaded says_41 true false false before
node_asks_confirmed_example =
    node_asks_confirmed age_only eligible_engine no_engine loaded says_41 true false false before
      says_41_unconfirmed

correction_drops_result_example :
    ((correction age_only eligible_engine says_41 true before).1.known ≡ proposed_age)
    ⊎ ((correction age_only eligible_engine says_41 true before).1.eligibility ≡ none)
correction_drops_result_example =
    correction_drops_result age_only eligible_engine says_41 true before
