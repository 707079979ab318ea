-- ===== src/Turn/Decide.antt =====
-- graph/nodes.py: decide and after_decide. A turn's `signals` are the facts that a state node sets
-- from what it verified; each is a constructor of `Signal` for a field that some node sets.
use suraksha_setu.Prelude.{
  ℕ, String, Bool, true, false, not, ◌&&◌, ◌||◌, Option, none, some, List, [], ◌∷◌, ◌+◌, ◌str_eq◌,
  if◌then◌else◌,
}
use suraksha_setu.Prelude.Dict.{insert, count_of}
use suraksha_setu.Fsm.States.{
  FsmState, human_escalation, pause, data_erasure, same_state, in_states, resumable,
}
use suraksha_setu.Fsm.Facts.{Facts, ConsentStatus, Correction, Eligibility, S0Intent, Selected}
use suraksha_setu.Fsm.Transition.{Transition, transition}
use suraksha_setu.Turn.State.{SessionState, Frame, PipelineResult, Settings}
use suraksha_setu.Turn.Facts.{ActionType, build_facts}
use suraksha_setu.Turn.Router.{Routed, analysis_of, block_reason_of}

pub data Signal : Type 0 where
  set_consent : ConsentStatus → Signal
  set_intent : S0Intent → Signal
  set_eligibility : Eligibility → Signal
  set_selected : Selected → Signal
  set_correction : Correction → Signal
  set_objection : Bool → Signal
  minor human_request express_path reask_exhausted apply_request advisory_opt_in quote_satisfied
        amber_confirmed sufficiency_elected dependency_down no_options need_time all_rejected
        acks_valid_for_selected end_requested inactivity_timeout faq :
      Signal

unfoldable pub apply_signal : Signal → Facts → Facts
apply_signal (set_consent c) f = record f { consent = c }
apply_signal (set_intent i) f = record f { intent = some i }
apply_signal (set_eligibility e) f = record f { eligibility = some e }
apply_signal (set_selected s) f = record f { selected = some s }
apply_signal (set_correction c) f = record f { correction = some c }
apply_signal (set_objection b) f = record f { objection = b }
apply_signal minor f = record f { minor = true }
apply_signal human_request f = record f { human_request = true }
apply_signal express_path f = record f { express_path = true }
apply_signal reask_exhausted f = record f { reask_exhausted = true }
apply_signal apply_request f = record f { apply_request = true }
apply_signal advisory_opt_in f = record f { advisory_opt_in = true }
apply_signal quote_satisfied f = record f { quote_satisfied = true }
apply_signal amber_confirmed f = record f { amber_confirmed = true }
apply_signal sufficiency_elected f = record f { sufficiency_elected = true }
apply_signal dependency_down f = record f { dependency_down = true }
apply_signal no_options f = record f { no_options = true }
apply_signal need_time f = record f { need_time = true }
apply_signal all_rejected f = record f { all_rejected = true }
apply_signal acks_valid_for_selected f = record f { acks_valid_for_selected = true }
apply_signal end_requested f = record f { end_requested = true }
apply_signal inactivity_timeout f = record f { inactivity_timeout = true }
apply_signal faq f = record f { faq = true }

-- `facts.model_dump() | turn.signals`, in the order in which they were set.
unfoldable pub with_signals : List Signal → Facts → Facts
unfolding apply_signal
with_signals [] f = f
with_signals (s ∷ ss) f = with_signals ss (apply_signal s f)

abbrev pub unasked : Facts → Facts
unasked f = record f { faq = false; objection = false }

abbrev pub held_back : String → Bool
held_back row_id = row_id str_eq "CC4" || row_id str_eq "CC5"

-- A move that the turn's own answer earned is not held back by the FAQ or the objection row.
abbrev pub earn : FsmState → Transition → Option Transition → Option Transition
earn before result none = none
earn before result (some earned) =
    if not (same_state earned.to before) then some earned else some result

abbrev pub settle_on : Facts → FsmState → Settings → Option Transition → Option Transition
settle_on f before settings none = none
settle_on f before settings (some result) =
    if held_back result.row_id
    then earn before result (transition (unasked f) before settings.thresholds)
    else some result

-- The transition that `decide` settles on, from the facts with the signals in them.
unfoldable pub settle : Facts → FsmState → Settings → Option Transition
settle f before settings = settle_on f before settings (transition f before settings.thresholds)

pub record StateTransitionHeader : Type 0 where
  pub from_state : FsmState
  pub to_state : FsmState
  pub trigger : String
  pub invariants : List (String × Bool)
  pub reason_code : String

abbrev pub tail_frames : List Frame → List Frame
tail_frames [] = []
tail_frames (frame ∷ rest) = rest

-- A pause pushes the frame that it leaves, and the resume takes it off.
unfoldable pub next_stack : FsmState → FsmState → Option String → List Frame → List Frame
next_stack before to pending_slot stack =
    if same_state to pause && not (same_state before pause)
    then record { state = before; pending_slot = pending_slot; prompt_id = none; focus_uins = [] }
      ∷ stack
    else if same_state before pause && not (same_state to pause)
    then tail_frames stack
    else stack

unfoldable pub next_counters : String → List (String × ℕ) → List (String × ℕ)
unfolding count_of
next_counters row_id counters =
    if row_id str_eq "S3.3"
    then insert "rediscovery_loops" (count_of "rediscovery_loops" counters + 1) counters
    else counters

pub data NextNode : Type 0 where
  to_data_erasure to_human_escalation to_pause compose : NextNode
  enter : FsmState → NextNode

abbrev is_withdraw : Routed → Bool
is_withdraw Routed.withdraw_consent = true
is_withdraw _ = false

abbrev is_aside : Routed → Bool
is_aside Routed.side_query = true
is_aside Routed.objection = true
is_aside _ = false

-- The handler for the state that the transition entered, else compose.
unfoldable pub after_decide : Routed → FsmState → FsmState → NextNode
after_decide routed before to =
    if is_withdraw routed || (same_state to data_erasure && not (same_state before data_erasure))
    then to_data_erasure
    else if same_state to human_escalation && not (same_state before human_escalation)
    then to_human_escalation
    else if same_state to pause && not (same_state before pause)
    then to_pause
    else if in_states to resumable && not (same_state to before)
    then enter to
    else compose

pub record Decision : Type 0 where
  pub session : SessionState
  pub transition : Transition
  -- the STATE_TRANSITION event that is appended
  pub header : StateTransitionHeader
  -- an erasure speaks alone: the side answer is dropped
  pub reply_dropped : Bool
  -- the form and the quick replies of the state that was left are dropped
  pub form_dropped : Bool
  pub next_node : NextNode

unfoldable pub decided_on : SessionState → Routed → Transition → Decision
unfolding next_stack next_counters after_decide
decided_on session routed result =
    let before = session.fsm_state in
    record {
      session = record session {
        fsm_state = result.to;
        stack = next_stack before result.to session.pending_slot session.stack;
        counters = next_counters result.row_id session.counters;
      };
      transition = result;
      header = record {
        from_state = before;
        to_state = result.to;
        trigger = result.row_id;
        invariants = result.invariants;
        reason_code = result.reason_code;
      };
      reply_dropped = same_state result.to data_erasure && is_aside routed;
      form_dropped = not (same_state result.to before);
      next_node = after_decide routed before result.to;
    }

abbrev pub map_decided : SessionState → Routed → Option Transition → Option Decision
map_decided session routed none = none
map_decided session routed (some result) = some (decided_on session routed result)

abbrev pub turn_facts :
    SessionState → Option PipelineResult → Option ActionType → List Signal → Settings → Facts
turn_facts session pipeline action signals settings =
    with_signals signals
      (build_facts session (analysis_of pipeline) (block_reason_of pipeline) settings action)

unfoldable pub decide :
    SessionState
    → Option PipelineResult
    → Option ActionType
    → List Signal
    → Routed
    → Settings
    → Option Decision
unfolding settle decided_on
decide session pipeline action signals routed settings =
    map_decided session routed
      (settle (turn_facts session pipeline action signals settings) session.fsm_state settings)
