-- ===== src/Turn/Router.antt =====
-- graph/nodes.py: turn_router, which handler a turn runs before `decide`. Also the signal of
-- graph/handlers/safety.py.
use suraksha_setu.Prelude.{
  ℕ, String, Bool, true, false, not, ◌≡◌, ◌||◌, ◌str_eq◌, Option, none, some, List, ◌∷◌, leb,
  length, ◌≤◌, arith, if◌then◌else◌,
}
use suraksha_setu.Fsm.States.{FsmState}
use suraksha_setu.Fsm.Facts.{is_some}
use suraksha_setu.Turn.State.{
  SessionState, Frame, TurnAnalysis, BlockReason, PipelineResult, Intent,
}
use suraksha_setu.Turn.Facts.{has, intents_of, is_safety, ActionType, is_erase}

-- The node that the router names: a pass-through handler, a subgraph, the timer, or a state's own.
pub data Routed : Type 0 where
  withdraw_consent safety objection side_query timer : Routed
  state_node : FsmState → Routed

abbrev pub analysis_of : Option PipelineResult → Option TurnAnalysis
analysis_of none = none
analysis_of (some p) = p.analysis

abbrev pub block_reason_of : Option PipelineResult → Option BlockReason
block_reason_of none = none
block_reason_of (some p) = p.block_reason

-- The SAFETY intent, or the safety rail's block.
unfoldable pub safety_signal : Option PipelineResult → Bool
safety_signal none = false
safety_signal (some p) = has Intent.safety (intents_of p.analysis) || is_safety p.block_reason

-- `analysis.side_query`, which an empty text does not ask.
abbrev asks_aside : Option TurnAnalysis → Bool
asks_aside none = false
asks_aside (some a) = elim a.side_query [ none ↦ false | some text ↦ not (text str_eq "") ]

unfoldable pub turn_router :
    SessionState
    → Option PipelineResult
    → ℕ
    → Option ActionType
    → Option String
    → Bool
    → Routed × Option Frame
unfolding safety_signal
turn_router session pipeline max_stack action question objecting =
    let analysis = analysis_of pipeline in
    if has Intent.meta_withdraw (intents_of analysis) || is_erase action
    then (withdraw_consent, none)
    else if safety_signal pipeline
    then (safety, none)
    else if objecting
    then (objection, none)
    else if is_some question || asks_aside analysis
    then (if leb max_stack (length session.stack) then (side_query, none) else (
      side_query,
      some (record {
        state = session.fsm_state;
        pending_slot = session.pending_slot;
        prompt_id = session.last_prompt_id;
        focus_uins = session.focus_uins;
      }),
    ))
    else (state_node session.fsm_state, none)

abbrev pub push : Option Frame → List Frame → List Frame
push none stack = stack
push (some frame) stack = frame ∷ stack

module _ (session : SessionState) (pipeline : Option PipelineResult) (max_stack : ℕ)
    (action : Option ActionType) (question : Option String) (objecting : Bool) where
  abbrev result : Routed × Option Frame
  result = turn_router session pipeline max_stack action question objecting

  -- A withdrawal, in words or by the ERASE action, is routed first, whatever else the turn holds;
  -- and then a safety signal. Neither pushes a frame.
  pub withdrawal_routed_first :
      ((has Intent.meta_withdraw (intents_of (analysis_of pipeline)) || is_erase action) ≡ true
        → result ≡ (withdraw_consent, none))
      × ((has Intent.meta_withdraw (intents_of (analysis_of pipeline)) || is_erase action) ≡ false
          → safety_signal pipeline ≡ true
          → result ≡ (safety, none))
  unfolding turn_router
  withdrawal_routed_first = ground arith

  -- The router never lets the stack grow past its limit, and a frame that it pushes names the
  -- state and the pending slot that the side query returns to.
  pub stack_stays_bounded :
      length session.stack ≤ max_stack → length (push result.1 session.stack) ≤ max_stack
  unfolding turn_router
  stack_stays_bounded h = ground arith
