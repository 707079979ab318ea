-- ===== src/Turn/Stack.antt =====
-- graph/nodes.py: what `decide` keeps of the session's stack, and of the state to come back to.
use suraksha_setu.Prelude.{
  String, ◌≡◌, refl, Bool, true, false, not, ◌&&◌, Option, none, some, List, arith, Bool-cases,
  Option-cases, inl, inr,
}
use suraksha_setu.Fsm.States.{
  FsmState, s0, s1, quote_only, s2, s3, human_escalation, pause, exit, exit_advisory, data_erasure,
  handoff, same_state, in_states, resumable,
}
use suraksha_setu.Fsm.Facts.{Facts}
use suraksha_setu.Fsm.Rows.{Thresholds}
use suraksha_setu.Fsm.Transition.{Transition, transition}
use suraksha_setu.Fsm.Priority.{terminal_stays}
use suraksha_setu.Turn.State.{SessionState, Frame, PipelineResult, Settings}
use suraksha_setu.Turn.Facts.{ActionType, paused_from_of}
use suraksha_setu.Turn.Router.{Routed}
use suraksha_setu.Turn.Decide.{
  held_back, tail_frames, Signal, Decision, settle, settle_on, unasked, next_stack, decided_on,
  decide, turn_facts,
}

-- A paused session has the frame of the state that it was paused in on top of its stack.
abbrev resumes : Option FsmState → Bool
resumes none = false
resumes (some s) = in_states s resumable

abbrev pub WellFormed : FsmState → List Frame → Type 0
WellFormed state stack = same_state state pause ≡ true → resumes (paused_from_of state stack) ≡ true

settle_on-earned :
    (f : Facts) (s : FsmState) (settings : Settings) (a r : Transition)
    → transition f s settings.thresholds ≡ some a
    → settle_on f s settings (some a) ≡ some r
    → (g : Facts) × (transition g s settings.thresholds ≡ some r)
settle_on-earned f s settings a r e h =
    elim (Option-cases (transition (unasked f) s settings.thresholds)) [
      | inl n ↦ (f, ground arith)
      | inr (b, n) ↦ elim (Bool-cases (held_back a.row_id && not (same_state b.to s))) [
        | inl k ↦ (unasked f, ground arith)
        | inr k ↦ (f, ground arith)
      ]
    ]

settle-transition :
    (f : Facts) (s : FsmState) (settings : Settings) (r : Transition)
    → settle f s settings ≡ some r
    → (g : Facts) × (transition g s settings.thresholds ≡ some r)
unfolding settle
settle-transition f s settings r h = elim (Option-cases (transition f s settings.thresholds)) [
  | inl e ↦ absurd (ground arith)
  | inr (a, e) ↦ settle_on-earned f s settings a r e (rw e at h)
]

leaves_to_pause :
    (g : Facts) (s : FsmState) (t : Thresholds) (r : Transition)
    → transition g s t ≡ some r
    → same_state r.to pause ≡ true
    → same_state s pause ≡ false
    → in_states s resumable ≡ true
leaves_to_pause g s0 t r e to from = refl
leaves_to_pause g s1 t r e to from = refl
leaves_to_pause g quote_only t r e to from = refl
leaves_to_pause g s2 t r e to from = refl
leaves_to_pause g s3 t r e to from = refl
leaves_to_pause g pause t r e to from = cc
leaves_to_pause g human_escalation t r e to from =
    let (stays, _) = terminal_stays g human_escalation t r refl e in ground arith
leaves_to_pause g exit t r e to from =
    let (stays, _) = terminal_stays g exit t r refl e in ground arith
leaves_to_pause g exit_advisory t r e to from =
    let (stays, _) = terminal_stays g exit_advisory t r refl e in ground arith
leaves_to_pause g data_erasure t r e to from =
    let (stays, _) = terminal_stays g data_erasure t r refl e in ground arith
leaves_to_pause g handoff t r e to from =
    let (stays, _) = terminal_stays g handoff t r refl e in ground arith

next_stack-WellFormed :
    (before to : FsmState) (slot : Option String) (stack : List Frame)
    → (same_state to pause ≡ true
        → same_state before pause ≡ false
        → in_states before resumable ≡ true)
    → WellFormed before stack
    → WellFormed to (next_stack before to slot stack)
unfolding next_stack
next_stack-WellFormed before to slot stack leaves h paused =
    elim (Bool-cases (same_state before pause)) [
      | inl b ↦ let was = h b in ground arith
      | inr b ↦ let can = leaves paused b in ground arith
    ]

next_stack-records :
    (before to : FsmState) (slot : Option String) (stack : List Frame)
    → same_state before pause ≡ false
    → same_state to pause ≡ true
    → paused_from_of to (next_stack before to slot stack) ≡ some before
unfolding next_stack
next_stack-records before to slot stack from paused = ground arith

next_stack-drops :
    (before to : FsmState) (slot : Option String) (stack : List Frame)
    → same_state before pause ≡ true
    → same_state to pause ≡ false
    → next_stack before to slot stack ≡ tail_frames stack
unfolding next_stack
next_stack-drops before to slot stack paused left = ground arith

-- `decide` keeps the session well formed: after every decision a paused session has on top of its
-- stack the frame of a state that it can resume to. The turn that pauses it records the state that
-- it leaves, so that the next turn's facts name this state as the one to come back to; and the turn
-- that leaves PAUSE takes the frame off again.
pub decide_keeps_stack :
    (session : SessionState) (pipeline : Option PipelineResult) (action : Option ActionType)
    (signals : List Signal) (routed : Routed) (settings : Settings) (d : Decision)
    → decide session pipeline action signals routed settings ≡ some d
    → WellFormed session.fsm_state session.stack
    → WellFormed d.session.fsm_state d.session.stack
      × (same_state session.fsm_state pause ≡ false
          → same_state d.session.fsm_state pause ≡ true
          → paused_from_of d.session.fsm_state d.session.stack ≡ some session.fsm_state)
      × (same_state session.fsm_state pause ≡ true
          → same_state d.session.fsm_state pause ≡ false
          → d.session.stack ≡ tail_frames session.stack)
unfolding decide decided_on
decide_keeps_stack session pipeline action signals routed settings d e h =
    let f = turn_facts session pipeline action signals settings in
    elim (Option-cases (settle f session.fsm_state settings)) [
      | inl n ↦ absurd (ground arith)
      | inr (r, settled) ↦
          let (g, moved) = settle-transition f session.fsm_state settings r settled in
          let kept =
            next_stack-WellFormed session.fsm_state r.to session.pending_slot session.stack
              (leaves_to_pause g session.fsm_state settings.thresholds r moved) h in
          let made : d ≡ decided_on session routed r = ground arith in
          rw made (
            kept,
            next_stack-records session.fsm_state r.to session.pending_slot session.stack,
            next_stack-drops session.fsm_state r.to session.pending_slot session.stack,
          )
    ]
