-- ===== src/Fsm/Transition.antt =====
-- fsm/transition.py: transition(facts, state, thresholds) -> Transition.
use suraksha_setu.Prelude.{
  ℕ, zero, suc, String, Bool, not, ◌||◌, Option, none, some, List, [], ◌∷◌, ◌str_eq◌, if◌then◌else◌,
}
use suraksha_setu.Fsm.States.{
  FsmState, s0, s3, data_erasure, same_state, in_states, terminal, resumable, needs_p1,
}
use suraksha_setu.Fsm.Facts.{Facts, valid_p1, suitability_current}
use suraksha_setu.Fsm.Rows.{Thresholds, goto, stay, resume, Subgraph, Row, reason, evaluation_rows}

pub record Transition : Type 0 where
  pub to : FsmState
  pub row_id : String
  pub reason_code : String
  pub subgraph : Option Subgraph
  pub invariants : List (String × Bool)

-- `next(r for r in rows if r.condition(facts, thresholds))`; `none` is `StopIteration`.
unfoldable pub first_match : List Row → Facts → Thresholds → Option Row
first_match [] f t = none
first_match (r ∷ rs) f t = let rest = first_match rs f t in if r.condition f t then some r else rest

-- `rows[-1].id`
abbrev pub last_id : List Row → String
last_id [] = ""
last_id (r ∷ []) = r.id
last_id (r ∷ s ∷ rs) = last_id (s ∷ rs)

unfoldable pub invariants : Facts → FsmState → FsmState → List (String × Bool)
unfolding valid_p1 suitability_current
invariants f state to =
    let honoured = not f.withdraw || same_state to data_erasure in
    if in_states state terminal
    then ("I5", honoured) ∷ []
    else ("I1", not (in_states to needs_p1) || valid_p1 f)
      ∷ ("I2", not (same_state to s3) || suitability_current f)
      ∷ ("I5", honoured)
      ∷ []

abbrev pub resume_target : Option FsmState → FsmState
resume_target none = s0
resume_target (some s) = if in_states s resumable then s else s0

abbrev pub decided : Facts → FsmState → Row → FsmState → Transition
decided f state row to = record {
  to = to;
  row_id = row.id;
  reason_code = reason row f;
  subgraph = row.subgraph;
  invariants = invariants f state to;
}

-- PAUSE.R: the resumed state's rows moved on, or the row that resumed is named.
abbrev pub resumed : Facts → Row → FsmState → Transition → Transition
resumed f row target r =
    if not (r.row_id str_eq last_id (evaluation_rows target))
    then r
    else record r { row_id = row.id; reason_code = reason row f }

abbrev pub map_resumed : Facts → Row → FsmState → Option Transition → Option Transition
map_resumed f row target none = none
map_resumed f row target (some r) = some (resumed f row target r)

-- The recursion of `transition` on the paused-from state, with fuel for its depth. `none` stands
-- for `StopIteration` or for a recursion deeper than the fuel.
unfoldable pub transition_within : ℕ → Facts → FsmState → Thresholds → Option Transition
transition_within zero f state t = none
transition_within (suc n) f state t = elim (first_match (evaluation_rows state) f t) [
  | none ↦ none
  | some row ↦ elim row.to [
    | goto to ↦ some (decided f state row to)
    | stay ↦ some (decided f state row state)
    | resume ↦
        map_resumed f row (resume_target f.paused_from)
          (transition_within n f (resume_target f.paused_from) t)
  ]
]

unfoldable pub transition : Facts → FsmState → Thresholds → Option Transition
unfolding transition_within
transition f state t = transition_within 2 f state t
