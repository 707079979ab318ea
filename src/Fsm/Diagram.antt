-- ===== src/Fsm/Diagram.antt =====
-- The diagram of the states: which state a decision can lead to from which.
use suraksha_setu.Prelude.{◌≡◌, true, some, List, [], ◌∷◌, arith}
use suraksha_setu.Fsm.States.{
  FsmState, s0, s1, quote_only, s2, s3, human_escalation, pause, exit, exit_advisory, data_erasure,
  handoff, in_states,
}
use suraksha_setu.Fsm.Facts.{Facts}
use suraksha_setu.Fsm.Rows.{evaluation_rows, Thresholds}
use suraksha_setu.Fsm.Transition.{first_match, invariants, Transition, transition_within}
use suraksha_setu.Fsm.Depth.{Resumable}

-- The states that a step out of an engaged state can reach (its own state included).
abbrev pub successors : FsmState → List FsmState
successors s0 = s0 ∷ s1 ∷ quote_only ∷ pause ∷ exit ∷ human_escalation ∷ data_erasure ∷ []
successors s1 = s1 ∷ s0 ∷ s2 ∷ quote_only ∷ pause ∷ exit ∷ human_escalation ∷ data_erasure ∷ []
successors quote_only =
    quote_only ∷ s0 ∷ s1 ∷ s2 ∷ pause ∷ exit ∷ human_escalation ∷ data_erasure ∷ []
successors s2 =
    s2 ∷ s0 ∷ s1 ∷ s3 ∷ pause ∷ exit ∷ exit_advisory ∷ human_escalation ∷ data_erasure ∷ []
successors s3 = s3 ∷ s0 ∷ s1 ∷ s2 ∷ pause ∷ exit ∷ handoff ∷ human_escalation ∷ data_erasure ∷ []
successors s = s ∷ []

own-successors :
    (f : Facts) (t : Thresholds) (s : FsmState) (u : Transition)
    → Resumable s
    → transition_within 1 f s t ≡ some u
    → in_states u.to (successors s) ≡ true
unfolding transition_within first_match evaluation_rows invariants
own-successors f t s0 u h e = ground arith
own-successors f t s1 u h e = ground arith
own-successors f t quote_only u h e = ground arith
own-successors f t s2 u h e = ground arith
own-successors f t s3 u h e = ground arith
own-successors f t _ u h e = cc
