-- ===== src/Fsm/Priority.antt =====
-- The hard blocks come before everything else that a turn could do (I5, V2, V5), a pause needs
-- consent (V3), and a closed session stays closed.
use suraksha_setu.Prelude.{◌≡◌, sym, ◌∙◌, Bool, true, false, ◌||◌, some, arith}
use suraksha_setu.Fsm.States.{
  FsmState, s0, s1, quote_only, s2, s3, human_escalation, pause, exit, exit_advisory, data_erasure,
  handoff, in_states, terminal, resumable,
}
use suraksha_setu.Fsm.Facts.{Facts, consent_given_ever, eligibility_outcome}
use suraksha_setu.Fsm.Rows.{evaluation_rows, Thresholds, active, escalates, is_erasure_exit}
use suraksha_setu.Fsm.Transition.{
  first_match, invariants, Transition, transition, transition_within,
}
use suraksha_setu.Fsm.Depth.{Resumable, within-Resumable}
use suraksha_setu.Fsm.Safety.{active_induction}

abbrev pub must_erase : Facts → Bool
must_erase f = f.withdraw || f.minor

pub record HardBlocks (f : Facts) (t : Thresholds) (to : FsmState) : Type 0 where
  pub erases : must_erase f ≡ true → to ≡ data_erasure
  pub erased_for :
      to ≡ data_erasure
      → (must_erase f || is_erasure_exit (eligibility_outcome f.eligibility)) ≡ true
  pub escalates_next : must_erase f ≡ false → escalates f t ≡ true → to ≡ human_escalation

own-HardBlocks :
    (f : Facts) (t : Thresholds) (s : FsmState) (u : Transition)
    → Resumable s
    → transition_within 1 f s t ≡ some u
    → HardBlocks f t u.to
unfolding transition_within first_match evaluation_rows invariants
own-HardBlocks f t s0 u h e = ground arith
own-HardBlocks f t s1 u h e = ground arith
own-HardBlocks f t quote_only u h e = ground arith
own-HardBlocks f t s2 u h e = ground arith
own-HardBlocks f t s3 u h e = ground arith
own-HardBlocks f t _ u h e = cc

-- From every active state: a withdrawal or an under-18 signal goes to the erasure; nothing else
-- does but the engine's own under-18 outcome; and where neither is there, a mandatory trigger, a
-- request for a person, frustration or low confidence goes to a person.
pub transition-HardBlocks :
    (f : Facts) (s : FsmState) (t : Thresholds) (r : Transition)
    → in_states s active ≡ true
    → transition f s t ≡ some r
    → HardBlocks f t r.to
transition-HardBlocks f s t r =
    active_induction f t (HardBlocks f t) (own-HardBlocks f t) (λ w. ground arith)
      (λ w h. ground arith) (λ w h i. ground arith) s r

own-pause-consent :
    (f : Facts) (t : Thresholds) (s : FsmState) (u : Transition)
    → transition_within 1 f s t ≡ some u
    → Resumable s
    → u.to ≡ pause
    → consent_given_ever f ≡ true
unfolding transition_within first_match evaluation_rows invariants
own-pause-consent f t s0 u e h n = ground arith
own-pause-consent f t s1 u e h n = ground arith
own-pause-consent f t quote_only u e h n = ground arith
own-pause-consent f t s2 u e h n = ground arith
own-pause-consent f t s3 u e h n = ground arith
own-pause-consent f t _ u e h n = cc

-- V3: a session that runs is paused (by inactivity, a dependency down or a deferral) only once
-- there has been a consent.
pub pause_after_consent :
    (f : Facts) (s : FsmState) (t : Thresholds) (r : Transition)
    → in_states s resumable ≡ true
    → transition f s t ≡ some r
    → r.to ≡ pause
    → consent_given_ever f ≡ true
unfolding transition
pause_after_consent f s t r h e = own-pause-consent f t s r (sym (within-Resumable 1 f s t h) ∙ e) h

-- No row leaves a terminal state, whatever the facts.
pub terminal_stays :
    (f : Facts) (s : FsmState) (t : Thresholds) (r : Transition)
    → in_states s terminal ≡ true
    → transition f s t ≡ some r
    → (r.to ≡ s) × (r.reason_code ≡ "STAY")
unfolding transition first_match evaluation_rows invariants
terminal_stays f human_escalation t r h e = ground arith
terminal_stays f exit t r h e = ground arith
terminal_stays f exit_advisory t r h e = ground arith
terminal_stays f data_erasure t r h e = ground arith
terminal_stays f handoff t r h e = ground arith
terminal_stays f _ t r h e = cc
