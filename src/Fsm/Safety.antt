-- ===== src/Fsm/Safety.antt =====
-- What `transition` promises in every state: it returns, and it keeps I1, I2 and I5.
use suraksha_setu.Prelude.{◌≡◌, refl, sym, ◌∙◌, inl, inr, true, false, ◌||◌, some, arith}
use suraksha_setu.Fsm.States.{
  FsmState, s0, s1, quote_only, s2, s3, human_escalation, pause, data_erasure, in_states, needs_p1,
}
use suraksha_setu.Fsm.Facts.{Facts, valid_p1, suitability_current}
use suraksha_setu.Fsm.Rows.{evaluation_rows, Thresholds, active, escalates}
use suraksha_setu.Fsm.Transition.{
  first_match, invariants, Transition, transition, transition_within, resume_target, invariants,
}
use suraksha_setu.Fsm.Depth.{Resumable, resume_target-Resumable, within-Resumable, pause_outcome}

module _ (f : Facts) (t : Thresholds) (P : FsmState → Type 0)
    (own : (s : FsmState) (u : Transition)
      → Resumable s
      → transition_within 1 f s t ≡ some u
      → P u.to)
    (erased : (f.withdraw || f.minor) ≡ true → P data_erasure)
    (escalated : (f.withdraw || f.minor) ≡ false → escalates f t ≡ true → P human_escalation)
    (kept : (f.withdraw || f.minor) ≡ false
      → escalates f t ≡ false
      → f.inactivity_timeout ≡ true
      → P pause) where
  pause_induction : (r : Transition) → transition f pause t ≡ some r → P r.to
  unfolding transition
  pause_induction r e = elim (pause_outcome 1 f t r e) [
    | inl (w, to) ↦ rw to (erased w)
    | inr (inl (w, h, to)) ↦ rw to (escalated w h)
    | inr (inr (inl (w, h, i, to))) ↦ rw to (kept w h i)
    | inr (inr (inr (w, h, i, (u, eu, to)))) ↦
        rw to (own (resume_target f.paused_from) u (resume_target-Resumable f.paused_from) eu)
  ]

  pub active_induction :
      (s : FsmState) (r : Transition)
      → in_states s active ≡ true
      → transition f s t ≡ some r
      → P r.to
  unfolding transition
  active_induction s0 r h e = own s0 r refl (sym (within-Resumable 1 f s0 t refl) ∙ e)
  active_induction s1 r h e = own s1 r refl (sym (within-Resumable 1 f s1 t refl) ∙ e)
  active_induction quote_only r h e =
      own quote_only r refl (sym (within-Resumable 1 f quote_only t refl) ∙ e)
  active_induction s2 r h e = own s2 r refl (sym (within-Resumable 1 f s2 t refl) ∙ e)
  active_induction s3 r h e = own s3 r refl (sym (within-Resumable 1 f s3 t refl) ∙ e)
  active_induction pause r h e = pause_induction r e
  active_induction _ r h e = cc

-- I1: from every active state, a state that needs P1 is reached only with a P1 consent record that
-- is valid now.
abbrev NeedsConsent : Facts → FsmState → Type 0
NeedsConsent f to = in_states to needs_p1 ≡ true → valid_p1 f ≡ true

own-NeedsConsent :
    (f : Facts) (t : Thresholds) (s : FsmState) (u : Transition)
    → Resumable s
    → transition_within 1 f s t ≡ some u
    → NeedsConsent f u.to
unfolding transition_within first_match evaluation_rows invariants
own-NeedsConsent f t s0 u h e n = ground arith
own-NeedsConsent f t s1 u h e n = ground arith
own-NeedsConsent f t quote_only u h e n = ground arith
own-NeedsConsent f t s2 u h e n = ground arith
own-NeedsConsent f t s3 u h e n = ground arith
own-NeedsConsent f t _ u h e n = cc

-- I1: a transition out of an active state, PAUSE included, whose target needs the P1 consent is
-- taken only when the customer's P1 consent is valid.
pub consent_first :
    (f : Facts) (s : FsmState) (t : Thresholds) (r : Transition)
    → in_states s active ≡ true
    → transition f s t ≡ some r
    → in_states r.to needs_p1 ≡ true
    → valid_p1 f ≡ true
consent_first f s t r =
    active_induction f t (NeedsConsent f) (own-NeedsConsent f t) (λ w n. cc) (λ w h n. cc)
      (λ w h i n. cc) s r

-- I2
abbrev NeedsSuitability : Facts → FsmState → Type 0
NeedsSuitability f to = to ≡ s3 → suitability_current f ≡ true

own-NeedsSuitability :
    (f : Facts) (t : Thresholds) (s : FsmState) (u : Transition)
    → Resumable s
    → transition_within 1 f s t ≡ some u
    → NeedsSuitability f u.to
unfolding transition_within first_match evaluation_rows invariants
own-NeedsSuitability f t s0 u h e n = ground arith
own-NeedsSuitability f t s1 u h e n = ground arith
own-NeedsSuitability f t quote_only u h e n = ground arith
own-NeedsSuitability f t s2 u h e n = ground arith
own-NeedsSuitability f t s3 u h e n = ground arith
own-NeedsSuitability f t _ u h e n = cc

-- I2: from every active state, S3 is reached only with a suitability record whose inputs hash is
-- the hash of the confirmed needs.
pub suitability_first :
    (f : Facts) (s : FsmState) (t : Thresholds) (r : Transition)
    → in_states s active ≡ true
    → transition f s t ≡ some r
    → r.to ≡ s3
    → suitability_current f ≡ true
suitability_first f s t r =
    active_induction f t (NeedsSuitability f) (own-NeedsSuitability f t) (λ w n. cc) (λ w h n. cc)
      (λ w h i n. cc) s r

-- I5
abbrev Honours : Facts → FsmState → Type 0
Honours f to = f.withdraw ≡ true → to ≡ data_erasure

own-Honours :
    (f : Facts) (t : Thresholds) (s : FsmState) (u : Transition)
    → Resumable s
    → transition_within 1 f s t ≡ some u
    → Honours f u.to
unfolding transition_within first_match evaluation_rows invariants
own-Honours f t s0 u h e n = ground arith
own-Honours f t s1 u h e n = ground arith
own-Honours f t quote_only u h e n = ground arith
own-Honours f t s2 u h e n = ground arith
own-Honours f t s3 u h e n = ground arith
own-Honours f t _ u h e n = cc

pub withdrawal-Honours :
    (f : Facts) (s : FsmState) (t : Thresholds) (r : Transition)
    → in_states s active ≡ true
    → transition f s t ≡ some r
    → Honours f r.to
withdrawal-Honours f s t r =
    active_induction f t (Honours f) (own-Honours f t) (λ w n. refl) (λ w h n. ground arith)
      (λ w h i n. ground arith) s r

-- The flags that a decision carries are those of `invariants` at its target, from a state that is
-- not terminal.
abbrev FlagsOf : Facts → Transition → Type 0
FlagsOf f r = r.invariants ≡ invariants f s0 r.to

own-FlagsOf :
    (f : Facts) (t : Thresholds) (s : FsmState) (u : Transition)
    → Resumable s
    → transition_within 1 f s t ≡ some u
    → FlagsOf f u
unfolding transition_within first_match evaluation_rows invariants
own-FlagsOf f t s0 u h e = ground arith
own-FlagsOf f t s1 u h e = ground arith
own-FlagsOf f t quote_only u h e = ground arith
own-FlagsOf f t s2 u h e = ground arith
own-FlagsOf f t s3 u h e = ground arith
own-FlagsOf f t _ u h e = cc
