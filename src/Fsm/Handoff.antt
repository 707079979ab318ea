-- ===== src/Fsm/Handoff.antt =====
-- V7 and the S2 -> S3 gate: what has to hold for a hand-off and for a recommendation.
use suraksha_setu.Prelude.{
  ◌≡◌, refl, sym, ◌∙◌, ◌⊎◌, inl, inr, true, false, ◌&&◌, Option, none, some, arith, leb, ◌↔◌,
  Option-cases,
}
use suraksha_setu.Fsm.States.{FsmState, s0, s1, quote_only, s2, s3, pause, handoff, in_states}
use suraksha_setu.Fsm.Facts.{
  Facts, Selected, Eligibility, is_eligible, valid_p1, suitability_current,
}
use suraksha_setu.Fsm.Rows.{
  evaluation_rows, Thresholds, active, escalates, suitable, can_hand_off, in_uins,
  corrects_eligibility,
}
use suraksha_setu.Fsm.Transition.{
  first_match, invariants, Transition, transition, transition_within, resume_target,
}
use suraksha_setu.Fsm.Depth.{Resumable, resume_target-Resumable, within-Resumable, pause_outcome}

-- No cross-cutting row takes the turn away from S3.
pub record Undisturbed (f : Facts) (t : Thresholds) : Type 0 where
  pub not_withdrawn : f.withdraw ≡ false
  pub not_minor : f.minor ≡ false
  pub not_escalated : escalates f t ≡ false
  pub not_idle : f.inactivity_timeout ≡ false
  pub dependencies_up : f.dependency_down ≡ false
  pub consented : valid_p1 f ≡ true
  pub no_question : f.faq ≡ false
  pub no_objection : f.objection ≡ false
  pub not_ended : f.end_requested ≡ false

-- V7: a plan is chosen, its quote is valid, its disclosures are acknowledged, and the eligibility
-- engine found the customer eligible, for this plan among others.
pub record PlanChosen (f : Facts) : Type 0 where
  pub plan : Selected
  pub is_selected : f.selected ≡ some plan
  pub quote_valid : plan.quote_valid ≡ true
  pub acknowledged : f.acks_valid_for_selected ≡ true
  pub screened : Eligibility
  pub is_screened : f.eligibility ≡ some screened
  pub eligible : is_eligible (some screened.outcome) ≡ true
  pub listed : in_uins plan.uin screened.eligible_uins ≡ true

can_hand_off-PlanChosen : (f : Facts) (t : Thresholds) → can_hand_off f t ≡ true → PlanChosen f
unfolding can_hand_off
can_hand_off-PlanChosen f t h = elim (Option-cases f.selected) [
  | inl n ↦ absurd (ground arith)
  | inr (plan, chosen) ↦ elim (Option-cases f.eligibility) [
    | inl n ↦ absurd (ground arith)
    | inr (screened, e) ↦ record {
      plan = plan;
      is_selected = chosen;
      quote_valid = ground arith;
      acknowledged = ground arith;
      screened = screened;
      is_screened = e;
      eligible = ground arith;
      listed = ground arith;
    }
  ]
]

PlanChosen-can_hand_off : (f : Facts) (t : Thresholds) → PlanChosen f → can_hand_off f t ≡ true
unfolding can_hand_off
PlanChosen-can_hand_off f t c = rw (c.is_selected, c.is_screened) (ground arith)

pub record HandoffReady (f : Facts) (t : Thresholds) : Type 0 where
  pub undisturbed : Undisturbed f t
  pub uncorrected : f.correction ≡ none
  pub current : suitability_current f ≡ true
  pub options : f.no_options ≡ false
  pub not_declined : (f.explicit_decline && leb 1 f.rediscovery_loops) ≡ false
  pub no_delay : f.need_time ≡ false
  pub not_rejected : f.all_rejected ≡ false
  pub chosen : PlanChosen f

-- The same with V7 as the row's condition has it.
record Meets (f : Facts) (t : Thresholds) : Type 0 where
  undisturbed : Undisturbed f t
  uncorrected : f.correction ≡ none
  current : suitability_current f ≡ true
  options : f.no_options ≡ false
  not_declined : (f.explicit_decline && leb 1 f.rediscovery_loops) ≡ false
  no_delay : f.need_time ≡ false
  not_rejected : f.all_rejected ≡ false
  can : can_hand_off f t ≡ true

HandoffReady-Meets : (f : Facts) (t : Thresholds) → Meets f t → HandoffReady f t
HandoffReady-Meets f t m = record {
  undisturbed = m.undisturbed;
  uncorrected = m.uncorrected;
  current = m.current;
  options = m.options;
  not_declined = m.not_declined;
  no_delay = m.no_delay;
  not_rejected = m.not_rejected;
  chosen = can_hand_off-PlanChosen f t m.can;
}

Meets-HandoffReady : (f : Facts) (t : Thresholds) → HandoffReady f t → Meets f t
Meets-HandoffReady f t m = record {
  undisturbed = m.undisturbed;
  uncorrected = m.uncorrected;
  current = m.current;
  options = m.options;
  not_declined = m.not_declined;
  no_delay = m.no_delay;
  not_rejected = m.not_rejected;
  can = PlanChosen-can_hand_off f t m.chosen;
}

s3-handoff :
    (f : Facts) (t : Thresholds) (r : Transition)
    → transition_within 1 f s3 t ≡ some r
    → r.to ≡ handoff
    → HandoffReady f t
unfolding transition_within first_match evaluation_rows invariants
s3-handoff f t r e h = HandoffReady-Meets f t (ground arith)

handoff-s3 :
    (f : Facts) (t : Thresholds) (r : Transition)
    → transition_within 1 f s3 t ≡ some r
    → HandoffReady f t
    → r.to ≡ handoff
unfolding transition_within first_match evaluation_rows invariants
handoff-s3 f t r e h = let meets = Meets-HandoffReady f t h in ground arith

own-handoff-s3 :
    (f : Facts) (t : Thresholds) (s : FsmState) (u : Transition)
    → Resumable s
    → transition_within 1 f s t ≡ some u
    → u.to ≡ handoff
    → s ≡ s3
unfolding transition_within first_match evaluation_rows invariants
own-handoff-s3 f t s0 u h e n = ground arith
own-handoff-s3 f t s1 u h e n = ground arith
own-handoff-s3 f t quote_only u h e n = ground arith
own-handoff-s3 f t s2 u h e n = ground arith
own-handoff-s3 f t s3 u h e n = refl
own-handoff-s3 f t _ u h e n = cc

resume_target-s3 : (o : Option FsmState) → resume_target o ≡ s3 → o ≡ some s3
resume_target-s3 none e = cc
resume_target-s3 (some s3) e = refl
resume_target-s3 (some _) e = cc

-- The session stands in S3, or it is paused from S3 and this turn is the customer's.
abbrev pub StandsInS3 : Facts → FsmState → Type 0
StandsInS3 f s =
    (s ≡ s3) ⊎ ((s ≡ pause) × (f.paused_from ≡ some s3) × (f.inactivity_timeout ≡ false))

pause-handoff :
    (f : Facts) (t : Thresholds) (r : Transition)
    → transition f pause t ≡ some r
    → r.to ≡ handoff
    → StandsInS3 f pause × HandoffReady f t
unfolding transition
pause-handoff f t r e h = elim (pause_outcome 1 f t r e) [
  | inl (w, to) ↦ cc
  | inr (inl (w, x, to)) ↦ cc
  | inr (inr (inl (w, x, i, to))) ↦ cc
  | inr (inr (inr (w, x, i, (u, eu, to)))) ↦
      let target = resume_target f.paused_from in
      let at_s3 : target ≡ s3 =
        own-handoff-s3 f t target u (resume_target-Resumable f.paused_from) eu (sym to ∙ h) in
      (
        inr (refl, resume_target-s3 f.paused_from at_s3, i),
        s3-handoff f t u (rw at_s3 at eu) (sym to ∙ h),
      )
]

-- Out of every active state a hand-off is reached only from S3 (or resuming into it), and only
-- with everything that `HandoffReady` lists.
pub handoff_only_when_ready :
    (f : Facts) (s : FsmState) (t : Thresholds) (r : Transition)
    → in_states s active ≡ true
    → transition f s t ≡ some r
    → r.to ≡ handoff
    → StandsInS3 f s × HandoffReady f t
unfolding transition
handoff_only_when_ready f pause t r a e h = pause-handoff f t r e h
handoff_only_when_ready f s3 t r a e h =
    (inl refl, s3-handoff f t r (sym (within-Resumable 1 f s3 t refl) ∙ e) h)
handoff_only_when_ready f s0 t r a e h =
    cc (own-handoff-s3 f t s0 r refl (sym (within-Resumable 1 f s0 t refl) ∙ e) h)
handoff_only_when_ready f s1 t r a e h =
    cc (own-handoff-s3 f t s1 r refl (sym (within-Resumable 1 f s1 t refl) ∙ e) h)
handoff_only_when_ready f quote_only t r a e h =
    cc (own-handoff-s3 f t quote_only r refl (sym (within-Resumable 1 f quote_only t refl) ∙ e) h)
handoff_only_when_ready f s2 t r a e h =
    cc (own-handoff-s3 f t s2 r refl (sym (within-Resumable 1 f s2 t refl) ∙ e) h)
handoff_only_when_ready f _ t r a e h = cc

-- In S3 the list is also enough: the session is handed off exactly when it is met.
pub handoff_when_ready :
    (f : Facts) (t : Thresholds) (r : Transition)
    → transition f s3 t ≡ some r
    → HandoffReady f t
    → r.to ≡ handoff
unfolding transition
handoff_when_ready f t r e h = handoff-s3 f t r (sym (within-Resumable 1 f s3 t refl) ∙ e) h

-- The S2 -> S3 gate.
pub record RecommendReady (f : Facts) (t : Thresholds) : Type 0 where
  pub undisturbed : Undisturbed f t
  pub eligibility_stands : corrects_eligibility f.correction ≡ false
  pub no_delay : f.need_time ≡ false
  pub suits : suitable f t ≡ true

s2-s3 :
    (f : Facts) (t : Thresholds) (r : Transition)
    → transition_within 1 f s2 t ≡ some r
    → (r.to ≡ s3) ↔ RecommendReady f t
unfolding transition_within first_match evaluation_rows invariants
s2-s3 f t r e = (λ h. ground arith, λ h. ground arith)

-- From S2 the recommendation is reached exactly when no cross-cutting row takes the turn, the
-- eligibility facts stand, and the suitability record is current, FIT, sufficient or elected, and
-- not amber without a confirmation.
pub recommend_exactly_when :
    (f : Facts) (t : Thresholds) (r : Transition)
    → transition f s2 t ≡ some r
    → (r.to ≡ s3) ↔ RecommendReady f t
unfolding transition
recommend_exactly_when f t r e = s2-s3 f t r (sym (within-Resumable 1 f s2 t refl) ∙ e)
