-- ===== src/Fsm/Depth.antt =====
-- The recursion of `transition`: one step decides in every state but PAUSE, and PAUSE needs a
-- second step in the state that it resumes.
use suraksha_setu.Prelude.{
  ℕ, suc, ◌≡◌, ◌||◌, ◌≢◌, refl, ◌⊎◌, inl, inr, true, false, Option, none, some, arith, Option-cases,
  ◌∙◌,
}
use suraksha_setu.Fsm.States.{
  FsmState, s0, s1, quote_only, s2, s3, human_escalation, pause, exit, exit_advisory, data_erasure,
  handoff, in_states, resumable, terminal,
}
use suraksha_setu.Fsm.Facts.{Facts}
use suraksha_setu.Fsm.Rows.{evaluation_rows, Thresholds, escalates}
use suraksha_setu.Fsm.Transition.{
  first_match, invariants, Transition, transition_within, resume_target, invariants,
}

abbrev pub Resumable : FsmState → Type 0
Resumable s = in_states s resumable ≡ true

pub resume_target-Resumable : (o : Option FsmState) → Resumable (resume_target o)
resume_target-Resumable none = refl
resume_target-Resumable (some s0) = refl
resume_target-Resumable (some _) = refl

-- In a state that PAUSE can resume, the fuel beyond the first step is not used.
pub within-Resumable :
    (n : ℕ) (f : Facts) (s : FsmState) (t : Thresholds)
    → Resumable s
    → transition_within (suc n) f s t ≡ transition_within 1 f s t
unfolding transition_within first_match evaluation_rows invariants
within-Resumable n f s0 t h = ground arith
within-Resumable n f s1 t h = ground arith
within-Resumable n f quote_only t h = ground arith
within-Resumable n f s2 t h = ground arith
within-Resumable n f s3 t h = ground arith
within-Resumable n f _ t h = cc

within_one-ne-none :
    (f : Facts) (s : FsmState) (t : Thresholds) → Resumable s → transition_within 1 f s t ≢ none
unfolding transition_within first_match evaluation_rows invariants
within_one-ne-none f s0 t h = ground arith
within_one-ne-none f s1 t h = ground arith
within_one-ne-none f quote_only t h = ground arith
within_one-ne-none f s2 t h = ground arith
within_one-ne-none f s3 t h = ground arith
within_one-ne-none f _ t h = cc

-- One step returns, in a state that PAUSE can resume.
pub within_one-some :
    (f : Facts) (s : FsmState) (t : Thresholds)
    → Resumable s
    → (r : Transition) × (transition_within 1 f s t ≡ some r)
within_one-some f s t h = elim (Option-cases (transition_within 1 f s t)) [
  | inl e ↦ absurd (within_one-ne-none f s t h e)
  | inr p ↦ p
]

-- What PAUSE's own rows decide, and what is left to the state that it resumes.
abbrev pub PauseOutcome : ℕ → Facts → Thresholds → Transition → Type 0
PauseOutcome n f t r =
    ((f.withdraw || f.minor) ≡ true) × (r.to ≡ data_erasure)
    ⊎ (((f.withdraw || f.minor) ≡ false) × (escalates f t ≡ true) × (r.to ≡ human_escalation)
        ⊎ (((f.withdraw || f.minor) ≡ false)
              × (escalates f t ≡ false)
              × (f.inactivity_timeout ≡ true)
              × (r.to ≡ pause)
            ⊎ (((f.withdraw || f.minor) ≡ false)
                × (escalates f t ≡ false)
                × (f.inactivity_timeout ≡ false)
                × ((u : Transition) × (transition_within n f (resume_target f.paused_from) t
                      ≡ some u)
                    × (r.to ≡ u.to)))))

pub pause_outcome :
    (n : ℕ) (f : Facts) (t : Thresholds) (r : Transition)
    → transition_within (suc n) f pause t ≡ some r
    → PauseOutcome n f t r
unfolding transition_within first_match evaluation_rows invariants
pause_outcome n f t r e =
    elim (Option-cases (transition_within n f (resume_target f.paused_from) t)) [
      | inl x ↦ ground arith
      | inr (u, x) ↦ ground arith
    ]

pause-ne-none :
    (n : ℕ) (f : Facts) (t : Thresholds) (u : Transition)
    → transition_within n f (resume_target f.paused_from) t ≡ some u
    → transition_within (suc n) f pause t ≢ none
unfolding transition_within first_match evaluation_rows invariants
pause-ne-none n f t u e = ground arith

pause_fuel :
    (m k : ℕ) (f : Facts) (t : Thresholds)
    → transition_within m f (resume_target f.paused_from) t
      ≡ transition_within k f (resume_target f.paused_from) t
    → transition_within (suc m) f pause t ≡ transition_within (suc k) f pause t
unfolding transition_within first_match evaluation_rows invariants
pause_fuel m k f t e = ground arith

some_of_ne_none {ℓ} : {A : Type ℓ} (o : Option A) → o ≢ none → (a : A) × (o ≡ some a)
some_of_ne_none none h = absurd (h refl)
some_of_ne_none (some a) h = (a, refl)

-- The same result for every fuel from two steps on.
abbrev pub Settles : Facts → FsmState → Thresholds → Type 0
Settles f s t = (r : Transition) × ((n : ℕ) → transition_within (suc (suc n)) f s t ≡ some r)

Resumable-Settles : (f : Facts) (s : FsmState) (t : Thresholds) → Resumable s → Settles f s t
Resumable-Settles f s t h =
    let (r, e) = within_one-some f s t h in (r, λ n. within-Resumable (suc n) f s t h ∙ e)

pause-Settles : (f : Facts) (t : Thresholds) → Settles f pause t
pause-Settles f t =
    let target = resume_target f.paused_from in
    let h = resume_target-Resumable f.paused_from in
    let (u, e) = within_one-some f target t h in
    let (r, er) = some_of_ne_none (transition_within 2 f pause t) (pause-ne-none 1 f t u e) in
    (r, λ n. pause_fuel (suc n) 1 f t (within-Resumable n f target t h) ∙ er)

terminal-Settles :
    (f : Facts) (s : FsmState) (t : Thresholds) → in_states s terminal ≡ true → Settles f s t
unfolding transition_within first_match evaluation_rows invariants
terminal-Settles f human_escalation t h = (_, λ n. refl)
terminal-Settles f exit t h = (_, λ n. refl)
terminal-Settles f exit_advisory t h = (_, λ n. refl)
terminal-Settles f data_erasure t h = (_, λ n. refl)
terminal-Settles f handoff t h = (_, λ n. refl)
terminal-Settles f _ t h = cc

-- For all facts and in every state `transition` returns: its recursion is at most two calls deep,
-- so any fuel from two on gives one and the same result.
pub transition-Settles : (f : Facts) (s : FsmState) (t : Thresholds) → Settles f s t
transition-Settles f s0 t = Resumable-Settles f s0 t refl
transition-Settles f s1 t = Resumable-Settles f s1 t refl
transition-Settles f quote_only t = Resumable-Settles f quote_only t refl
transition-Settles f s2 t = Resumable-Settles f s2 t refl
transition-Settles f s3 t = Resumable-Settles f s3 t refl
transition-Settles f pause t = pause-Settles f t
transition-Settles f human_escalation t = terminal-Settles f human_escalation t refl
transition-Settles f exit t = terminal-Settles f exit t refl
transition-Settles f exit_advisory t = terminal-Settles f exit_advisory t refl
transition-Settles f data_erasure t = terminal-Settles f data_erasure t refl
transition-Settles f handoff t = terminal-Settles f handoff t refl
