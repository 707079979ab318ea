-- ===== src/Needs/Bound.antt =====
-- graph/states/s2.py: a needs record comes to be bound only by a yes to the summary, and a yes to the
-- summary that was just shown binds it.
use suraksha_setu.Prelude.{
  ℕ, String, ◌≡◌, refl, sym, ◌∙◌, Bool, true, false, not, ◌&&◌, ◌||◌, Option, none, some, List, [],
  ◌∷◌, ◌str_eq◌, arith, Bool-cases, inl, inr, ◌⊎◌, ltb,
}
use suraksha_setu.Prelude.Dict.{lookup}
use suraksha_setu.Prelude.Texts.{in_texts}
use suraksha_setu.Turn.State.{EligibilityResult}
use suraksha_setu.Screening.State.{
  Value, SlotStatus, confirmed, is_confirmed, Answer, Understood, answered, several, unusable,
  domain_down, left_open, Prefix, same_prefix, RequiredAttribute, PromptId, readback_prompt,
  ask_prompt, confirm_prompt, fix_prompt, advisor_prompt, period_prompt, short_prompt, elect_prompt,
  amber_prompt, done_prompt, other_prompt, SlotCandidate, HeldNeeds, TurnInput, Setup, Screen,
  Result, ok, raised, M, after,
}
use suraksha_setu.Screening.Take.{
  is_rule, is_under_age, said_again, is_ill, status_of, note, disclosed, write, record_answer,
  take_understood, take,
}
use suraksha_setu.Screening.Respond.{is_readback, said, has_minor}
use suraksha_setu.Screening.Evaluate.{
  corrections, take_each, signal_correction, correct_by, correction, same_known,
}
use suraksha_setu.Screening.Kept.{Property, KeptByWrites}
use suraksha_setu.Needs.Setup.{NeedsRules, setup_of}
use suraksha_setu.Needs.Own.{is_bound}
use suraksha_setu.Needs.Node.{screen_of, node}
use suraksha_setu.Needs.Kept.{KeptByNeeds}
use suraksha_setu.Needs.NodeKept.{correction-Keeps, node-Holds}

module _ (screening : Setup) where
  SamePrompt : Screen → Screen → Type 0
  SamePrompt s t = t.last_prompt_id ≡ s.last_prompt_id

  record_answer-SamePrompt :
      (slot : String) (confidence : ℕ) (a : Answer) (s : Screen)
      → SamePrompt s (record_answer screening slot confidence a s)
  unfolding SamePrompt record_answer write disclosed note
  record_answer-SamePrompt slot confidence a s =
      elim (Bool-cases ((slot str_eq "health_flags") && is_ill a.value)) [
        | inl e ↦ rw e refl
        | inr e ↦ rw e refl
      ]

  take_understood-SamePrompt :
      (slot : String) (confidence : ℕ) (u : Understood) (s : Screen)
      → SamePrompt s (take_understood screening slot confidence u s).1
  unfolding SamePrompt take_understood
  take_understood-SamePrompt slot confidence (several found) s = refl
  take_understood-SamePrompt slot confidence unusable s = refl
  take_understood-SamePrompt slot confidence domain_down s = refl
  take_understood-SamePrompt slot confidence (left_open amount) s = refl
  take_understood-SamePrompt slot confidence (answered a) s =
      elim (Bool-cases (is_under_age slot a.value)) [
        | inl y ↦ rw y refl
        | inr y ↦ rw y (elim (Bool-cases (said_again (lookup slot s.known) a.value)) [
          | inl k ↦ rw k refl
          | inr k ↦
              rw k
                (record_answer-SamePrompt slot confidence a (record s { filled = slot ∷ s.filled }))
        ])
      ]

module _ (screening : Setup) (engine : List (String × Value) → Option EligibilityResult) where
  take-SamePrompt :
      (slot evidence : String) (raw : Value) (confidence : ℕ) (s : Screen)
      → SamePrompt screening s (take screening slot raw evidence confidence s).1
  unfolding SamePrompt take
  take-SamePrompt slot evidence raw confidence s =
      elim (Bool-cases (not (is_rule slot screening.attrs || in_texts slot screening.extra))) [
        | inl r ↦ rw r refl
        | inr r ↦ elim (Bool-cases (ltb confidence screening.settings.confidence_readback_floor)) [
          | inl c ↦ rw (r, c) refl
          | inr c ↦
              rw (r, c)
                (take_understood-SamePrompt screening slot confidence
                  (screening.understand slot raw evidence) s)
        ]
      ]

  SamePrompt-after :
      (s : Screen) (r : Result Bool × Screen) (f : M (Unit {0}))
      → SamePrompt screening s r.1
      → ((t : Screen) → SamePrompt screening t (f t).1)
      → SamePrompt screening s (after r (λ taken. f)).1
  unfolding SamePrompt
  SamePrompt-after s (ok b, t) f e k = k t ∙ e
  SamePrompt-after s (raised, t) f e k = e

  take_each-SamePrompt :
      (cs : List SlotCandidate) (s : Screen)
      → SamePrompt screening s (take_each screening engine cs s).1
  unfolding SamePrompt take_each
  take_each-SamePrompt [] s = refl
  take_each-SamePrompt (c ∷ cs) s =
      SamePrompt-after s (take screening c.slot c.value c.evidence_span c.confidence s)
        (take_each screening engine cs)
        (take-SamePrompt c.slot c.evidence_span c.value c.confidence s) (take_each-SamePrompt cs)

  signalled-SamePrompt :
      (s : Screen) (r : Result (Unit {0}) × Screen)
      → SamePrompt screening s r.1
      → SamePrompt screening s
          (after r (λ done t. (ok tt, signal_correction screening engine s.known t))).1
  unfolding SamePrompt signal_correction
  signalled-SamePrompt s (ok done, t) e =
      elim (Bool-cases (not (has_minor t.signals) && not (same_known t.known s.known))) [
        | inl k ↦ rw k e
        | inr k ↦ rw k e
      ]
  signalled-SamePrompt s (raised, t) e = e

  correct_by-SamePrompt :
      (cs : List SlotCandidate) (is_valid : Bool) (s : Screen)
      → SamePrompt screening s (correct_by screening engine cs is_valid s).1
  unfolding SamePrompt correct_by
  correct_by-SamePrompt [] is_valid s = refl
  correct_by-SamePrompt (c ∷ cs) false s = refl
  correct_by-SamePrompt (c ∷ cs) true s =
      signalled-SamePrompt s (take_each screening engine (c ∷ cs) s)
        (take_each-SamePrompt (c ∷ cs) s)

abbrev pub is_summary : Option PromptId → Bool
is_summary (some (readback_prompt prefix)) = same_prefix prefix Prefix.s2
is_summary _ = false

summary_of :
    (setup : Setup) (input : TurnInput) (prompt : Option PromptId)
    → setup.prefix ≡ Prefix.s2
    → is_readback setup input prompt ≡ true
    → is_summary prompt ≡ true
summary_of setup input (some (readback_prompt prefix)) e h = let k = rw e at h in k
summary_of setup input none e h = absurd (ground arith)
summary_of setup input (some (ask_prompt p slot)) e h = absurd (ground arith)
summary_of setup input (some (confirm_prompt p slot)) e h = absurd (ground arith)
summary_of setup input (some (fix_prompt p)) e h = absurd (ground arith)
summary_of setup input (some (advisor_prompt p)) e h = absurd (ground arith)
summary_of setup input (some (period_prompt slot n)) e h = absurd (ground arith)
summary_of setup input (some short_prompt) e h = absurd (ground arith)
summary_of setup input (some elect_prompt) e h = absurd (ground arith)
summary_of setup input (some amber_prompt) e h = absurd (ground arith)
summary_of setup input (some done_prompt) e h = absurd (ground arith)
summary_of setup input (some (other_prompt t)) e h = absurd (ground arith)

-- With no bound record before, only a yes to the summary.
abbrev ByYes : Option HeldNeeds → Option PromptId → TurnInput → Property
ByYes before prompt input known rows engine needs result count =
    is_bound needs ≡ true
    → (is_bound before ≡ true) ⊎ ((is_summary prompt ≡ true) × (said input ≡ some true))

write-ByYes :
    (setup : Setup) (before : Option HeldNeeds) (prompt : Option PromptId) (input : TurnInput)
    (slot : String) (value : Value) (status : SlotStatus) (confidence : ℕ) (s : Screen)
    → (is_bound s.needs ≡ true
        → (is_bound before ≡ true) ⊎ ((is_summary prompt ≡ true) × (said input ≡ some true)))
    → is_bound (write setup slot value status confidence s).needs ≡ true
    → (is_bound before ≡ true) ⊎ ((is_summary prompt ≡ true) × (said input ≡ some true))
unfolding write
write-ByYes setup before prompt input slot value status confidence s h =
    elim (Bool-cases (not (is_confirmed status) && in_texts slot setup.needs_slots)) [
      | inl d ↦ rw d (λ k. absurd (ground arith))
      | inr d ↦ rw d h
    ]

module _ (rules : NeedsRules) (before : Option HeldNeeds) (prompt : Option PromptId)
    (input : TurnInput) where
  kept_by_yes :
      (required : List RequiredAttribute)
      → KeptByNeeds (setup_of rules required) input prompt (ByYes before prompt input)
  kept_by_yes required = record {
    on_unbound = λ s e k. let clash : true ≡ false = sym k ∙ e in absurd (ground arith);
    on_engine = λ e s h. h;
    on_unconfirmed = λ slot value status confidence s c h.
        write-ByYes (setup_of rules required) before prompt input slot value status confidence s h;
    on_confirm = λ slot value status s r y e h.
        write-ByYes (setup_of rules required) before prompt input slot value confirmed
          rules.full_confidence s h;
  }

  writes_by_yes :
      (screening : Setup) → KeptByWrites screening input prompt (ByYes before prompt input)
  writes_by_yes screening = record {
    on_answer = λ slot evidence raw confidence a s rule sure e adult h.
        write-ByYes screening before prompt input slot a.value (status_of a (lookup slot s.known))
          confidence s h;
    on_confirm = λ slot value status s r y e h.
        write-ByYes screening before prompt input slot value confirmed screening.full_confidence s
          h;
  }

-- A turn of S2 that leaves the needs record bound, where it was not bound before, is a yes, by the
-- quick reply or in words, while the summary of the needs is the open prompt.
pub bound_by_yes :
    (rules : NeedsRules) (screening : Setup)
    (engine : List (String × Value) → Option EligibilityResult) (input : TurnInput)
    (is_valid asks_human overlong : Bool) (s : Screen)
    → is_bound s.needs ≡ false
    → is_bound (screen_of (node rules screening engine input is_valid asks_human overlong s)).needs
      ≡ true
    → (is_summary s.last_prompt_id ≡ true) × (said input ≡ some true)
unfolding correction SamePrompt
bound_by_yes rules screening engine input is_valid asks_human overlong s fresh bound =
    let P = ByYes s.needs s.last_prompt_id input in
    let held =
      node-Holds rules screening engine input s.last_prompt_id P
        (kept_by_yes rules s.needs s.last_prompt_id input)
        (λ required result t r y e k done.
          inr (summary_of (setup_of rules required) input s.last_prompt_id refl r, y))
        is_valid asks_human overlong s
        (correct_by-SamePrompt screening engine (corrections screening engine input.slots_pending)
          is_valid s)
        (correction-Keeps screening engine input s.last_prompt_id P
          (writes_by_yes rules s.needs s.last_prompt_id input screening) is_valid s (λ k. inl k))
        bound in
    elim held [
      | inl k ↦ let clash : true ≡ false = sym k ∙ fresh in absurd (ground arith)
      | inr k ↦ k
    ]
