-- ===== src/Screening/Corrected.antt =====
-- graph/states/s1.py: what the engine's result rests on, at S1's node and at a correction.
use suraksha_setu.Prelude.{
  ap, ℕ, String, ◌≡◌, refl, Bool, true, false, not, ◌&&◌, ◌||◌, Option, none, some, List, [], ◌∷◌,
  ltb, ◌str_eq◌, if◌then◌else◌, arith, Bool-cases, inl, inr, ◌⊎◌,
}
use suraksha_setu.Prelude.Dict.{lookup}
use suraksha_setu.Prelude.Texts.{in_texts}
use suraksha_setu.Turn.State.{EligibilityResult}
use suraksha_setu.Screening.State.{
  Value, SlotStatus, is_confirmed, Answer, Understood, answered, several, unusable, domain_down,
  left_open, SlotCandidate, TurnInput, Setup, Screen, Result, ok, raised, after, ret,
}
use suraksha_setu.Screening.Take.{
  Known, is_rule, is_under_age, said_again, is_ill, status_of, is_all_confirmed, disclosed, note,
  write, record_answer, take_understood, take,
}
use suraksha_setu.Screening.Respond.{respond, has_minor}
use suraksha_setu.Screening.Ready.{respond-confirmed}
use suraksha_setu.Screening.Evaluate.{
  decide_screen, or_outage, with_load, Load, loaded, rules_down, unreadable_rules, node, same_known,
  corrections, take_each, signal_correction, correct_by, correction,
}

module _ (setup : Setup) where
  or_decide :
      (engine : List (String × Value) → Option EligibilityResult) → Result Bool × Screen → Screen
  or_decide engine r =
      or_outage setup engine
        (after r (λ ready. if ready then decide_screen setup engine else ret tt))

  or_decide-unready :
      (engine other : List (String × Value) → Option EligibilityResult) (r : Result Bool × Screen)
      → ((t : Screen) → r ≡ (ok true, t) → is_all_confirmed setup t ≡ true)
      → is_all_confirmed setup r.1 ≡ false
      → or_decide engine r ≡ or_decide other r
  unfolding or_decide
  or_decide-unready engine other (ok true, t) ready h =
      let k = ready t refl in absurd (ground arith)
  or_decide-unready engine other (ok false, t) ready h = refl
  or_decide-unready engine other (raised, t) ready h = refl

  by_load :
      (engine other : List (String × Value) → Option EligibilityResult) (load : Load)
      (f g : Screen → Result (Unit {0}) × Screen) (s : Screen)
      → or_outage setup engine (f s) ≡ or_outage setup other (g s)
      → with_load setup engine load f s ≡ with_load setup other load g s
  by_load engine other loaded f g s h = ap some h
  by_load engine other rules_down f g s h = refl
  by_load engine other unreadable_rules f g s h = refl

  -- The node's outcome does not depend on the eligibility engine unless, once the answers of the turn
  -- are taken, every slot that is asked for is confirmed.
  pub node_asks_confirmed :
      (engine other : List (String × Value) → Option EligibilityResult) (load : Load)
      (input : TurnInput) (is_valid asks_human overlong : Bool) (s : Screen)
      → is_all_confirmed setup (respond setup input s).1 ≡ false
      → node setup engine load input is_valid asks_human overlong s
        ≡ node setup other load input is_valid asks_human overlong s
  unfolding node or_decide
  node_asks_confirmed engine other load input is_valid asks_human overlong s h =
      let same =
        or_decide-unready engine other (respond setup input s)
          (λ t. respond-confirmed setup input s t) h in
      elim (Bool-cases (not is_valid || asks_human)) [
        | inl a ↦ rw a refl
        | inr a ↦ rw a (elim (Bool-cases overlong) [
          | inl o ↦ rw o refl
          | inr o ↦ rw o (by_load engine other load _ _ s same)
        ])
      ]

  -- Nothing has changed yet, or the engine's result is gone.
  abbrev Dropped : Known → Screen → Type 0
  Dropped before s = (s.known ≡ before) ⊎ (s.eligibility ≡ none)

  write-Dropped :
      (before : Known) (slot : String) (value : Value) (status : SlotStatus) (confidence : ℕ)
      (s : Screen)
      → in_texts slot setup.eligibility_slots ≡ true
      → is_confirmed status ≡ false
      → (write setup slot value status confidence s).eligibility ≡ none
  unfolding write
  write-Dropped before slot value status confidence s e c = rw (c, e) refl

  pub status_of-unconfirmed :
      (a : Answer) (prior : Option (SlotStatus × Value)) → is_confirmed (status_of a prior) ≡ false
  status_of-unconfirmed a none = elim (Bool-cases a.is_declined) [
    | inl d ↦ rw d refl
    | inr d ↦ rw d refl
  ]
  status_of-unconfirmed a (some p) = elim (Bool-cases a.is_declined) [
    | inl d ↦ rw d refl
    | inr d ↦ rw d refl
  ]

  if-eligibility :
      (b : Bool) (s t : Screen)
      → s.eligibility ≡ none
      → t.eligibility ≡ none
      → (if b then s else t).eligibility ≡ none
  if-eligibility true s t hs ht = hs
  if-eligibility false s t hs ht = ht

  record_answer-Dropped :
      (slot : String) (confidence : ℕ) (a : Answer) (s : Screen)
      → in_texts slot setup.eligibility_slots ≡ true
      → (record_answer setup slot confidence a s).eligibility ≡ none
  unfolding record_answer disclosed note
  record_answer-Dropped slot confidence a s e =
      let dropped =
        write-Dropped s.known slot a.value (status_of a (lookup slot s.known)) confidence s e
          (status_of-unconfirmed a (lookup slot s.known)) in
      if-eligibility ((slot str_eq "health_flags") && is_ill a.value) _ _ dropped dropped

  take_understood-Dropped :
      (before : Known) (slot : String) (confidence : ℕ) (u : Understood) (s : Screen)
      → in_texts slot setup.eligibility_slots ≡ true
      → Dropped before s
      → Dropped before (take_understood setup slot confidence u s).1
  unfolding take_understood
  take_understood-Dropped before slot confidence (several found) s e h = h
  take_understood-Dropped before slot confidence unusable s e h = h
  take_understood-Dropped before slot confidence domain_down s e h = h
  take_understood-Dropped before slot confidence (left_open amount) s e h = h
  take_understood-Dropped before slot confidence (answered a) s e h =
      let heard : Screen = record s { filled = slot ∷ s.filled } in
      elim (Bool-cases (is_under_age slot a.value)) [
        | inl y ↦ rw y h
        | inr y ↦ rw y (elim (Bool-cases (said_again (lookup slot s.known) a.value)) [
          | inl k ↦ rw k h
          | inr k ↦ rw k (inr (record_answer-Dropped slot confidence a heard e))
        ])
      ]

  take-Dropped :
      (before : Known) (slot : String) (raw : Value) (evidence : String) (confidence : ℕ)
      (s : Screen)
      → in_texts slot setup.eligibility_slots ≡ true
      → Dropped before s
      → Dropped before (take setup slot raw evidence confidence s).1
  unfolding take
  take-Dropped before slot raw evidence confidence s e h =
      elim (Bool-cases (not (is_rule slot setup.attrs || in_texts slot setup.extra))) [
        | inl r ↦ rw r h
        | inr r ↦
            rw r (elim (Bool-cases (ltb confidence setup.settings.confidence_readback_floor)) [
              | inl f ↦ rw f h
              | inr f ↦ rw f (
                  take_understood-Dropped before slot confidence
                    (setup.understand slot raw evidence) s e h)
            ])
      ]

  -- The candidates of a correction are for eligibility slots.
  abbrev AllEligibility : List SlotCandidate → Type 0
  AllEligibility [] = Unit
  AllEligibility (c ∷ cs) = (in_texts c.slot setup.eligibility_slots ≡ true) × AllEligibility cs

module _ (setup : Setup) (engine : List (String × Value) → Option EligibilityResult) where
  corrections-AllEligibility :
      (cs : List SlotCandidate) → AllEligibility setup (corrections setup engine cs)
  corrections-AllEligibility [] = tt
  corrections-AllEligibility (c ∷ cs) =
      elim (Bool-cases (in_texts (setup.alias c.slot) setup.eligibility_slots)) [
        | inl e ↦ rw e (e, corrections-AllEligibility cs)
        | inr e ↦ rw e (corrections-AllEligibility cs)
      ]

  take_next-Dropped :
      (before : Known) (cs : List SlotCandidate) (r : Result Bool × Screen)
      → ((t : Screen)
          → Dropped setup before t
          → Dropped setup before (take_each setup engine cs t).1)
      → Dropped setup before r.1
      → Dropped setup before (after r (λ taken. take_each setup engine cs)).1
  take_next-Dropped before cs (ok a, s) k h = k s h
  take_next-Dropped before cs (raised, s) k h = h

  take_each-Dropped :
      (before : Known) (cs : List SlotCandidate) (s : Screen)
      → AllEligibility setup cs
      → Dropped setup before s
      → Dropped setup before (take_each setup engine cs s).1
  unfolding take_each
  take_each-Dropped before [] s all h = h
  take_each-Dropped before (c ∷ cs) s all h =
      take_next-Dropped before cs (take setup c.slot c.value c.evidence_span c.confidence s)
        (λ t k. take_each-Dropped before cs t all.1 k)
        (take-Dropped setup before c.slot c.value c.evidence_span c.confidence s all.0 h)

  signal_correction-Dropped :
      (before : Known) (s : Screen)
      → Dropped setup before s
      → Dropped setup before (signal_correction setup engine before s)
  unfolding signal_correction
  signal_correction-Dropped before s h =
      elim (Bool-cases (not (has_minor s.signals) && not (same_known s.known before))) [
        | inl c ↦ rw c h
        | inr c ↦ rw c h
      ]

  signalled-Dropped :
      (before : Known) (r : Result (Unit {0}) × Screen)
      → Dropped setup before r.1
      → Dropped setup before
          (after r (λ done t. (ok tt, signal_correction setup engine before t))).1
  signalled-Dropped before (ok a, s) h = signal_correction-Dropped before s h
  signalled-Dropped before (raised, s) h = h

  corrected_by :
      (cs : List SlotCandidate) (is_valid : Bool) (s : Screen)
      → AllEligibility setup cs
      → Dropped setup s.known (correct_by setup engine cs is_valid s).1
  unfolding correct_by
  corrected_by [] is_valid s all = inl refl
  corrected_by (c ∷ cs) false s all = inl refl
  corrected_by (c ∷ cs) true s all =
      signalled-Dropped s.known (take_each setup engine (c ∷ cs) s)
        (take_each-Dropped s.known (c ∷ cs) s all (inl refl))

  -- V4 from a later state: after a correction either the known slots are unchanged, or the session
  -- holds no result of the eligibility engine. It holds also when the domain services fail on the way.
  pub correction_drops_result :
      (input : TurnInput) (is_valid : Bool) (s : Screen)
      → ((correction setup engine input is_valid s).1.known ≡ s.known)
        ⊎ ((correction setup engine input is_valid s).1.eligibility ≡ none)
  unfolding correction
  correction_drops_result input is_valid s =
      corrected_by (corrections setup engine input.slots_pending) is_valid s
        (corrections-AllEligibility input.slots_pending)
