-- ===== src/Needs/NodeKept.antt =====
-- graph/states/s2.py: what the whole S2 node keeps, with S1's correction before it.
use suraksha_setu.Prelude.{
  String, ◌≡◌, Bool, true, false, not, ◌&&◌, ◌||◌, Option, none, some, List, [], ◌∷◌, Bool-cases,
  inl, inr,
}
use suraksha_setu.Turn.State.{EligibilityResult, SuitabilityResult}
use suraksha_setu.Screening.State.{
  Value, SlotCandidate, RequiredAttribute, PromptId, TurnInput, Setup, Screen, Result, ok, raised,
}
use suraksha_setu.Screening.Take.{Known, take}
use suraksha_setu.Screening.Respond.{is_readback, said, has_minor}
use suraksha_setu.Screening.Evaluate.{
  corrections, take_each, signal_correction, correct_by, correction, same_known,
}
use suraksha_setu.Screening.Kept.{Property, Holds, Keeps, KeptByWrites, Keeps-after, if-Holds}
use suraksha_setu.Screening.Keeps.{take-Keeps}
use suraksha_setu.Needs.Setup.{NeedsRules, setup_of, is_readable}
use suraksha_setu.Needs.Prompt.{bind}
use suraksha_setu.Needs.Own.{opened, down, has_correction}
use suraksha_setu.Needs.Node.{screen_of, body, read_with, on_open, node_rest, unless_raised, node}
use suraksha_setu.Needs.Kept.{KeptByNeeds}
use suraksha_setu.Needs.Keeps.{readback-Keeps}
use suraksha_setu.Needs.Turns.{body-Keeps, or_down-Holds}

-- S1's correction of an eligibility fact.
module _ (screening : Setup) (engine : List (String × Value) → Option EligibilityResult)
    (input : TurnInput) (prompt : Option PromptId) (P : Property)
    (writes : KeptByWrites screening input prompt P) where
  take_each-Keeps :
      (cs : List SlotCandidate) → Keeps screening input prompt P (take_each screening engine cs)
  unfolding take_each
  take_each-Keeps [] s h = h
  take_each-Keeps (c ∷ cs) s h =
      Keeps-after screening input prompt P
        (take screening c.slot c.value c.evidence_span c.confidence s)
        (λ taken. take_each screening engine cs)
        (take-Keeps screening input prompt P writes c.slot c.evidence_span c.value c.confidence s h)
        (λ taken. take_each-Keeps cs)

  signal_correction-Holds :
      (before : Known) (s : Screen)
      → Holds screening input prompt P s
      → Holds screening input prompt P (signal_correction screening engine before s)
  unfolding signal_correction
  signal_correction-Holds before s h =
      if-Holds screening input prompt P
        (not (has_minor s.signals) && not (same_known s.known before)) _ s h h

  correct_by-Keeps :
      (cs : List SlotCandidate) (is_valid : Bool)
      → Keeps screening input prompt P (correct_by screening engine cs is_valid)
  unfolding correct_by
  correct_by-Keeps [] is_valid s h = h
  correct_by-Keeps (c ∷ cs) false s h = h
  correct_by-Keeps (c ∷ cs) true s h =
      Keeps-after screening input prompt P (take_each screening engine (c ∷ cs) s)
        (λ done t. (ok tt, signal_correction screening engine s.known t))
        (take_each-Keeps (c ∷ cs) s h) (λ done t. signal_correction-Holds s.known t)

  pub correction-Keeps :
      (is_valid : Bool)
      → Keeps screening input prompt P (correction screening engine input is_valid)
  unfolding correction
  correction-Keeps is_valid s h =
      correct_by-Keeps (corrections screening engine input.slots_pending) is_valid s h

module _ (rules : NeedsRules) (screening : Setup)
    (engine : List (String × Value) → Option EligibilityResult) (input : TurnInput)
    (prompt : Option PromptId) (P : Property)
    (kept : (required : List RequiredAttribute)
      → KeptByNeeds (setup_of rules required) input prompt P)
    (binds : (required : List RequiredAttribute) (result : SuitabilityResult) (s : Screen)
      → is_readback (setup_of rules required) input prompt ≡ true
      → said input ≡ some true
      → s.suitability ≡ some result
      → Holds (setup_of rules required) input prompt P s
      → Holds
          (setup_of rules required)
          input
          prompt
          P
          (bind rules (setup_of rules required) result s).1) where
  on_open-Holds :
      (o : Option (List RequiredAttribute)) (s : Screen)
      → s.last_prompt_id ≡ prompt
      → Holds screening input prompt P s
      → Holds screening input prompt P (screen_of (on_open rules screening engine input o s))
  unfolding down opened
  on_open-Holds none s e h = h
  on_open-Holds (some required) s e h =
      let setup = setup_of rules required in
      let read = read_with rules screening engine setup in
      let reads = readback-Keeps setup input prompt P (kept required) rules screening engine in
      elim (Bool-cases (is_readable required)) [
        | inr r ↦ rw r h
        | inl r ↦ rw r (
            or_down-Holds rules setup input prompt P (kept required) read reads (binds required)
              (body rules setup input read (opened [] s))
              (body-Keeps rules setup input prompt P (kept required) read reads (binds required)
                (opened [] s) e h))
      ]

  pub node_rest-Holds :
      (is_valid asks_human overlong : Bool) (s : Screen)
      → s.last_prompt_id ≡ prompt
      → Holds screening input prompt P s
      → Holds screening input prompt P
          (screen_of (node_rest rules screening engine input is_valid asks_human overlong s))
  unfolding node_rest
  node_rest-Holds is_valid asks_human overlong s e h =
      elim (Bool-cases (has_correction s.signals || not is_valid || asks_human || overlong)) [
        | inl c ↦ rw c h
        | inr c ↦ rw c (on_open-Holds rules.required s e h)
      ]

  unless_raised-Holds :
      (is_valid asks_human overlong : Bool) (r : Result (Unit {0}) × Screen)
      → r.1.last_prompt_id ≡ prompt
      → Holds screening input prompt P r.1
      → Holds screening input prompt P (
          screen_of (
            unless_raised rules screening engine r
              (node_rest rules screening engine input is_valid asks_human overlong)))
  unless_raised-Holds is_valid asks_human overlong (ok done, s) e h =
      node_rest-Holds is_valid asks_human overlong s e h
  unless_raised-Holds is_valid asks_human overlong (raised, s) e h = h

  -- Where the correction keeps it.
  pub node-Holds :
      (is_valid asks_human overlong : Bool) (s : Screen)
      → (correction screening engine input is_valid s).1.last_prompt_id ≡ prompt
      → Holds screening input prompt P (correction screening engine input is_valid s).1
      → Holds screening input prompt P
          (screen_of (node rules screening engine input is_valid asks_human overlong s))
  unfolding node
  node-Holds is_valid asks_human overlong s e h =
      unless_raised-Holds is_valid asks_human overlong
        (correction screening engine input is_valid s) e h
