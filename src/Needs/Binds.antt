-- ===== src/Needs/Binds.antt =====
-- graph/states/s2.py: a yes to the summary that was just shown binds the needs record.
use suraksha_setu.Prelude.{
  String, ◌≡◌, refl, sym, ◌∙◌, ap, Bool, true, false, Option, none, some, List, [], ◌∷◌, ◌++◌,
  ◌str_eq◌, if◌then◌else◌, eq_iff, eq_refl, arith, Bool-cases, Option-cases, inl, inr,
}
use suraksha_setu.Turn.State.{EligibilityResult, SuitabilityResult}
use suraksha_setu.Screening.State.{
  Value, RequiredAttribute, Prefix, readback_prompt, confirm_answer, engine_decision, SlotRow,
  TurnInput, Setup, Screen, Result, ok, raised, M,
}
use suraksha_setu.Screening.Take.{Known, asked, first_missing, all_confirmed}
use suraksha_setu.Screening.Prompt.{confirm_each}
use suraksha_setu.Screening.Evaluate.{correction, correct_by}
use suraksha_setu.Screening.Kept.{Property}
use suraksha_setu.Needs.Setup.{
  NeedsRules, setup_of, is_readable, on_path, on_path_setup, is_short, payload, drop,
}
use suraksha_setu.Needs.Payload.{payload-cong}
use suraksha_setu.Needs.Prompt.{summary, hold, decide_needs, next, bind}
use suraksha_setu.Needs.Respond.{after_readback, respond_rest, take_turn, respond}
use suraksha_setu.Needs.Own.{opened, bound_result, is_bound, own_prompt, or_down}
use suraksha_setu.Needs.Node.{screen_of, when_ready, body, read_with, on_open, node_rest, node}
use suraksha_setu.Needs.Turns.{route-Holds}
use suraksha_setu.Needs.Confirmed.{
  Alike, first_missing-Alike, asked_of-Alike, on_path-Alike, confirm_each-Alike, confirm_each-frame,
  confirm_each-confirmed,
}

-- A turn of the CONFIRM quick reply, and nothing said beside it.
abbrev pub agreement : TurnInput
agreement = record {
  action = confirm_answer (some true);
  pipeline = none;
  slots_pending = [];
  is_text = false;
  identity = false;
  handled = false;
}

-- The session as a new turn finds it.
abbrev pub next_turn : Screen → Screen
next_turn s = record s {
  slot_rows = [];
  signals = [];
  parts = [];
  quick_replies = [];
  phrase = none;
  is_answered = false;
  needs_events = [];
}

abbrev is_ok : Result (Unit {0}) → Bool
is_ok (ok done) = true
is_ok raised = false

module _ (rules : NeedsRules) (required : List RequiredAttribute) where
  setup : Setup
  setup = setup_of rules required

  -- The slots that the session's path asks.
  abbrev pub asked_on_path : Screen → List RequiredAttribute
  asked_on_path s = asked (on_path_setup (setup_of rules required) s) s

  abbrev shown : SuitabilityResult → Screen → Screen
  shown result s =
      let body = payload s.known s.comprehension in
      summary rules (setup_of rules required) result (record s {
        needs_events = s.needs_events ++ engine_decision body (rules.needs_sha256 body) result ∷ [];
        needs = some (record { body = body; slots_sha256 = none });
        suitability = some result;
      })

  abbrev dropped : SuitabilityResult → Screen → Screen
  dropped result s =
      let body = payload s.known s.comprehension in
      drop (record s {
        needs_events = s.needs_events ++ engine_decision body (rules.needs_sha256 body) result ∷ [];
      })

  -- What a decision that succeeds leaves.
  decided :
      (s t : Screen)
      → decide_needs rules (setup_of rules required) s ≡ (ok tt, t)
      → (result : SuitabilityResult) × ((t ≡ shown result s)
          × (result.inputs_sha256 ≡ rules.needs_sha256 (payload s.known s.comprehension)))
  unfolding decide_needs hold
  decided s t h =
      let body = payload s.known s.comprehension in
      let digest = rules.needs_sha256 body in
      elim (Option-cases (rules.evaluate_suitability s.eligibility s.known body digest)) [
        | inl e ↦
            let down : ◌≡◌ {A = Result (Unit {0}) × Screen} (raised, s) (ok tt, t) =
              rw (e, decide_needs) at h in
            let clash : false ≡ true = ap (λ r. is_ok r.0) down in absurd (ground arith)
        | inr (result, e) ↦ elim (Bool-cases (result.inputs_sha256 str_eq digest)) [
          | inl k ↦ (
            result,
            (
              let held : ◌≡◌ {A = Result (Unit {0}) × Screen} (ok tt, shown result s) (ok tt, t) =
                    rw (e, k, decide_needs) at h in
                  sym (ap (λ r. r.1) held),
              (eq_iff result.inputs_sha256 digest).0 k,
            ),
          )
          | inr k ↦
              let away : ◌≡◌ {A = Result (Unit {0}) × Screen} (raised, dropped result s)
                  (ok tt, t) =
                rw (e, k, decide_needs) at h in
              let clash : false ≡ true = ap (λ r. is_ok r.0) away in absurd (ground arith)
        ]
      ]

  module _ (s : Screen) (result : SuitabilityResult) (read : M (Unit {0})) where
    abbrev open_screen : Screen
    open_screen = opened [] (next_turn (shown result s))

    abbrev confirmed_as : Known → List SlotRow → Screen
    confirmed_as known rows = record open_screen { known = known; slot_rows = rows }

    next_done :
        (known : Known) (rows : List SlotRow)
        → first_missing (asked_on_path (confirmed_as known rows)) known ≡ none
        → all_confirmed (asked_on_path (confirmed_as known rows)) known ≡ true
        → next (setup_of rules required) read (confirmed_as known rows)
          ≡ (ok true, confirmed_as known rows)
    unfolding next opened summary
    next_done known rows none_left all = rw (none_left, all) refl

    -- The values that are sent do not change as they are confirmed.
    asked_again :
        (known : Known) (rows : List SlotRow)
        → Alike known s.known
        → asked_on_path (confirmed_as known rows) ≡ asked_on_path s
    unfolding opened summary
    asked_again known rows alike =
        let path = on_path-Alike (is_short s) required known s.known alike in
        let same = asked_of-Alike (on_path (is_short s) required s.known) known s.known alike in
        rw path same

    next_at :
        (c : Screen) (known : Known) (rows : List SlotRow)
        → c ≡ confirmed_as known rows
        → Alike known s.known
        → first_missing (asked_on_path s) s.known ≡ none
        → all_confirmed (asked_on_path s) known ≡ true
        → next (setup_of rules required) read c ≡ (ok true, c)
    next_at c known rows e alike complete all =
        let again = asked_again known rows alike in
        let none_left : first_missing (asked_on_path (confirmed_as known rows)) known ≡ none =
          rw again (first_missing-Alike (asked_on_path s) known s.known alike ∙ complete) in
        let every : all_confirmed (asked_on_path (confirmed_as known rows)) known ≡ true =
          rw again all in
        rw e (next_done known rows none_left every)

    abbrev Answered : Property
    Answered known rows engine needs held count =
        (if is_bound needs then held else none) ≡ some result

    bind_at :
        (c : Screen) (known : Known) (rows : List SlotRow)
        → c ≡ confirmed_as known rows
        → Alike known s.known
        → result.inputs_sha256 ≡ rules.needs_sha256 (payload s.known s.comprehension)
        → bound_result (
            or_down (
              when_ready rules
                (setup_of rules required)
                agreement
                read
                (some (readback_prompt Prefix.s2))
                true
                c))
          ≡ some result
    unfolding opened summary bind
    bind_at c known rows e alike echo =
        let sent = payload-cong known s.known s.comprehension (λ slot k. alike slot) in
        let test : (rules.needs_sha256 (payload known s.comprehension) str_eq result.inputs_sha256)
            ≡ true =
          rw (sent, echo) (eq_refl (rules.needs_sha256 (payload s.known s.comprehension))) in
        rw (e, test)
          (route-Holds rules (setup_of rules required) agreement none Answered false result
            (record (confirmed_as known rows) {
              needs = some (record {
                body = payload known s.comprehension;
                slots_sha256 = some (rules.needs_sha256 (payload known s.comprehension));
              });
            })
            refl)

    -- The turn's answer, on the opened screen.
    body_lem :
        first_missing (asked_on_path s) s.known ≡ none
        → result.inputs_sha256 ≡ rules.needs_sha256 (payload s.known s.comprehension)
        → bound_result (or_down (body rules (setup_of rules required) agreement read open_screen))
          ≡ some result
    unfolding opened summary body own_prompt respond take_turn respond_rest after_readback
    body_lem complete echo =
        let setup = setup_of rules required in
        let as' = asked_on_path s in
        let c = confirm_each setup as' open_screen in
        let frame = confirm_each-frame setup as' open_screen in
        let alike = confirm_each-Alike setup as' open_screen in
        let all = confirm_each-confirmed setup as' open_screen complete in
        let done = next_at c c.known c.slot_rows frame alike complete all in
        rw done (bind_at c c.known c.slot_rows frame alike echo)

module _ (rules : NeedsRules) (screening : Setup)
    (engine : List (String × Value) → Option EligibilityResult)
    (required : List RequiredAttribute) where
  on_open_lem :
      (s : Screen) (result : SuitabilityResult) (o : Option (List RequiredAttribute))
      → o ≡ some required
      → is_readable required ≡ true
      → first_missing (asked_on_path rules required s) s.known ≡ none
      → result.inputs_sha256 ≡ rules.needs_sha256 (payload s.known s.comprehension)
      → bound_result (
          screen_of (
            on_open rules screening engine agreement o (next_turn (shown rules required result s))))
        ≡ some result
  on_open_lem s result o asks readable complete echo =
      rw (asks, readable)
        (body_lem rules required s result
          (read_with rules screening engine (setup_of rules required)) complete echo)

  node_lem :
      (s : Screen) (result : SuitabilityResult)
      → rules.required ≡ some required
      → is_readable required ≡ true
      → first_missing (asked_on_path rules required s) s.known ≡ none
      → result.inputs_sha256 ≡ rules.needs_sha256 (payload s.known s.comprehension)
      → bound_result (
          screen_of (
            node rules screening engine agreement true false false
              (next_turn (shown rules required result s))))
        ≡ some result
  unfolding node node_rest correction correct_by
  node_lem s result = on_open_lem s result rules.required

  -- The summary and a yes bind the needs record. Where the rules ask slots that S2 can read, every
  -- slot of the session's path has a value, and the decision has put the summary, the next turn's
  -- CONFIRM leaves the record bound with the very result that the summary showed: the record is taken
  -- from the slots again, and it still has the hash that was sent, though each status has changed.
  pub decide_needs-binds :
      (s t : Screen)
      → rules.required ≡ some required
      → is_readable required ≡ true
      → decide_needs rules (setup_of rules required) s ≡ (ok tt, t)
      → first_missing (asked_on_path rules required t) t.known ≡ none
      → (result : SuitabilityResult) × ((t.suitability ≡ some result)
          × (bound_result
                (screen_of (node rules screening engine agreement true false false (next_turn t)))
              ≡ some result))
  unfolding summary
  decide_needs-binds s t asks readable h complete =
      let (result, (e, echo)) = decided rules required s t h in
      let left : first_missing (asked_on_path rules required s) s.known ≡ none = rw e at complete in
      (result, (rw e refl, rw e (node_lem s result asks readable left echo)))
