-- ===== src/Turn/Tests.antt =====
-- A turn on a concrete session, and the theorems at inputs that meet their hypotheses.
use suraksha_setu.Prelude.{true, false, ◌≡◌, refl, none, some, [], ◌∷◌, Option}
use suraksha_setu.Fsm.States.{s1, s2}
use suraksha_setu.Fsm.Facts.{no_facts, ConsentStatus}
use suraksha_setu.Fsm.Transition.{Transition, transition, first_match, invariants}
use suraksha_setu.Fsm.Rows.{evaluation_rows}
use suraksha_setu.Prelude.Dict.{count_of, lookup}
use suraksha_setu.Fsm.States.{same_state, pause}
use suraksha_setu.Turn.State.{SessionState, PipelineResult, Settings, Intent}
use suraksha_setu.Turn.Facts.{
  build_facts, paused_from_of, consent_status, s0_intent, objects, mandatory_trigger_of,
}
use suraksha_setu.Turn.Router.{Routed}
use suraksha_setu.Turn.Decide.{
  settle, unasked, inactivity_timeout, set_consent, Decision, decided_on, decide, tail_frames,
  with_signals, apply_signal,
}
use suraksha_setu.Turn.Aside.{aside_never_holds_back}
use suraksha_setu.Turn.Stack.{WellFormed, decide_keeps_stack}

abbrev defaults : Settings
defaults = record {
  thresholds = record {
    profile_sufficiency_min = 7;
    rediscovery_loop_limit = 2;
    low_confidence_streak_limit = 2;
  };
  injection_hit_limit = 3;
  side_query_max_stack = 3;
}

abbrev new_session : SessionState
new_session = record {
  fsm_state = s1;
  pending_slot = some "age";
  stack = [];
  consent = none;
  eligibility = none;
  needs = none;
  suitability = none;
  counters = [];
  last_prompt_id = none;
  focus_uins = [];
}

abbrev withdraws : Option PipelineResult
withdraws = some (record {
  analysis =
      some (record { intents = Intent.general_faq ∷ Intent.meta_withdraw ∷ []; side_query = none });
  block_reason = none;
})

aside_never_holds_back_example :
    (r e : Transition) × (settle
        (record no_facts { faq = true; consent = ConsentStatus.valid })
        s2
        defaults
      ≡ some r)
    × (transition
          (unasked (record no_facts { faq = true; consent = ConsentStatus.valid }))
          s2
          defaults.thresholds
        ≡ some e)
    × (r.to ≡ e.to)
aside_never_holds_back_example =
    aside_never_holds_back (record no_facts { faq = true; consent = ConsentStatus.valid }) s2
      defaults refl

abbrev idles : Transition
idles = record {
  to = pause;
  row_id = "CC3";
  reason_code = "INACTIVITY";
  subgraph = none;
  invariants = ("I1", true) ∷ ("I2", true) ∷ ("I5", true) ∷ [];
}

abbrev paused : Decision
paused = decided_on new_session Routed.timer idles

pauses_new_session :
    decide new_session none none
      (set_consent ConsentStatus.valid ∷ inactivity_timeout ∷ [])
      Routed.timer
      defaults
    ≡ some paused
unfolding decide settle decided_on with_signals apply_signal build_facts consent_status s0_intent
    objects mandatory_trigger_of count_of lookup transition first_match evaluation_rows invariants
pauses_new_session = refl

decide_keeps_stack_example :
    WellFormed paused.session.fsm_state paused.session.stack
    × (same_state s1 pause ≡ false
        → same_state paused.session.fsm_state pause ≡ true
        → paused_from_of paused.session.fsm_state paused.session.stack ≡ some s1)
    × (same_state s1 pause ≡ true
        → same_state paused.session.fsm_state pause ≡ false
        → paused.session.stack ≡ tail_frames new_session.stack)
decide_keeps_stack_example =
    decide_keeps_stack new_session none none
      (set_consent ConsentStatus.valid ∷ inactivity_timeout ∷ []) Routed.timer defaults paused
      pauses_new_session (λ h. cc)
