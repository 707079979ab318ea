-- ===== src/Handlers/Tests.antt =====
-- A paused session, repeated objections and a look of the timers.
use suraksha_setu.Prelude.{ℕ, String, ◌≡◌, ◌≤◌, refl, false, none, some, List, [], ◌∷◌, suc, arith}
use suraksha_setu.Fsm.States.{FsmState}
use suraksha_setu.Handlers.Timers.{
  SessionRow, Attempt, ended, due, listed, run_once, after_turns, bodies_after, run_once_runs_due,
}
use suraksha_setu.Handlers.Objection.{Kind, price, trust, Talk, SideAnswer}
use suraksha_setu.Handlers.Repeats.{answers_to, answers_are_bounded}
use suraksha_setu.Handlers.Pause.{
  ProductReply, found, OptionShown, Checked, checked, Session, any_withdrawn, stale, resume,
}
use suraksha_setu.Handlers.Resumed.{IsCurrent, resume-IsCurrent}

abbrev idle_s1 : SessionRow
idle_s1 = record {
  session_id = "a";
  status = "active";
  fsm_state = "S1";
  consent_id = some "c";
  last_activity_at = 100;
}

abbrev timer_turn : SessionRow → ℕ → Attempt × ℕ
timer_turn r n = (ended (some r.session_id), suc n)

abbrev timeouts : List (String × ℕ)
timeouts = ("S1", 600) ∷ ("S3", 900) ∷ []

run_once_runs_due_example :
    let due_rows = due 1000 timeouts (listed none (idle_s1 ∷ [])) in
    let looked = run_once timer_turn 1000 timeouts none (idle_s1 ∷ []) 0 in
    (looked.0 ≡ bodies_after timer_turn [] due_rows 0)
    × (looked.1 ≡ after_turns timer_turn due_rows 0)
run_once_runs_due_example = run_once_runs_due timer_turn 1000 timeouts none (idle_s1 ∷ []) 0

abbrev in_s2 : Talk
in_s2 = record {
  fsm_state = FsmState.s2;
  has_p3 = false;
  has_recommendation = false;
  focus_uins = [];
  counters = [];
  has_render = false;
  degraded = false;
  signals = [];
  parts = [];
  quick_replies = [];
  phrase = none;
  objection = none;
  objection_response = none;
}

abbrev side : List String → List String → Talk → SideAnswer
side entities leads t = record { parts = "side" ∷ t.parts; outcome = "answered" }

abbrev no_cheaper : Talk → List String
no_cheaper t = []

abbrev three_turns : List (Kind × Talk)
three_turns = (price, in_s2) ∷ (trust, in_s2) ∷ (price, in_s2) ∷ []

answers_are_bounded_example : suc (answers_to 2 side no_cheaper price three_turns []) ≤ 2
answers_are_bounded_example =
    answers_are_bounded 2 side no_cheaper price three_turns refl (omega arith)

abbrev in_force : String → ProductReply
in_force uin = found (record { status = "in_force"; effective_to = none })

abbrev fetched : ℕ → Checked ℕ
fetched c = checked (suc c)

abbrev one_option : List OptionShown
one_option = record { uin = "U1"; quote_until = some 9 } ∷ []

abbrev paused : Session ℕ
paused = record { consent = some 1; recommendation = some one_option; quote = some 3 }

abbrev resumed : Session ℕ
resumed = record { consent = some 2; recommendation = some one_option; quote = none }

resumes : resume [] in_force 5 fetched paused ≡ checked resumed
unfolding resume stale any_withdrawn
resumes = refl

resume-IsCurrent_example : IsCurrent [] in_force 5 fetched (some 1) resumed
resume-IsCurrent_example = resume-IsCurrent [] in_force 5 fetched paused resumed resumes
