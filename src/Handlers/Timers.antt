-- ===== src/Handlers/Timers.antt =====
-- jobs/timers.py, with `inactive_sessions` of store/conv.py and the guards of `run_timer` in
-- graph/runtime.py. Times are counted from one origin, in seconds; the table lists its rows oldest
-- activity first. What a turn does to the rest of the system is a state that each attempt takes on.
use suraksha_setu.Prelude.{
  ℕ, String, ◌+◌, ◌-◌, ◌≡◌, refl, Bool, true, false, ◌&&◌, Option, none, some, List, [], ◌∷◌, ◌++◌,
  leb, ltb, ◌str_eq◌, if◌then◌else◌, arith, Bool-cases, inl, inr, ◌≤◌, ap, ◌∙◌, sym,
}
use suraksha_setu.Prelude.Dict.{lookup}
use suraksha_setu.Prelude.Texts.{in_texts}
use suraksha_setu.Fsm.Facts.{is_some}

pub record SessionRow : Type 0 where
  pub session_id : String
  pub status : String
  pub fsm_state : String
  pub consent_id : Option String
  pub last_activity_at : ℕ

abbrev pub is_active : SessionRow → Bool
is_active r = r.status str_eq "active"

abbrev idle_long : SessionRow → ℕ → Option ℕ → Bool
idle_long r now none = false
idle_long r now (some timeout) = leb (r.last_activity_at + timeout) now

abbrev pub is_due : ℕ → List (String × ℕ) → SessionRow → Bool
is_due now timeouts r =
    is_active r && (is_some r.consent_id && idle_long r now (lookup r.fsm_state timeouts))

unfoldable pub due : ℕ → List (String × ℕ) → List SessionRow → List SessionRow
due now timeouts [] = []
due now timeouts (r ∷ rs) =
    let rest = due now timeouts rs in if is_due now timeouts r then r ∷ rest else rest

abbrev pub is_listed : Option (List String) → SessionRow → Bool
is_listed none r = true
is_listed (some ids) r = in_texts r.session_id ids

-- The query of the candidates.
unfoldable pub inactive_sessions : ℕ → Option (List String) → List SessionRow → List SessionRow
inactive_sessions before ids [] = []
inactive_sessions before ids (r ∷ rs) =
    let rest = inactive_sessions before ids rs in
    if is_active r && leb r.last_activity_at before && is_listed ids r then r ∷ rest else rest

-- The least of the timeouts, of which there is one at least.
unfoldable pub least : ℕ → List (String × ℕ) → ℕ
least m [] = m
least m ((state, t) ∷ ts) = least (if ltb t m then t else m) ts

-- What an attempt ends in: a body or none, a ProblemError, or another exception.
pub data Attempt : Type 0 where
  ended : Option String → Attempt
  problem failed : Attempt

abbrev pub body_of : Attempt → List String
body_of (ended (some body)) = body ∷ []
body_of _ = []

module _ {St : Type 0} (run_timer : SessionRow → St → Attempt × St) where
  -- The loop over the sessions that are due: a failure is left behind.
  unfoldable pub run_rows : List SessionRow → St → List String × St
  run_rows [] st = ([], st)
  run_rows (r ∷ rs) st =
      let attempt = run_timer r st in
      let rest = run_rows rs attempt.1 in (body_of attempt.0 ++ rest.0, rest.1)

  -- `run_once`, with the table's rows.
  unfoldable pub run_once :
      ℕ → List (String × ℕ) → Option (List String) → List SessionRow → St → List String × St
  unfolding run_rows inactive_sessions due least
  run_once now [] ids rows st = ([], st)
  run_once now ((state, t) ∷ ts) ids rows st =
      run_rows (due now ((state, t) ∷ ts) (inactive_sessions (now - least t ts) ids rows)) st

-- The rows that are asked for.
unfoldable pub listed : Option (List String) → List SessionRow → List SessionRow
listed ids [] = []
listed ids (r ∷ rs) = let rest = listed ids rs in if is_listed ids r then r ∷ rest else rest

least_le : (m : ℕ) (ts : List (String × ℕ)) → least m ts ≤ m
unfolding least
least_le m [] = omega arith
least_le m ((state, t) ∷ ts) = let rest = least_le (if ltb t m then t else m) ts in ground arith

abbrev AtLeast : ℕ → Option ℕ → Type 0
AtLeast m none = Unit
AtLeast m (some t) = m ≤ t

AtLeast-lookup :
    (state : String) (m : ℕ) (ts : List (String × ℕ)) → AtLeast (least m ts) (lookup state ts)
unfolding least lookup
AtLeast-lookup state m [] = tt
AtLeast-lookup state m ((at, t) ∷ ts) =
    let smaller = least_le (if ltb t m then t else m) ts in
    let further = AtLeast-lookup state (if ltb t m then t else m) ts in
    elim (Bool-cases (at str_eq state)) [ inl e ↦ rw e (ground arith) | inr e ↦ rw e further ]

least-lookup :
    (at state : String) (t : ℕ) (ts : List (String × ℕ))
    → AtLeast (least t ts) (lookup at ((state, t) ∷ ts))
unfolding lookup
least-lookup at state t ts = elim (Bool-cases (state str_eq at)) [
  | inl e ↦ rw e (least_le t ts)
  | inr e ↦ rw e (AtLeast-lookup at t ts)
]

-- A session that is due has been idle for the least of the timeouts.
due_is_idle :
    (now m : ℕ) (r : SessionRow) (o : Option ℕ)
    → AtLeast m o
    → idle_long r now o ≡ true
    → leb r.last_activity_at (now - m) ≡ true
due_is_idle now m r none a h = absurd (ground arith)
due_is_idle now m r (some t) a h = ground arith

due-if :
    (now : ℕ) (timeouts : List (String × ℕ)) (b : Bool) (r : SessionRow) (rs : List SessionRow)
    → due now timeouts (if b then r ∷ rs else rs)
      ≡ (if b && is_due now timeouts r then r ∷ due now timeouts rs else due now timeouts rs)
unfolding due
due-if now timeouts true r rs = refl
due-if now timeouts false r rs = refl

due_is_candidate :
    (active consented idle near asked : Bool)
    → (idle ≡ true → near ≡ true)
    → ((active && near && asked) && (active && (consented && idle)))
      ≡ (asked && (active && (consented && idle)))
due_is_candidate active consented true near asked h = let n = h refl in ground arith
due_is_candidate active consented false near asked h = ground arith

due_of_candidates :
    (now m : ℕ) (timeouts : List (String × ℕ)) (ids : Option (List String)) (rows : List SessionRow)
    → ((state : String) → AtLeast m (lookup state timeouts))
    → due now timeouts (inactive_sessions (now - m) ids rows) ≡ due now timeouts (listed ids rows)
unfolding due inactive_sessions listed
due_of_candidates now m timeouts ids [] a = refl
due_of_candidates now m timeouts ids (r ∷ rs) a =
    let rest = due_of_candidates now m timeouts ids rs a in
    let idle = due_is_idle now m r (lookup r.fsm_state timeouts) (a r.fsm_state) in
    let same =
      due_is_candidate (is_active r) (is_some r.consent_id)
        (idle_long r now (lookup r.fsm_state timeouts)) (leb r.last_activity_at (now - m))
        (is_listed ids r) idle in
    due-if now timeouts (is_active r && leb r.last_activity_at (now - m) && is_listed ids r) r
      (inactive_sessions (now - m) ids rs)
    ∙ (rw (same, rest) refl)
    ∙ sym (due-if now timeouts (is_listed ids r) r (listed ids rs))

no_timeout : (now : ℕ) (r : SessionRow) → is_due now [] r ≡ false
unfolding lookup
no_timeout now r = ground arith

due-no_timeouts : (now : ℕ) (rows : List SessionRow) → due now [] rows ≡ []
unfolding due
due-no_timeouts now [] = refl
due-no_timeouts now (r ∷ rs) = rw (no_timeout now r) (due-no_timeouts now rs)

module _ {St : Type 0} (run_timer : SessionRow → St → Attempt × St) where
  -- The state after an attempt for each of the sessions, whatever the attempts end in.
  abbrev pub after_turns : List SessionRow → St → St
  after_turns [] st = st
  after_turns (r ∷ rs) st = after_turns rs (run_timer r st).1

  -- The same attempts' bodies: each attempt finds the state that those before it leave.
  abbrev pub bodies_after : List SessionRow → List SessionRow → St → List String
  bodies_after before [] st = []
  bodies_after before (r ∷ rs) st =
      body_of (run_timer r (after_turns before st)).0 ++ bodies_after (before ++ r ∷ []) rs st

  after_turns-append :
      (xs ys : List SessionRow) (st : St)
      → after_turns (xs ++ ys) st ≡ after_turns ys (after_turns xs st)
  after_turns-append [] ys st = refl
  after_turns-append (x ∷ xs) ys st = after_turns-append xs ys (run_timer x st).1

  run_rows-turns :
      (before rs : List SessionRow) (st now : St)
      → after_turns before st ≡ now
      → run_rows run_timer rs now ≡ (bodies_after before rs st, after_turns rs now)
  unfolding run_rows
  run_rows-turns before [] st now e = refl
  run_rows-turns before (r ∷ rs) st now e =
      let next = (run_timer r now).1 in
      let step : after_turns (before ++ r ∷ []) st ≡ next =
        after_turns-append before (r ∷ []) st ∙ ap (λ s. (run_timer r s).1) e in
      let rest = run_rows-turns (before ++ r ∷ []) rs st next step in rw (rest, e) refl

  -- One look attempts a timer turn for exactly the sessions of the table that are due, among those
  -- asked for, each once and in the table's order: the state is the one that all of these attempts
  -- leave, one after the other, and the bodies are those of the attempts that end in one. So the query
  -- for the candidates, by the least of the timeouts, misses none, and an attempt that fails keeps none
  -- of the later ones back.
  pub run_once_runs_due :
      (now : ℕ) (timeouts : List (String × ℕ)) (ids : Option (List String)) (rows : List SessionRow)
      (st : St)
      → let due_rows = due now timeouts (listed ids rows) in
        let looked = run_once run_timer now timeouts ids rows st in
        (looked.0 ≡ bodies_after [] due_rows st) × (looked.1 ≡ after_turns due_rows st)
  unfolding run_once
  run_once_runs_due now [] ids rows st = rw (due-no_timeouts now (listed ids rows)) (refl, refl)
  run_once_runs_due now ((state, t) ∷ ts) ids rows st =
      let timeouts = (state, t) ∷ ts in
      let turns = run_rows-turns [] (due now timeouts (listed ids rows)) st st refl in
      let same =
        due_of_candidates now (least t ts) timeouts ids rows (λ at. least-lookup at state t ts) in
      rw same (ap (λ looked. looked.0) turns, ap (λ looked. looked.1) turns)
