-- ===== src/QuoteOnly/Node.antt =====
-- graph/states/quote_only.py: the node and its entry, and what they do besides a quote. The screen is
-- one that is loaded: a failure of `Screen.load` is left out, and so is a 4xx, which `outage` raises
-- again.
use suraksha_setu.Prelude.{
  ℕ, String, Bool, true, false, not, ◌&&◌, ◌||◌, Option, none, some, List, [], ◌∷◌, ◌str_eq◌,
  if◌then◌else◌,
}
use suraksha_setu.Prelude.Texts.{in_texts}
use suraksha_setu.Fsm.Facts.{is_some}
use suraksha_setu.Turn.State.{Intent}
use suraksha_setu.Turn.Facts.{has}
use suraksha_setu.Turn.Decide.{apply_request, advisory_opt_in, quote_satisfied}
use suraksha_setu.Screening.State.{
  PromptId, other_prompt, retry_reply, Setup, Screen, Result, ok, raised,
}
use suraksha_setu.Screening.Prompt.{is_nil, next}
use suraksha_setu.Screening.Respond.{respond, add_signal, said, intents_of_message}
use suraksha_setu.Screening.Evaluate.{engine_result, is_eligible}
use suraksha_setu.Needs.Own.{opened}
use suraksha_setu.QuoteOnly.State.{
  Services, QuoteAction, opt_in, satisfied, other_kind, QuoteInput, QuoteSession, Outcome,
}
use suraksha_setu.QuoteOnly.Price.{
  blocked_prompt, next_replies, on_screen, ask_plan, plan, quote_plan,
}

module _ (setup : Setup) (services : Services) where
  abbrev pub ask_or_quote : List String → Bool → QuoteSession → Outcome
  ask_or_quote [] ready q = (ok tt, ask_plan q)
  ask_or_quote (uin ∷ uins) true q = quote_plan setup services uin q
  ask_or_quote (uin ∷ uins) false q = (ok tt, q)

  -- A changed answer drops the quote.
  abbrev pub drop_changed : QuoteSession → QuoteSession
  drop_changed q = if is_nil q.screen.filled then q else record q { quote = none }

  abbrev pub after_respond : QuoteSession → Result Bool × Screen → Outcome
  after_respond q (ok ready, s) =
      let taken = drop_changed (record q { screen = s }) in
      ask_or_quote taken.focus_uins ready taken
  after_respond q (raised, s) = (raised, record q { screen = s })

  abbrev pub after_next : QuoteSession → Result Bool × Screen → Outcome
  after_next q (ok ready, s) = ask_or_quote q.focus_uins ready (record q { screen = s })
  after_next q (raised, s) = (raised, record q { screen = s })

  -- `outage`
  abbrev pub or_outage : Outcome → QuoteSession
  or_outage (ok done, q) = q
  or_outage (raised, q) =
      on_screen
        (λ s. record s {
          parts = "rating_unavailable" ∷ [];
          quick_replies = retry_reply ∷ [];
          phrase = none;
        })
        q

  -- The rest of the turn, unless the plan could not be read.
  abbrev pub after_plan : (QuoteSession → Outcome) → Outcome → Outcome
  after_plan rest (ok done, q) = rest q
  after_plan rest (raised, q) = (raised, q)

  -- A new screen, the plan and the answer.
  unfoldable pub converse : QuoteInput → QuoteSession → QuoteSession
  unfolding opened plan respond ask_plan quote_plan
  converse input q = or_outage (
      after_plan (λ planned. after_respond planned (respond setup input.turn planned.screen))
        (plan services input (on_screen (opened []) q)))

-- `_opt_in`
unfoldable pub take_opt_in : QuoteSession → QuoteSession
take_opt_in = on_screen (λ s.
    let told = add_signal advisory_opt_in s in
    elim (engine_result s.eligibility) [
      | none ↦ told
      | some result ↦
          if is_eligible result.outcome
          then record told { parts = "screening_done" ∷ []; quick_replies = [] }
          else told
    ])

-- `_satisfied`
unfoldable pub take_satisfied : Bool → QuoteSession → QuoteSession
take_satisfied has_marketing q =
    on_screen
      (λ s. record (add_signal quote_satisfied s) {
        parts =
            (if is_some q.quote then "quote_summary" else "goodbye")
            ∷ (if has_marketing then "reengage" ∷ [] else []);
        quick_replies = [];
      })
      q

-- `_hard_block`
unfoldable pub hard_block : QuoteSession → QuoteSession
hard_block = on_screen (λ s. record (add_signal apply_request s) {
  last_prompt_id = some blocked_prompt;
  parts = "hard_block" ∷ [];
  quick_replies = next_replies;
})

abbrev prompt_text : Option PromptId → String
prompt_text (some (other_prompt t)) = t
prompt_text _ = ""

-- What a turn at the quote or at the block does before any reading: opt in, be done, or neither.
abbrev pub at_quote : QuoteInput → Option PromptId → QuoteAction
at_quote input prompt =
    let at = prompt_text prompt in
    let declines = has Intent.decline (intents_of_message input.turn.pipeline) in
    if not (is_some input.turn.pipeline) || not (in_texts at ("qo.quoted" ∷ "qo.blocked" ∷ []))
    then other_kind
    else elim (said input.turn) [
      | some true ↦ opt_in
      | some false ↦ if at str_eq "qo.quoted" then satisfied else other_kind
      | none ↦ if declines && (at str_eq "qo.quoted") then satisfied else other_kind
    ]

unfoldable pub without : String → List (String × ℕ) → List (String × ℕ)
without key [] = []
without key ((at, n) ∷ rest) =
    let further = without key rest in if at str_eq key then further else (at, n) ∷ further

abbrev without_express : Screen → Screen
without_express s = record s { counters = without "express_path" s.counters }

module _ (setup : Setup) (services : Services) (input : QuoteInput) where
  abbrev pub by_action : QuoteAction → (QuoteSession → QuoteSession) → QuoteSession → QuoteSession
  by_action opt_in otherwise = take_opt_in
  by_action satisfied otherwise = take_satisfied input.has_marketing
  by_action other_kind otherwise = otherwise

  abbrev pub by_text : QuoteSession → QuoteSession
  by_text q =
      if is_some input.turn.pipeline && input.asks_to_apply
      then hard_block q
      else by_action (at_quote input q.screen.last_prompt_id) (converse setup services input) q

  unfoldable pub node : QuoteSession → QuoteSession
  unfolding take_opt_in take_satisfied hard_block converse
  node q =
      if not input.is_valid || input.asks_human || input.overlong
      then q
      else by_action input.kind by_text q

  -- `enter`, from S0 or S1.
  unfoldable pub enter : QuoteSession → QuoteSession
  unfolding opened plan next ask_plan quote_plan without
  enter q = or_outage setup services (
      after_plan setup services
        (λ planned. after_next setup services planned (next setup planned.screen))
        (plan services input (on_screen (λ s. without_express (opened [] s)) q)))
