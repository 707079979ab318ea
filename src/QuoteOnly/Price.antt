-- ===== src/QuoteOnly/Price.antt =====
-- graph/states/quote_only.py: the plan that is named, and its quote. Of the errors of the services,
-- another 4xx than those that are named ends the turn and is not modelled.
use suraksha_setu.Prelude.{
  ℕ, String, Bool, true, false, not, ◌&&◌, Option, none, some, List, [], ◌∷◌, ◌++◌, ◌==◌, ◌str_eq◌,
  if◌then◌else◌,
}
use suraksha_setu.Prelude.Dict.{lookup}
use suraksha_setu.Prelude.Texts.{in_texts}
use suraksha_setu.Fsm.Facts.{is_some}
use suraksha_setu.Screening.State.{
  Value, nothing, number, declined, Prefix, PromptId, ask_prompt, other_prompt, QuickReply,
  code_reply, Setup, Screen, ok, raised,
}
use suraksha_setu.Screening.Take.{Known, write}
use suraksha_setu.Screening.Prompt.{reply, value_of}
use suraksha_setu.QuoteOnly.State.{
  Product, QuoteRequest, PremiumQuote, Problem, ProductAnswer, found, not_found, catalog_down,
  QuoteAnswer, priced, out_of_bounds, withdrawn, rating_down, Services, QuoteInput, QuoteSession,
  Outcome,
}

-- PLAN, QUOTED and BLOCKED
abbrev pub plan_prompt : PromptId
plan_prompt = other_prompt "qo.plan"

abbrev pub quoted_prompt : PromptId
quoted_prompt = other_prompt "qo.quoted"

abbrev pub blocked_prompt : PromptId
blocked_prompt = other_prompt "qo.blocked"

-- The quick replies OPT_IN and SATISFIED.
abbrev pub next_replies : List QuickReply
next_replies = code_reply "action" "OPT_IN" ∷ code_reply "action" "SATISFIED" ∷ []

abbrev pub on_screen : (Screen → Screen) → QuoteSession → QuoteSession
on_screen f q = record q { screen = f q.screen }

abbrev pub prompted : Option String → PromptId → List String → List QuickReply → Screen → Screen
prompted slot prompt parts quick s =
    reply parts quick
      (record s { pending_slot = slot; last_prompt_id = some prompt; phrase = none })

-- `_next_step`
unfoldable pub next_step : List String → QuoteSession → QuoteSession
unfolding reply
next_step parts = on_screen (prompted none quoted_prompt parts next_replies)

-- `_ask_plan`: the assistant never proposes a plan (I3).
unfoldable pub ask_plan : QuoteSession → QuoteSession
unfolding reply
ask_plan = on_screen (prompted none plan_prompt ("plan_ask" ∷ []) [])

-- `_unavailable`: the plan cannot be priced.
unfoldable pub unavailable : String → QuoteSession → QuoteSession
unfolding reply
unavailable part q = record (on_screen (prompted none plan_prompt (part ∷ []) []) q) {
  focus_uins = [];
  quote = none;
}

abbrev pub is_one : List String → Bool
is_one (uin ∷ []) = true
is_one _ = false

abbrev pub new_plan : List String → List String → Option String
new_plan (uin ∷ []) focus = if in_texts uin focus then none else some uin
new_plan _ focus = none

abbrev pub take_plan : Option String → QuoteSession → QuoteSession
take_plan none q = q
take_plan (some uin) q = record (on_screen (λ s. record s { noted = true }) q) {
  focus_uins = uin ∷ [];
  quote = none;
}

-- `_plan`: the plan that the customer named; a new one drops the last quote. A message is read with the
-- catalog's list of plans, which may fail.
unfoldable pub plan : Services → QuoteInput → QuoteSession → Outcome
plan services input q =
    if not (is_some input.turn.pipeline)
    then (ok tt, q)
    else if services.lists_products
    then (ok tt, take_plan (new_plan input.named q.focus_uins) q)
    else (raised, q)

abbrev pub value_at : String → Known → Value
value_at slot known = value_of (lookup slot known)

-- `values.get(slot) or default`
abbrev pub or_default : Value → ℕ → ℕ
or_default (number n) default = if n == 0 then default else n
or_default _ default = default

abbrev pub is_null : Value → Bool
is_null nothing = true
is_null _ = false

-- A tobacco answer that was declined.
abbrev pub is_withheld : Known → Bool
is_withheld known = is_null (value_at "tobacco_12m" known)

abbrev pub request_for : String → Product → Known → QuoteRequest
request_for uin product known = record {
  uin = uin;
  sum_assured_inr =
      or_default (value_at "sum_assured_inr" known) product.quote_defaults.sum_assured_inr;
  term_years = or_default (value_at "term_years" known) product.quote_defaults.term_years;
  ppt = product.quote_defaults.ppt;
  rider_uins = product.quote_defaults.rider_uins;
  age_years = value_at "age_years" known;
  gender = value_at "gender" known;
  tobacco_12m = value_at "tobacco_12m" known;
  frequency = product.quote_defaults.frequency;
}

-- `bounds_part`
abbrev pub bounds_part : Problem → Option String
bounds_part p =
    if (p.field str_eq "sum_assured_inr") && is_some p.allowed_min
    then some "cover_bounds"
    else if (p.field str_eq "term_years") && is_some p.allowed_min && is_some p.allowed_max
    then some "term_bounds"
    else none

abbrev pub is_entry_age : Problem → Bool
is_entry_age p = (p.field str_eq "age_years") && is_some p.allowed_min && is_some p.allowed_max

module _ (setup : Setup) where
  abbrev pub cleared : String → Screen → Screen
  cleared field s =
      if is_some (lookup field s.known)
      then write setup field nothing declined setup.full_confidence s
      else s

  abbrev pub bounds_with : Problem → Option String → QuoteSession → QuoteSession
  bounds_with p (some part) = on_screen (λ s.
      prompted (some p.field) (ask_prompt Prefix.qo p.field) (part ∷ []) [] (cleared p.field s))
  bounds_with p none = unavailable (if is_entry_age p then "age_bounds" else "plan_unavailable")

  -- `_bounds`: a value that was refused is cleared, and asked again with the bounds of the problem.
  unfoldable pub bounds : Problem → QuoteSession → QuoteSession
  unfolding unavailable write reply
  bounds p = bounds_with p (bounds_part p)

module _ (setup : Setup) (services : Services) where
  abbrev pub card_parts : List String
  card_parts = "quote_card" ∷ "registry:DISC-GLOBAL-QUOTE-02" ∷ "quote_caveat" ∷ "quote_next" ∷ []

  abbrev pub with_disclosure : Option String → QuoteSession → Outcome
  with_disclosure none q = (raised, q)
  with_disclosure (some body) q =
      (ok tt, next_step card_parts (record q { shown = q.shown ++ body ∷ [] }))

  -- The answer of the quote adapter. The quote is held before its disclosure is read.
  unfoldable pub on_quote : QuoteAnswer → QuoteSession → Outcome
  unfolding next_step bounds unavailable
  on_quote (priced quote) q =
      with_disclosure services.get_disclosure
        (record q { quote = some quote; decisions = q.decisions ++ quote ∷ [] })
  on_quote (out_of_bounds p) q = (ok tt, bounds setup p q)
  on_quote withdrawn q = (ok tt, unavailable "plan_unavailable" q)
  on_quote rating_down q = (raised, q)

  unfoldable pub on_product : String → ProductAnswer → QuoteSession → Outcome
  unfolding on_quote unavailable
  on_product uin (found product) q =
      on_quote (services.create_quote (request_for uin product q.screen.known)) q
  on_product uin not_found q = (ok tt, unavailable "plan_unknown" q)
  on_product uin catalog_down q = (raised, q)

  abbrev pub is_quoted : String → Option PremiumQuote → Bool
  is_quoted uin none = false
  is_quoted uin (some quote) = quote.uin str_eq uin

  -- `_quote`, for the plan in focus.
  unfoldable pub quote_plan : String → QuoteSession → Outcome
  unfolding next_step on_product
  quote_plan uin q =
      if is_withheld q.screen.known
      then (ok tt, next_step ("quote_withheld" ∷ []) q)
      else if is_quoted uin q.quote
      then (ok tt, next_step ("quote_next" ∷ []) q)
      else on_product uin (services.get_product uin) q
