-- ===== src/QuoteOnly/Tests.antt =====
-- A quote for one plan, and the theorems at inputs that meet their hypotheses.
use suraksha_setu.Prelude.{ℕ, String, ◌≡◌, refl, true, false, Option, none, some, [], ◌∷◌, ◌*◌}
use suraksha_setu.Prelude.Dict.{lookup, count_of}
use suraksha_setu.Fsm.States.{FsmState}
use suraksha_setu.Screening.State.{
  Value, nothing, flag, number, SlotStatus, Understood, answered, unusable, Prefix, Action, Setup,
}
use suraksha_setu.Screening.Take.{
  Known, asked_of, find_attr, first_missing, all_confirmed, count_invalid,
}
use suraksha_setu.Screening.Prompt.{reply, next}
use suraksha_setu.Screening.Respond.{respond, take_turn, respond_rest, after_readback}
use suraksha_setu.Needs.Own.{opened}
use suraksha_setu.QuoteOnly.State.{
  Product, PremiumQuote, ProductAnswer, found, QuoteRequest, QuoteAnswer, priced, Services,
  other_kind, QuoteInput, QuoteSession,
}
use suraksha_setu.QuoteOnly.Price.{
  on_screen, plan, is_withheld, quote_plan, on_product, on_quote, next_step,
}
use suraksha_setu.QuoteOnly.Node.{converse, node, enter, without}
use suraksha_setu.QuoteOnly.Priced.{From, converse-From}
use suraksha_setu.QuoteOnly.Named.{IsNamed, node-IsNamed}
use suraksha_setu.QuoteOnly.Withheld.{NoQuote, withheld_asks_nothing}

abbrev heard : String → Value → String → Understood
heard slot (number n) evidence =
    answered (record { value = number n; is_declined = false; is_derived = false })
heard slot raw evidence = unusable

abbrev quote_setup : Setup
quote_setup = record {
  prefix = Prefix.qo;
  attrs =
      record { attribute = "age_years"; reason_line_id = "RL-S1-AGE"; asked_if = none }
      ∷ record { attribute = "tobacco_12m"; reason_line_id = "RL-S1-TOBACCO"; asked_if = none }
      ∷ [];
  extra = "sum_assured_inr" ∷ "term_years" ∷ [];
  settings = record {
    confidence_readback_floor = 60;
    confidence_accept = 80;
    invalid_input_limit = 3;
  };
  kinds = "age_years" ∷ "tobacco_12m" ∷ [];
  alias = λ slot. slot;
  eligibility_slots = "age_years" ∷ "tobacco_12m" ∷ [];
  needs_slots = [];
  understand = heard;
  can_read = λ slot value. true;
  choices = λ slot. [];
  full_confidence = 100;
}

abbrev shield : Product
shield = record {
  name = "Shield";
  quote_defaults = record {
    sum_assured_inr = 10000000;
    term_years = 30;
    ppt = "regular";
    rider_uins = [];
    frequency = "annual";
  };
}

-- A premium that depends on the age.
abbrev premium_for : Value → ℕ
premium_for (number age) = age * 400
premium_for _ = 0

abbrev rating : QuoteRequest → QuoteAnswer
rating request = priced (record {
  quote_id = "Q1";
  uin = request.uin;
  annual_premium_inr = premium_for request.age_years;
})

abbrev services : Services
services = record {
  lists_products = true;
  get_product = λ uin. found shield;
  create_quote = rating;
  get_disclosure = some "DISC";
}

abbrev down : Services
down = record {
  lists_products = true;
  get_product = λ uin. ProductAnswer.catalog_down;
  create_quote = λ request. QuoteAnswer.rating_down;
  get_disclosure = none;
}

abbrev known_with : Value → Known
known_with tobacco =
    ("age_years", (SlotStatus.confirmed, number 30))
    ∷ ("tobacco_12m", (SlotStatus.confirmed, tobacco))
    ∷ []

abbrev session_with : Known → Option PremiumQuote → QuoteSession
session_with known quote = record {
  screen = record {
    fsm_state = FsmState.quote_only;
    counters = [];
    last_prompt_id = none;
    pending_slot = none;
    eligibility = none;
    needs = none;
    suitability = none;
    comprehension = 0;
    needs_events = [];
    slot_rows = [];
    signals = [];
    parts = [];
    quick_replies = [];
    phrase = none;
    is_answered = false;
    known = known;
    lead = [];
    replies = [];
    filled = [];
    offered = [];
    confirm = none;
    options = none;
    noted = false;
    period = none;
    offer_short = false;
    rephrased = false;
    distressed_now = false;
  };
  focus_uins = "UIN1" ∷ [];
  quote = quote;
  decisions = [];
  shown = [];
}

abbrev go_on : QuoteInput
go_on = record {
  turn = record {
    action = Action.other_action;
    pipeline = none;
    slots_pending = [];
    is_text = false;
    identity = false;
    handled = false;
  };
  kind = other_kind;
  asks_to_apply = false;
  named = [];
  is_valid = true;
  asks_human = false;
  overlong = false;
  has_marketing = false;
}

converse-From_example :
    From quote_setup services none
      (converse quote_setup services go_on (session_with (known_with (flag false)) none))
converse-From_example =
    converse-From quote_setup services go_on (session_with (known_with (flag false)) none)

-- At the age of 30 it is priced at 12000.
priced_at_30 :
    (converse quote_setup services go_on (session_with (known_with (flag false)) none)).quote
    ≡ some (record { quote_id = "Q1"; uin = "UIN1"; annual_premium_inr = 12000 })
unfolding converse opened plan respond take_turn respond_rest after_readback count_invalid next
    asked_of find_attr first_missing all_confirmed lookup quote_plan on_product on_quote next_step
priced_at_30 = refl

abbrev stale : PremiumQuote
stale = record { quote_id = "Q0"; uin = "UIN1"; annual_premium_inr = 8000 }

-- On entry, a quote of the same plan for other values is kept, and nothing is priced.
enter_keeps_stale :
    (enter quote_setup services go_on (session_with (known_with (flag false)) (some stale))).quote
    ≡ some stale
unfolding enter opened plan next asked_of find_attr first_missing all_confirmed lookup quote_plan
    next_step without
enter_keeps_stale = refl

node-IsNamed_example :
    IsNamed quote_setup services
      ("UIN1" ∷ [])
      []
      (node quote_setup services go_on (session_with (known_with nothing) none)).focus_uins
node-IsNamed_example =
    node-IsNamed quote_setup services go_on (session_with (known_with nothing) none)

declined_is_withheld :
    is_withheld
      (respond quote_setup go_on.turn
        (plan services go_on
          (on_screen (opened []) (session_with (known_with nothing) none))).1.screen).1.known
    ≡ true
unfolding opened plan respond take_turn respond_rest after_readback next asked_of find_attr
    first_missing all_confirmed lookup count_invalid
declined_is_withheld = refl

withheld_asks_nothing_example :
    let q = session_with (known_with nothing) none in
    let read =
      respond quote_setup go_on.turn (plan services go_on (on_screen (opened []) q)).1.screen in
    NoQuote quote_setup services down read.1 q
      (converse quote_setup services go_on q)
      (converse quote_setup down go_on q)
withheld_asks_nothing_example =
    withheld_asks_nothing quote_setup services down go_on (session_with (known_with nothing) none)
      declined_is_withheld refl

abbrev no_registry : Services
no_registry = record services { get_disclosure = none }

abbrev after_outage : QuoteSession
after_outage = converse quote_setup no_registry go_on (session_with (known_with (flag false)) none)

-- With the registry down the quote is held though its card was not shown; the retry then shows no
-- card either.
retry_shows_no_card :
    (converse quote_setup services go_on after_outage).screen.parts ≡ "quote_next" ∷ []
unfolding converse opened plan respond take_turn respond_rest after_readback count_invalid next
    asked_of find_attr first_missing all_confirmed lookup quote_plan on_product on_quote next_step
    reply count_of
retry_shows_no_card = refl
