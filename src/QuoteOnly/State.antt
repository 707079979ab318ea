-- ===== src/QuoteOnly/State.antt =====
-- graph/states/quote_only.py: the state of a turn of Quote-Only, and the services that it asks: the
-- catalog, the quote adapter and the disclosure registry, which are parameters.
use suraksha_setu.Prelude.{ℕ, String, Bool, Option, List}
use suraksha_setu.Screening.State.{Value, TurnInput, Screen, Result}

pub record QuoteDefaults : Type 0 where
  pub sum_assured_inr : ℕ
  pub term_years : ℕ
  pub ppt : String
  pub rider_uins : List String
  pub frequency : String

pub record Product : Type 0 where
  pub name : String
  pub quote_defaults : QuoteDefaults

pub record QuoteRequest : Type 0 where
  pub uin : String
  pub sum_assured_inr : ℕ
  pub term_years : ℕ
  pub ppt : String
  pub rider_uins : List String
  pub age_years : Value
  pub gender : Value
  pub tobacco_12m : Value
  pub frequency : String

pub record PremiumQuote : Type 0 where
  pub quote_id : String
  pub uin : String
  pub annual_premium_inr : ℕ

-- The 422's body.
pub record Problem : Type 0 where
  pub field : String
  pub allowed_min : Option ℕ
  pub allowed_max : Option ℕ

-- What the services answer; the last of each is the tier being down.
pub data ProductAnswer : Type 0 where
  found : Product → ProductAnswer
  not_found catalog_down : ProductAnswer

pub data QuoteAnswer : Type 0 where
  priced : PremiumQuote → QuoteAnswer
  out_of_bounds : Problem → QuoteAnswer
  withdrawn rating_down : QuoteAnswer

pub record Services : Type 0 where
  -- the process holds the names of the catalog's plans, or the catalog answers them
  pub lists_products : Bool
  pub get_product : String → ProductAnswer
  pub create_quote : QuoteRequest → QuoteAnswer
  -- the body of DISC-GLOBAL-QUOTE-02
  pub get_disclosure : Option String

pub data QuoteAction : Type 0 where
  opt_in satisfied other_kind : QuoteAction

pub record QuoteInput : Type 0 where
  pub turn : TurnInput
  pub kind : QuoteAction
  -- of the message: it asks to apply, and the plans of the catalog's list that it names
  pub asks_to_apply : Bool
  pub named : List String
  pub is_valid : Bool
  pub asks_human : Bool
  pub overlong : Bool
  -- P3 is granted
  pub has_marketing : Bool

-- The session and the turn: the screen, and what Quote-Only keeps beside it.
pub record QuoteSession : Type 0 where
  pub screen : Screen
  pub focus_uins : List String
  pub quote : Option PremiumQuote
  -- the quotes of the turn's ENGINE_DECISION events, and the approved texts that were shown
  pub decisions : List PremiumQuote
  pub shown : List String

abbrev pub Outcome : Type 0
Outcome = Result (Unit {0}) × QuoteSession
