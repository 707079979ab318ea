-- ===== src/Apply/Tests.antt =====
-- An application for one plan, and the theorems at inputs that meet their hypotheses.
use suraksha_setu.Prelude.{◌≡◌, refl, true, none, some, [], ◌∷◌}
use suraksha_setu.Prelude.Dict.{lookup}
use suraksha_setu.Apply.State.{
  Documents, Shown, PricedQuote, Turn, Choice, refused, Services, turn_of, check_ack, acks_for,
}
use suraksha_setu.Apply.Node.{
  Action, apply_plan, disclosure_ack, respond_to, apply, acknowledge, select, hand_off, deliver,
  find_option,
}
use suraksha_setu.Apply.Posted.{Posts, respond_to-Posts}

abbrev sheets : Documents
sheets = record { cis = some "c1"; bi = none; policy_wording = some "w1" }

abbrev shown_set : Shown
shown_set = record { registry_version = "2026.1"; set_sha256 = "s1"; documents = sheets }

abbrev quote_for_shield : PricedQuote
quote_for_shield = record {
  quote_id = "Q1";
  sum_assured_inr = 10000000;
  term_years = 30;
  ppt = "regular";
  rider_uins = [];
  frequency = "annual";
  valid_until = 20;
}

abbrev in_s3 : Turn
in_s3 = record {
  rec = record {
    options = record { uin = "UIN1"; quote = some quote_for_shield; protection_gap_inr = 0 } ∷ [];
    is_recorded = true;
    shown = ("UIN1", shown_set) ∷ [];
    acks = [];
    selection = none;
    suitability_inputs_sha256 = "a1";
  };
  recommended_cover_inr = 10000000;
  signals = [];
  parts = [];
  last_prompt_id = none;
  ack_rows = [];
  posted = [];
  pending = [];
}

abbrev services : Services
services = record {
  today = 12;
  get_disclosure_set = λ uin. some ("2026.1", "s1");
  create_quote = λ request. refused;
  post = λ intake. true;
  has_referral = true;
}

abbrev as_offered : Choice
as_offered = record { sum_assured_inr = none; term_years = none; ppt = none; rider_uins = none }

-- The plan is chosen: the acknowledgment is asked.
abbrev chosen : Turn
chosen = turn_of (respond_to services (apply_plan none as_offered) in_s3)

abbrev agrees : Action
agrees = disclosure_ack (record {
  uin = "UIN1";
  registry_version = some "2026.1";
  disclosure_set_sha256 = some "s1";
  document_sha256 = some sheets;
})

-- Then it is given, and the journey takes the intake.
abbrev handed_off : Turn
handed_off = turn_of (respond_to services agrees chosen)

takes_intake : handed_off.parts ≡ "handoff_application" ∷ []
unfolding respond_to apply acknowledge select hand_off deliver find_option lookup check_ack acks_for
takes_intake = refl

respond_to-Posts_example : Posts services handed_off
unfolding respond_to apply select find_option lookup acks_for
respond_to-Posts_example = respond_to-Posts services agrees chosen refl tt
