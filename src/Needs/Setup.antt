-- ===== src/Needs/Setup.antt =====
-- graph/states/s2.py: the slots of the needs discovery, what the rules and the services give it, and
-- the needs payload. An amount of rupees is kept as its number, where the source keeps its digits.
-- The texts' understanding, the hash and the Suitability Service (with the eligibility snapshot that
-- is sent with the needs) are parameters.
use suraksha_setu.Prelude.{
  ℕ, String, Bool, true, false, not, ◌&&◌, ◌||◌, Option, none, some, List, [], ◌∷◌, ◌==◌, ◌str_eq◌,
  if◌then◌else◌,
}
use suraksha_setu.Prelude.Dict.{lookup, count_of}
use suraksha_setu.Prelude.Texts.{in_texts}
use suraksha_setu.Fsm.Facts.{Score, is_some}
use suraksha_setu.Turn.State.{EligibilityPayload, SuitabilityResult}
use suraksha_setu.Screening.State.{
  Value, nothing, flag, number, text, goals, SlotStatus, RequiredAttribute, Prefix, QuickReply,
  slot_reply, Understood, ScreenSettings, Setup, Screen, NeedsBody,
}
use suraksha_setu.Screening.Take.{Known}

abbrev pub needs_names : List String
needs_names =
    "goals" ∷ "annual_income_inr" ∷ "income_type" ∷ "dependants" ∷ "liabilities"
    ∷ "existing_cover_inr" ∷ "employer_cover_inr" ∷ "existing_annual_premium_inr"
    ∷ "earmarked_assets_inr" ∷ "premium_budget_inr_pa" ∷ []

abbrev short_slots : List String
short_slots = "annual_income_inr" ∷ "dependants" ∷ "liabilities" ∷ []

abbrev nullable_slots : List String
nullable_slots = "annual_income_inr" ∷ "earmarked_assets_inr" ∷ "premium_budget_inr_pa" ∷ []

-- DEFAULTS
abbrev default_of : String → Option Value
default_of slot =
    if slot str_eq "goals"
    then some (goals ("income_protection" ∷ []))
    else if slot str_eq "income_type"
    then some (text "salaried")
    else if slot str_eq "existing_annual_premium_inr"
    then some (number 0)
    else none

-- DISTRESS
abbrev pub distress_slot : String
distress_slot = "financial_distress"

-- The slots that the needs are read from.
abbrev pub sent_slots : List String
sent_slots = distress_slot ∷ needs_names

abbrev non_earning : List String
non_earning = "homemaker" ∷ "student" ∷ "retired" ∷ []

abbrev aliases : List (String × String)
aliases =
    ("income", "annual_income_inr")
    ∷ ("annual_income", "annual_income_inr")
    ∷ ("dependents", "dependants")
    ∷ ("loans", "liabilities")
    ∷ ("loan", "liabilities")
    ∷ ("existing_cover", "existing_cover_inr")
    ∷ ("employer_cover", "employer_cover_inr")
    ∷ ("existing_premium", "existing_annual_premium_inr")
    ∷ ("existing_premiums", "existing_annual_premium_inr")
    ∷ ("earmarked_assets", "earmarked_assets_inr")
    ∷ ("assets", "earmarked_assets_inr")
    ∷ ("premium_budget", "premium_budget_inr_pa")
    ∷ ("budget", "premium_budget_inr_pa")
    ∷ []

abbrev or_self : Option String → String → String
or_self none slot = slot
or_self (some name) slot = name

-- `ALIASES.get(slot, slot)`
abbrev pub alias_of : String → String
alias_of slot = or_self (lookup slot aliases) slot

pub record NeedsRules : Type 0 where
  pub settings : ScreenSettings
  pub profile_sufficiency_min : Score
  pub full_confidence : ℕ
  -- the slots of GET /v1/suitability/required-slots; none when the domain tier is down
  pub required : Option (List RequiredAttribute)
  pub understand : String → Value → String → Understood
  -- the keys of the bundle's labels, and the slots that it has a text of an assumption for
  pub goal_labels : List String
  pub income_labels : List String
  pub assumed : List String
  -- SHA-256 of the needs in their canonical form
  pub needs_sha256 : NeedsBody → String
  -- with the facts that the snapshot is of; none when the service is down
  pub evaluate_suitability :
      Option EligibilityPayload → Known → NeedsBody → String → Option SuitabilityResult

abbrev offers : String → List String → List QuickReply
offers slot [] = []
offers slot (label ∷ labels) = slot_reply slot (text label) ∷ offers slot labels

unfoldable pub choices : NeedsRules → String → List QuickReply
choices rules slot =
    if slot str_eq "goals"
    then offers slot rules.goal_labels
    else if slot str_eq "income_type"
    then offers slot rules.income_labels
    else if (slot str_eq "dependants") || (slot str_eq "liabilities")
    then offers slot ("none" ∷ [])
    else if (slot str_eq "earmarked_assets_inr") || (slot str_eq "premium_budget_inr_pa")
    then offers slot ("declined" ∷ [])
    else []

-- `Needs.open`, on slots that S2 can read: S1's screen with S2's hooks.
abbrev pub setup_of : NeedsRules → List RequiredAttribute → Setup
setup_of rules required = record {
  prefix = Prefix.s2;
  attrs = required;
  extra = [];
  settings = rules.settings;
  kinds = needs_names;
  alias = alias_of;
  eligibility_slots = [];
  needs_slots = sent_slots;
  understand = rules.understand;
  can_read = λ slot value. true;
  choices = choices rules;
  full_confidence = rules.full_confidence;
}

-- The guard of `open`: the rules ask only slots that S2 can read.
abbrev pub is_readable : List RequiredAttribute → Bool
is_readable [] = true
is_readable (a ∷ as') = in_texts a.attribute needs_names && is_readable as'

-- `short`
abbrev pub is_short : Screen → Bool
is_short s = not (count_of "short_path" s.counters == 0)

-- The short path asks three slots, and keeps whatever was answered.
unfoldable pub on_path : Bool → List RequiredAttribute → Known → List RequiredAttribute
on_path short [] known = []
on_path short (a ∷ as') known =
    let rest = on_path short as' known in
    if not short || in_texts a.attribute short_slots || is_some (lookup a.attribute known)
    then a ∷ rest
    else rest

-- The setup as S2's `asked` sees it: the attributes of the path that the session is on.
abbrev pub on_path_setup : Setup → Screen → Setup
on_path_setup setup s = record setup { attrs = on_path (is_short s) setup.attrs s.known }

abbrev pub is_nothing : Value → Bool
is_nothing nothing = true
is_nothing _ = false

-- A value that was declined is null where the contract has it, and else the default.
abbrev pub declined_value : String → Option Value
declined_value slot =
    if in_texts slot nullable_slots
    then some nothing
    else if slot str_eq "goals"
    then some (goals [])
    else default_of slot

abbrev pub sent_value : String → Option (SlotStatus × Value) → Option Value
sent_value slot none = default_of slot
sent_value slot (some (status, value)) =
    if is_nothing value then declined_value slot else some value

abbrev with_value : String → Option Value → List (String × Value) → List (String × Value)
with_value slot none rest = rest
with_value slot (some value) rest = (slot, value) ∷ rest

unfoldable pub slots_of : List String → Known → List (String × Value)
slots_of [] known = []
slots_of (slot ∷ slots) known =
    with_value slot (sent_value slot (lookup slot known)) (slots_of slots known)

abbrev pub is_set : Option (SlotStatus × Value) → Bool
is_set (some (status, flag b)) = b
is_set _ = false

-- `distress`
abbrev pub is_distress : Known → Bool
is_distress known = is_set (lookup distress_slot known)

-- `payload`
unfoldable pub payload : Known → ℕ → NeedsBody
payload known count = record {
  slots = slots_of needs_names known;
  financial_distress = is_distress known;
  comprehension_difficulty_count = count;
}

-- The answers that call for the note on a life without an income.
abbrev is_non_earning : String → Value → Bool
is_non_earning slot (text t) = (slot str_eq "income_type") && in_texts t non_earning
is_non_earning slot (number n) = (slot str_eq "annual_income_inr") && (n == 0)
is_non_earning slot _ = false

abbrev pub has_no_earnings : String → Option (SlotStatus × Value) → Bool
has_no_earnings slot none = false
has_no_earnings slot (some (status, value)) = is_non_earning slot value

-- `drop`: the held summary and its suitability record no longer match.
abbrev pub drop : Screen → Screen
drop s = record s { needs = none; suitability = none }
