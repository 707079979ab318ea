-- ===== src/Apply/State.antt =====
-- graph/states/s3.py and graph/state.py: what a turn of S3 reads and writes between the choice of a
-- plan and its hand-off. A date is the number of its day, an amount its rupees, and a list of riders
-- is kept sorted. The registry, the quote adapter and the application journey are parameters.
use suraksha_setu.Prelude.{
  ℕ, String, Bool, true, false, ◌&&◌, Option, none, some, List, [], ◌∷◌, leb, ◌str_eq◌,
  if◌then◌else◌,
}
use suraksha_setu.Prelude.Dict.{lookup}
use suraksha_setu.Turn.Decide.{Signal}

-- By the kind of the document: its hash.
pub record Documents : Type 0 where
  pub cis : Option String
  pub bi : Option String
  pub policy_wording : Option String

pub record Shown : Type 0 where
  pub registry_version : String
  pub set_sha256 : String
  pub documents : Documents

pub record DisclosureAck : Type 0 where
  pub uin : String
  pub registry_version : String
  pub disclosure_set_sha256 : String
  pub document_sha256 : Documents

pub record PricedQuote : Type 0 where
  pub quote_id : String
  pub sum_assured_inr : ℕ
  pub term_years : ℕ
  pub ppt : String
  pub rider_uins : List String
  pub frequency : String
  pub valid_until : ℕ

pub record Selection : Type 0 where
  pub uin : String
  pub quote : PricedQuote
  pub protection_gap_inr : ℕ
  pub customer_choice : Bool

pub record RecommendedOption : Type 0 where
  pub uin : String
  pub quote : Option PricedQuote
  pub protection_gap_inr : ℕ

pub record Recommendation : Type 0 where
  pub options : List RecommendedOption
  pub is_recorded : Bool
  pub shown : List (String × Shown)
  pub acks : List DisclosureAck
  pub selection : Option Selection
  pub suitability_inputs_sha256 : String

pub record Intake : Type 0 where
  pub uin : String
  pub quote : PricedQuote
  pub acks : List DisclosureAck
  pub suitability_inputs_sha256 : String

pub record Turn : Type 0 where
  pub rec : Recommendation
  pub recommended_cover_inr : ℕ
  pub signals : List Signal
  pub parts : List String
  pub last_prompt_id : Option String
  -- the rows of conv.disclosure_ack, and the intakes that the journey took or that are kept
  pub ack_rows : List DisclosureAck
  pub posted : List Intake
  pub pending : List Intake

-- The members that an APPLY carries of the customer's own.
pub record Choice : Type 0 where
  pub sum_assured_inr : Option ℕ
  pub term_years : Option ℕ
  pub ppt : Option String
  pub rider_uins : Option (List String)

pub record AckPayload : Type 0 where
  pub uin : String
  pub registry_version : Option String
  pub disclosure_set_sha256 : Option String
  pub document_sha256 : Option Documents

pub record PriceRequest : Type 0 where
  pub uin : String
  pub sum_assured_inr : ℕ
  pub term_years : ℕ
  pub ppt : String
  pub rider_uins : List String
  pub frequency : String

pub data PriceAnswer : Type 0 where
  priced : PricedQuote → PriceAnswer
  -- 422, with the part that names the bounds
  out_of_bounds : String → PriceAnswer
  refused : PriceAnswer

pub record Services : Type 0 where
  pub today : ℕ
  -- the version and the hash of a plan's set; none when the registry is down
  pub get_disclosure_set : String → Option (String × String)
  pub create_quote : PriceRequest → PriceAnswer
  pub post : Intake → Bool
  -- P2 is granted
  pub has_referral : Bool

-- How a step ends: with the reply, with the options presented again (which is not modelled here), or
-- in an error.
pub data Outcome : Type 0 where
  replied presented_again raised : Turn → Outcome

abbrev pub turn_of : Outcome → Turn
turn_of (replied t) = t
turn_of (presented_again t) = t
turn_of (raised t) = t

abbrev pub same_text : Option String → Option String → Bool
same_text none none = true
same_text (some a) (some b) = a str_eq b
same_text none (some b) = false
same_text (some a) none = false

abbrev pub same_documents : Documents → Documents → Bool
same_documents a b =
    same_text a.cis b.cis && same_text a.bi b.bi && same_text a.policy_wording b.policy_wording

abbrev pub same_document_map : Option Documents → Documents → Bool
same_document_map none b = false
same_document_map (some a) b = same_documents a b

-- `quote_valid`, of a quote that is there.
abbrev pub quote_valid : PricedQuote → ℕ → Bool
quote_valid quote today = leb today quote.valid_until

-- The set that the registry holds is the one that was shown.
abbrev pub is_unmoved : String × String → Shown → Bool
is_unmoved (version, sha) shown =
    (version str_eq shown.registry_version) && (sha str_eq shown.set_sha256)

-- `check_ack`: the problems.
abbrev pub problem_unless : Bool → String → List String → List String
problem_unless true problem rest = rest
problem_unless false problem rest = problem ∷ rest

unfoldable pub check_ack : AckPayload → Shown → String × String → List String
check_ack ack shown registry =
    problem_unless (same_text ack.registry_version (some shown.registry_version))
      "REGISTRY_VERSION_NOT_SHOWN"
      (problem_unless (same_text ack.disclosure_set_sha256 (some shown.set_sha256)) "SET_NOT_SHOWN"
        (problem_unless (is_unmoved registry shown) "REGISTRY_MOVED" (
          problem_unless (same_document_map ack.document_sha256 shown.documents)
            "DOCUMENTS_NOT_SHOWN" [])))

abbrev pub matches : DisclosureAck → Shown → Bool
matches a shown =
    (a.registry_version str_eq shown.registry_version)
    && (a.disclosure_set_sha256 str_eq shown.set_sha256)
    && same_documents a.document_sha256 shown.documents

unfoldable pub acks_for : String → List DisclosureAck → List DisclosureAck
acks_for uin [] = []
acks_for uin (a ∷ as') = let rest = acks_for uin as' in if a.uin str_eq uin then a ∷ rest else rest

abbrev pub all_match : List DisclosureAck → Shown → Bool
all_match [] shown = true
all_match (a ∷ as') shown = matches a shown && all_match as' shown

abbrev pub some_and_all : List DisclosureAck → Option Shown → Bool
some_and_all acks none = false
some_and_all [] (some shown) = false
some_and_all (a ∷ as') (some shown) = all_match (a ∷ as') shown

-- V7: an acknowledgment for the plan, and each matches what was shown.
abbrev pub acks_valid : Recommendation → String → Bool
acks_valid rec uin = some_and_all (acks_for uin rec.acks) (lookup uin rec.shown)
