-- ===== src/Release/Tests.antt =====
-- Releases of one draft, and the theorems at inputs that meet their hypotheses.
use suraksha_setu.Prelude.{
  ℕ, String, ◌≡◌, refl, true, false, Option, none, some, [], ◌∷◌, ◌str_eq◌, if◌then◌else◌,
}
use Prim.Native.String.{◌++◌ as ◌then◌}
use suraksha_setu.Prelude.Dict.{lookup, last_of, insert}
use suraksha_setu.Release.Context.{
  OutputContext, LexiconPack, Reading, sentences, add_pieces, numbered,
}
use suraksha_setu.Release.Grounding.{
  ClaimReply, lexicon, hit_sentences, hit_rules, grounding, products, placeholders, numbers_sourced,
  unsourced, sources, handles_issued, citations, of_each, verify_claims, claim_replies,
}
use suraksha_setu.Release.Checks.{
  DisclosureSet, Rendered, GuardReply, disclosures, each_option, guard, leaks, foreign_kinds, dummy,
  count_word,
}
use suraksha_setu.Release.Policy.{
  Kind, Released, Setup, failed_of, settle_all, lines_of, judge, try_each, checks, by_check,
  release,
}
use suraksha_setu.Release.Origin.{Origin}
use suraksha_setu.Release.Released.{Outcome, released_by_policy}
use suraksha_setu.Release.Disclosed.{IsDisclosed, released_discloses}

-- A reading in which each text is one sentence that cites E1, and "covers" states a fact.
abbrev plain : Reading
plain = record {
  normalise = λ t. t;
  pieces = λ t. t ∷ [];
  leading_citations = λ t. none;
  cited = λ t. "E1" ∷ [];
  number_tokens = λ t. [];
  has_placeholder = λ t. false;
  has_brace = λ t. false;
  has_factual_term = λ t. t str_eq "covers";
  appears = λ token source. true;
  products_named = λ t. [];
  uins_of_fact = λ f. [];
  source_of_chunk = λ c. c.text;
  source_of_fact = λ f. f.content;
  joined = λ ts. "source";
}

abbrev one_rule : LexiconPack
one_rule = record {
  rules =
      record {
        id = "LX-GUARANTEE-01";
        pattern = λ t. if t str_eq "guaranteed" then some t else none;
        require_domain = none;
        allow_if = none;
      }
      ∷ [];
  clause_types = λ name. record {
    domain = "product";
    doc_types = [];
    section = λ t. false;
    text = λ t. false;
  };
}

abbrev context : OutputContext
context = record {
  is_s3 = true;
  is_recommend = true;
  draw = 0;
  verify_sample_rate = 0;
  handles = record {
    evidence =
        (
          "E1",
          record {
            domain = "product";
            doc_type = "WORDING";
            heading = "Cover";
            text = "It covers.";
          },
        )
        ∷ [];
    engine = [];
  };
  customer_uins = [];
}

abbrev disclosure_set : DisclosureSet
disclosure_set = record {
  uin = "U1";
  channel = "chat";
  language = "en";
  registry_version = "1";
  items = record { disclosure_id = "D1"; body = "Body"; body_sha256 = "Body" } ∷ [];
  set_sha256 = "U1";
}

abbrev render_one : Option String → Option Rendered
render_one none = none
render_one (some t) = some (record {
  text = t then " Note\nBody";
  rendered_sha256 = t then " Note\nBody";
  parts = ("disclosures:U1", "Note\nBody") ∷ [];
  disclosure_hashes = ("U1", "U1") ∷ [];
})

abbrev in_test : Setup
in_test = record {
  reading = plain;
  pack = one_rule;
  ctx = context;
  numbers = some (record { option_uins = "U1" ∷ []; fill_error = λ t. none });
  disclosure_sets = ("U1", disclosure_set) ∷ [];
  check_claim = λ attempt claim premise. ClaimReply.entailed;
  ask_guard = λ t. GuardReply.safe;
  regenerate = λ lines. some "covers";
  render = render_one;
  leak_reading = record {
    echoes = λ t. false;
    has_token = λ t. false;
    ids = λ t. [];
    entities = λ t. [];
  };
  own_ids = [];
  own_pii = [];
  approved_text = [];
  env = "prod";
  sha256 = λ t. t;
  content_sha256 = λ t. t;
  sha256_hex = λ c. c.uin;
  release_blocked = "Sorry.";
  advisor_offer = "An advisor can help.";
}

abbrev second_text : Released
second_text = record {
  kind = Kind.regenerated;
  text = "covers Note\nBody";
  rendered = render_one (some "covers");
  verdicts = by_check (release in_test (some "guaranteed")).0 [];
}

-- A draft that the lexicon refuses is regenerated once, and the second text is released.
guaranteed_regenerated : (release in_test (some "guaranteed")).1 ≡ some second_text
unfolding release judge lexicon hit_sentences hit_rules grounding products placeholders
    numbers_sourced unsourced sources handles_issued citations of_each verify_claims claim_replies
    sentences add_pieces numbered disclosures each_option guard leaks foreign_kinds dummy count_word
    failed_of settle_all lines_of try_each checks by_check lookup last_of insert
guaranteed_regenerated = refl

released_by_policy_example :
    (chosen : Option (String × ℕ)) × (Origin in_test (some "guaranteed") chosen
      × Outcome in_test chosen second_text)
released_by_policy_example =
    released_by_policy in_test (some "guaranteed") second_text guaranteed_regenerated

released_discloses_example : IsDisclosed in_test second_text
released_discloses_example =
    released_discloses in_test (some "guaranteed") second_text guaranteed_regenerated refl
