-- ===== src/Release/Context.antt =====
-- rails/output.py: the verdicts, what a turn gives the rails, and the sentences. The regular
-- expressions, `normalise` and the engine's own formats are functions of the text, kept in `Reading`.
use suraksha_setu.Prelude.{
  ℕ, String, ◌+◌, ◌-◌, Bool, true, false, ◌&&◌, Option, none, some, List, [], ◌∷◌, ◌++◌, leb, ◌==◌,
  ◌str_eq◌, if◌then◌else◌,
}
use Prim.Native.String.{len, slice, find, ◌++◌ as ◌then◌}

pub data Rail : Type 0 where
  lexicon grounding release : Rail

-- The last two are what the policy makes of a fail or an unavailable.
pub data Action : Type 0 where
  pass allow fail unavailable not_sampled skipped block count regenerate fallback : Action

-- 1 - problems / claims, or a count.
pub data Score : Type 0 where
  no_score : Score
  entailed_share : ℕ → ℕ → Score
  counted : ℕ → Score

-- A line of a verdict's detail.
pub data Line : Type 0 where
  -- a rule, a sentence and the words that it matched
  needs_domain needs_clause not_allowed : String → ℕ → String → Line
  names_product no_placeholders uncited unsupported : ℕ → Line
  bad_placeholder unsourced_number : ℕ → String → Line
  not_issued : String → Line
  malformed_citation : Line
  verifier_down : String → Line
  text_hash_differs : Line
  -- a ranked product
  set_missing bodies_differ body_hash_differs set_hash_differs : String → Line
  no_model_text guard_down guard_unsafe : Line
  leak : String → Line

pub record Verdict : Type 0 where
  pub rail : Rail
  pub rule_id : String
  pub action : Action
  pub score : Score
  pub detail : List Line

abbrev pub is_nil {ℓ} : {A : Type ℓ} → List A → Bool
is_nil [] = true
is_nil (x ∷ xs) = false

-- "fail" if problems else "pass"
abbrev pub judged : Rail → String → Action → List Line → Verdict
judged rail rule bad problems = record {
  rail = rail;
  rule_id = rule;
  action = if is_nil problems then Action.pass else bad;
  score = no_score;
  detail = problems;
}

pub record EvidenceChunk : Type 0 where
  pub domain : String
  pub doc_type : String
  pub heading : String
  pub text : String

pub record EngineFact : Type 0 where
  pub rule : String
  pub label : String
  pub content : String

pub record TurnHandles : Type 0 where
  pub evidence : List (String × EvidenceChunk)
  pub engine : List (String × EngineFact)

-- Where placeholders are filled from: the ranked products, and the reason of `fill`'s refusal.
pub record Numbers : Type 0 where
  pub option_uins : List String
  pub fill_error : String → Option String

pub record OutputContext : Type 0 where
  pub is_s3 : Bool
  pub is_recommend : Bool
  -- the turn's draw and the sampling rate, as multiples of 2^-64
  pub draw : ℕ
  pub verify_sample_rate : ℕ
  pub handles : TurnHandles
  pub customer_uins : List String

pub record Rule : Type 0 where
  pub id : String
  -- the words that the pattern finds
  pub pattern : String → Option String
  pub require_domain : Option String
  pub allow_if : Option String

pub record ClauseType : Type 0 where
  pub domain : String
  pub doc_types : List String
  pub section : String → Bool
  pub text : String → Bool

pub record LexiconPack : Type 0 where
  pub rules : List Rule
  pub clause_types : String → ClauseType

pub record Reading : Type 0 where
  pub normalise : String → String
  -- the text split where a sentence ends, each piece stripped
  pub pieces : String → List String
  -- the citations that open a piece, and the rest of it, both stripped
  pub leading_citations : String → Option (String × String)
  pub cited : String → List String
  pub number_tokens : String → List String
  pub has_placeholder : String → Bool
  pub has_brace : String → Bool
  pub has_factual_term : String → Bool
  -- the number as a word of its own in a source
  pub appears : String → String → Bool
  pub products_named : String → List String
  pub uins_of_fact : EngineFact → List String
  pub source_of_chunk : EvidenceChunk → String
  pub source_of_fact : EngineFact → String
  pub joined : List String → String

pub record Sentence : Type 0 where
  pub n : ℕ
  pub text : String
  pub handles : List String

-- `t in s`
abbrev pub occurs_in : String → String → Bool
occurs_in t s = leb (find s t) (len s)

-- `s.endswith(t)`
abbrev pub ends_with : String → String → Bool
ends_with s t = leb (len t) (len s) && ((slice s (len s - len t) (len s)) str_eq t)

abbrev empty_text : String → Bool
empty_text t = len t == 0

module _ (reading : Reading) where
  -- The citations that open a piece, moved to the end of the one before.
  abbrev pub join_last : String → List String → List String
  join_last lead [] = []
  join_last lead (p ∷ []) = (p then (" " then lead)) ∷ []
  join_last lead (p ∷ q ∷ ps) = p ∷ join_last lead (q ∷ ps)

  abbrev pub add_part : String → List String → List String
  add_part piece parts = if empty_text piece then parts else parts ++ piece ∷ []

  abbrev pub add_piece : Option (String × String) → String → List String → List String
  add_piece none piece parts = add_part piece parts
  add_piece (some (lead, rest)) piece [] = add_part piece []
  add_piece (some (lead, rest)) piece (p ∷ ps) = add_part rest (join_last lead (p ∷ ps))

  unfoldable pub add_pieces : List String → List String → List String
  add_pieces [] parts = parts
  add_pieces (p ∷ ps) parts = add_pieces ps (add_piece (reading.leading_citations p) p parts)

  unfoldable pub numbered : ℕ → List String → List Sentence
  numbered n [] = []
  numbered n (p ∷ ps) = record { n = n; text = p; handles = reading.cited p } ∷ numbered (n + 1) ps

  unfoldable pub sentences : String → List Sentence
  unfolding add_pieces numbered
  sentences t = numbered 1 (add_pieces (reading.pieces t) [])
