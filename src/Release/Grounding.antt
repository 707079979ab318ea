-- ===== src/Release/Grounding.antt =====
-- rails/output.py: rails 6 and 7 on a draft.
use suraksha_setu.Prelude.{
  ℕ, String, ◌+◌, Bool, true, false, not, ◌&&◌, ◌||◌, Option, none, some, List, [], ◌∷◌, ◌++◌, ltb,
  ◌==◌, ◌str_eq◌, if◌then◌else◌, length,
}
use suraksha_setu.Prelude.Dict.{lookup, insert}
use suraksha_setu.Prelude.Texts.{in_texts}
use suraksha_setu.Release.Context.{
  Rail, Action, Score, no_score, entailed_share, Line, needs_domain, needs_clause, not_allowed,
  names_product, no_placeholders, uncited, unsupported, bad_placeholder, unsourced_number,
  not_issued, malformed_citation, verifier_down, Verdict, is_nil, judged, EvidenceChunk, EngineFact,
  TurnHandles, Numbers, OutputContext, Rule, ClauseType, LexiconPack, Reading, Sentence, sentences,
}

-- Of each handle that is in the dictionary, its entry.
abbrev pub entries_of : {A : Type 0} → List String → List (String × A) → List A
entries_of [] dict = []
entries_of (h ∷ hs) dict = elim (lookup h dict) [
  | none ↦ entries_of hs dict
  | some a ↦ a ∷ entries_of hs dict
]

abbrev pub any_domain : String → List EvidenceChunk → Bool
any_domain domain [] = false
any_domain domain (c ∷ cs) = c.domain str_eq domain || any_domain domain cs

-- `_is_clause`
abbrev pub is_clause : ClauseType → EvidenceChunk → Bool
is_clause clause c =
    c.domain str_eq clause.domain
    && in_texts c.doc_type clause.doc_types
    && clause.section c.heading
    && clause.text c.text

abbrev pub any_clause : ClauseType → List EvidenceChunk → Bool
any_clause clause [] = false
any_clause clause (c ∷ cs) = is_clause clause c || any_clause clause cs

abbrev pub Hits : Type 0
Hits = List (String × List Line)

abbrev pub or_empty : Option (List Line) → List Line
or_empty none = []
or_empty (some ls) = ls

abbrev pub unless : Bool → Line → List Line
unless true line = []
unless false line = line ∷ []

-- The words of a list that are not in another, each once.
abbrev pub missing_from : List String → List String → List String → List String
missing_from issued seen [] = []
missing_from issued seen (h ∷ hs) =
    let rest = missing_from issued (h ∷ seen) hs in
    if in_texts h issued || in_texts h seen then rest else h ∷ rest

-- `Counter`'s count of a text
abbrev pub times : String → List String → ℕ
times h [] = 0
times h (x ∷ xs) = (if h str_eq x then 1 else 0) + times h xs

abbrev pub same_times : List String → List String → List String → Bool
same_times [] as' bs = true
same_times (h ∷ hs) as' bs = (times h as' == times h bs) && same_times hs as' bs

-- `Counter(a) == Counter(b)`
abbrev pub same_counter : List String → List String → Bool
same_counter as' bs = same_times (as' ++ bs) as' bs

abbrev pub keys : {A : Type 0} → List (String × A) → List String
keys [] = []
keys ((k, a) ∷ rest) = k ∷ keys rest

abbrev pub issued_of : TurnHandles → List String
issued_of h = keys h.evidence ++ keys h.engine

abbrev pub not_issued_lines : List String → List Line
not_issued_lines [] = []
not_issued_lines (h ∷ hs) = not_issued h ∷ not_issued_lines hs

abbrev pub any_in : List String → List String → Bool
any_in [] texts = false
any_in (h ∷ hs) texts = in_texts h texts || any_in hs texts

abbrev pub all_in : List String → List String → Bool
all_in [] texts = true
all_in (h ∷ hs) texts = in_texts h texts && all_in hs texts

-- The problems of each sentence, in order.
unfoldable pub of_each : (Sentence → List Line) → List Sentence → List Line
of_each f [] = []
of_each f (s ∷ ss) = f s ++ of_each f ss

abbrev pub fact_uins : Reading → List (String × EngineFact) → List String
fact_uins reading [] = []
fact_uins reading ((h, f) ∷ rest) = reading.uins_of_fact f ++ fact_uins reading rest

module _ (reading : Reading) (pack : LexiconPack) (ctx : OutputContext) where
  abbrev pub required : Option String → Rule → Sentence → List EvidenceChunk → String → List Line
  required (some domain) rule s chunks match =
      unless (any_domain domain chunks) (needs_domain rule.id s.n match)
  required none rule s chunks match = elim rule.allow_if [
    | some name ↦
        unless (any_clause (pack.clause_types name) chunks) (needs_clause rule.id s.n match)
    | none ↦ not_allowed rule.id s.n match ∷ []
  ]

  abbrev pub hit_rule : Sentence → List EvidenceChunk → Rule → Hits → Hits
  hit_rule s chunks rule hits = elim (rule.pattern s.text) [
    | none ↦ hits
    | some match ↦
        insert rule.id
          (or_empty (lookup rule.id hits) ++ required rule.require_domain rule s chunks match) hits
  ]

  unfoldable pub hit_rules : Sentence → List EvidenceChunk → List Rule → Hits → Hits
  hit_rules s chunks [] hits = hits
  hit_rules s chunks (r ∷ rs) hits = hit_rules s chunks rs (hit_rule s chunks r hits)

  unfoldable pub hit_sentences : List Sentence → Hits → Hits
  unfolding hit_rules
  hit_sentences [] hits = hits
  hit_sentences (s ∷ ss) hits =
      hit_sentences ss (hit_rules s (entries_of s.handles ctx.handles.evidence) pack.rules hits)

  abbrev pub verdicts_of : Hits → List Verdict
  verdicts_of [] = []
  verdicts_of ((rule, problems) ∷ hits) =
      record {
        rail = Rail.lexicon;
        rule_id = rule;
        action = if is_nil problems then Action.allow else Action.fail;
        score = no_score;
        detail = problems;
      }
      ∷ verdicts_of hits

  abbrev pub or_pass : List Verdict → List Verdict
  or_pass [] = judged Rail.lexicon "none" Action.fail [] ∷ []
  or_pass (v ∷ vs) = v ∷ vs

  -- `lexicon`, rail 6: a verdict for each rule that matched, or one pass.
  unfoldable pub lexicon : String → List Verdict
  unfolding hit_sentences sentences
  lexicon text =
      or_pass (verdicts_of (hit_sentences (sentences reading (reading.normalise text)) []))

  -- `_verdict`
  abbrev pub verdict : String → List Line → Verdict
  verdict rule = judged Rail.grounding rule Action.fail

  abbrev pub allowed_uins : List String
  allowed_uins =
      ctx.customer_uins ++ (if ctx.is_s3 then fact_uins reading ctx.handles.engine else [])

  -- `_products` (I3)
  unfoldable pub products : List Sentence → Verdict
  unfolding of_each
  products ss = verdict "GR-PRODUCT" (
      of_each
        (λ s. unless (all_in (reading.products_named s.text) allowed_uins) (names_product s.n)) ss)

  abbrev pub placeholder_of : Option Numbers → Sentence → List Line
  placeholder_of none s = unless (not (reading.has_brace s.text)) (no_placeholders s.n)
  placeholder_of (some numbers) s = elim (numbers.fill_error s.text) [
    | none ↦ []
    | some reason ↦ bad_placeholder s.n reason ∷ []
  ]

  -- `_placeholders`
  unfoldable pub placeholders : String → Option Numbers → Verdict
  unfolding of_each sentences
  placeholders raw numbers =
      verdict "GR-PLACEHOLDER" (of_each (placeholder_of numbers) (sentences reading raw))

  abbrev pub source_of : String → List String
  source_of h = elim (lookup h ctx.handles.evidence) [
    | some c ↦ reading.source_of_chunk c ∷ []
    | none ↦ elim (lookup h ctx.handles.engine) [
      | some f ↦ reading.source_of_fact f ∷ []
      | none ↦ []
    ]
  ]

  unfoldable pub sources : List String → List String
  sources [] = []
  sources (h ∷ hs) = source_of h ++ sources hs

  abbrev pub any_appears : String → List String → Bool
  any_appears token [] = false
  any_appears token (s ∷ ss) = reading.appears token s || any_appears token ss

  -- Each token once.
  unfoldable pub unsourced : ℕ → List String → List String → List String → List Line
  unsourced n cited_sources seen [] = []
  unsourced n cited_sources seen (t ∷ ts) =
      let rest = unsourced n cited_sources (t ∷ seen) ts in
      if in_texts t seen || any_appears t cited_sources then rest else unsourced_number n t ∷ rest

  -- `_numbers`
  unfoldable pub numbers_sourced : List Sentence → Verdict
  unfolding of_each unsourced sources
  numbers_sourced ss =
      verdict "GR-NUMBER"
        (of_each (λ s. unsourced s.n (sources s.handles) [] (reading.number_tokens s.text)) ss)

  -- `_handles`
  unfoldable pub handles_issued : String → String → Verdict
  handles_issued raw normalised = verdict "GR-HANDLE" (
      not_issued_lines (missing_from (issued_of ctx.handles) [] (reading.cited raw))
      ++ unless (same_counter (reading.cited raw) (reading.cited normalised)) malformed_citation)

  -- `factual`
  abbrev pub factual : String → Bool
  factual text =
      reading.has_factual_term text
      || reading.has_placeholder text
      || not (is_nil (reading.number_tokens text))

  -- `_citations`
  unfoldable pub citations : List Sentence → Verdict
  unfolding of_each
  citations ss = verdict "GR-CITATION" (
      of_each
        (λ s.
          unless (not (factual s.text) || any_in s.handles (issued_of ctx.handles)) (uncited s.n))
        ss)

  -- `grounding`, rail 7's checks on the text.
  unfoldable pub grounding : String → Option Numbers → List Verdict
  unfolding sentences
  grounding text numbers =
      let normalised = reading.normalise text in
      let split = sentences reading normalised in
      products split
      ∷ placeholders text numbers
      ∷ numbers_sourced split
      ∷ handles_issued text normalised
      ∷ citations split
      ∷ []

-- verify-claims' answer, or the reason it is unavailable.
pub data ClaimReply : Type 0 where
  entailed not_entailed unparsed : ClaimReply
  down : String → ClaimReply

abbrev pub is_entailed : ClaimReply → Bool
is_entailed entailed = true
is_entailed _ = false

abbrev pub first_down : List (ℕ × ClaimReply) → Option String
first_down [] = none
first_down ((n, down reason) ∷ rest) = some reason
first_down ((n, _) ∷ rest) = first_down rest

abbrev pub unsupported_lines : List (ℕ × ClaimReply) → List Line
unsupported_lines [] = []
unsupported_lines ((n, r) ∷ rest) =
    if is_entailed r then unsupported_lines rest else unsupported n ∷ unsupported_lines rest

module _ (reading : Reading) (pack : LexiconPack) (ctx : OutputContext) where
  -- `_nli_due`
  abbrev pub nli_due : Bool
  nli_due = ctx.is_recommend || ltb ctx.draw ctx.verify_sample_rate

  -- The answers for the sentences that cite a source with a text.
  unfoldable pub claim_replies :
      (String → String → ClaimReply) → List Sentence → List (ℕ × ClaimReply)
  unfolding sources
  claim_replies check [] = []
  claim_replies check (s ∷ ss) =
      let premise = reading.joined (sources reading pack ctx s.handles) in
      let rest = claim_replies check ss in
      if premise str_eq "" then rest else (s.n, check s.text premise) ∷ rest

  abbrev pub nli : Action → Score → List Line → Verdict
  nli action score detail = record {
    rail = Rail.grounding;
    rule_id = "GR-NLI";
    action = action;
    score = score;
    detail = detail;
  }

  abbrev pub nli_verdict : List (ℕ × ClaimReply) → Option String → Verdict
  nli_verdict replies (some reason) = nli Action.unavailable no_score (verifier_down reason ∷ [])
  nli_verdict [] none = nli Action.pass no_score []
  nli_verdict (r ∷ rs) none =
      let problems = unsupported_lines (r ∷ rs) in
      nli (if is_nil problems then Action.pass else Action.fail)
        (entailed_share (length problems) (length (r ∷ rs))) problems

  -- `verify_claims`
  unfoldable pub verify_claims : (String → String → ClaimReply) → String → Verdict
  unfolding claim_replies sentences
  verify_claims check text =
      let replies = claim_replies check (sentences reading (reading.normalise text)) in
      if nli_due
      then nli_verdict replies (first_down replies)
      else nli Action.not_sampled no_score []
