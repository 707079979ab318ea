-- ===== src/Release/Checks.antt =====
-- rails/output.py: rail 8, on what was rendered. The hashes are functions; the identifiers and the
-- personal data that a text holds are those that the recognisers find.
use suraksha_setu.Prelude.{
  ℕ, zero, suc, String, ◌+◌, Bool, true, false, not, ◌&&◌, ◌||◌, Option, none, some, List, [], ◌∷◌,
  ◌++◌, ◌==◌, ◌str_eq◌, if◌then◌else◌,
}
use Prim.Native.String.{len, slice, find, ◌++◌ as ◌then◌}
use suraksha_setu.Prelude.Dict.{lookup, last_of}
use suraksha_setu.Prelude.Texts.{in_texts}
use suraksha_setu.Release.Context.{
  Rail, Action, no_score, counted, Line, text_hash_differs, set_missing, bodies_differ,
  body_hash_differs, set_hash_differs, no_model_text, guard_down, guard_unsafe, leak, Verdict,
  is_nil, judged, Numbers, ends_with, occurs_in,
}
use suraksha_setu.Release.Grounding.{unless}

pub record DisclosureItem : Type 0 where
  pub disclosure_id : String
  pub body : String
  pub body_sha256 : String

pub record DisclosureSet : Type 0 where
  pub uin : String
  pub channel : String
  pub language : String
  pub registry_version : String
  pub items : List DisclosureItem
  pub set_sha256 : String

pub record Rendered : Type 0 where
  pub text : String
  pub rendered_sha256 : String
  pub parts : List (String × String)
  pub disclosure_hashes : List (String × String)

-- guard-input's answer in output mode.
pub data GuardReply : Type 0 where
  safe not_safe guard_unavailable : GuardReply

-- The content that a set's hash is over.
pub record SetContent : Type 0 where
  pub registry_version : String
  pub uin : String
  pub channel : String
  pub language : String
  pub items : List (String × String)

-- What `leaks` reads in a text: whether it repeats the instructions word for word or holds a
-- redaction token, the ids in lower case, and the kind and the words of each entity.
pub record LeakReading : Type 0 where
  pub echoes : String → Bool
  pub has_token : String → Bool
  pub ids : String → List String
  pub entities : String → List (String × String)

-- "\n" before each body
abbrev pub bodies : List DisclosureItem → String
bodies [] = ""
bodies (i ∷ is) = "\n" then (i.body then bodies is)

module _ (content_sha256 : String → String) (sha256_hex : SetContent → String) where
  abbrev hashed_items : List DisclosureItem → List (String × String)
  hashed_items [] = []
  hashed_items (i ∷ is) = (i.disclosure_id, content_sha256 i.body) ∷ hashed_items is

  abbrev pub bodies_hashed : List DisclosureItem → Bool
  bodies_hashed [] = true
  bodies_hashed (i ∷ is) = (content_sha256 i.body str_eq i.body_sha256) && bodies_hashed is

  -- `_set_sha256`: over the bodies as they are shown, hashed again.
  abbrev pub set_hash : DisclosureSet → String
  set_hash shown = sha256_hex (record {
    registry_version = shown.registry_version;
    uin = shown.uin;
    channel = shown.channel;
    language = shown.language;
    items = hashed_items shown.items;
  })

  abbrev pub is_hash : Option String → String → Bool
  is_hash none h = false
  is_hash (some g) h = g str_eq h

  abbrev pub shown_lines : Rendered → String → DisclosureSet → String → List Line
  shown_lines rendered uin shown part =
      unless (ends_with part (bodies shown.items)) (bodies_differ uin)
      ++ (unless (bodies_hashed shown.items) (body_hash_differs uin)
          ++ unless
              (set_hash shown str_eq shown.set_sha256
                && is_hash (lookup uin rendered.disclosure_hashes) shown.set_sha256)
              (set_hash_differs uin))

  abbrev pub present : Rendered → String → DisclosureSet → String → List Line
  present rendered uin shown part =
      if is_nil shown.items || not (occurs_in part rendered.text)
      then set_missing uin ∷ []
      else shown_lines rendered uin shown part

  abbrev pub option_lines : Rendered → String → Option DisclosureSet → Option String → List Line
  option_lines rendered uin (some shown) (some part) = present rendered uin shown part
  option_lines rendered uin _ _ = set_missing uin ∷ []

  unfoldable pub each_option : Rendered → List (String × DisclosureSet) → List String → List Line
  each_option rendered sets [] = []
  each_option rendered sets (uin ∷ uins) =
      option_lines rendered uin (lookup uin sets) (last_of ("disclosures:" then uin) rendered.parts)
      ++ each_option rendered sets uins

  abbrev pub ranked : Option Numbers → List String
  ranked none = []
  ranked (some numbers) = numbers.option_uins

  -- `disclosures` (I4)
  unfoldable pub disclosures :
      (String → String) → Rendered → Option Numbers → List (String × DisclosureSet) → Verdict
  unfolding each_option
  disclosures sha256 rendered numbers sets = judged Rail.release "RC-DISCLOSURE" Action.block (
      unless (sha256 rendered.text str_eq rendered.rendered_sha256) text_hash_differs
      ++ each_option rendered sets (ranked numbers))

abbrev pub release_verdict : String → Action → List Line → Verdict
release_verdict rule action detail = record {
  rail = Rail.release;
  rule_id = rule;
  action = action;
  score = no_score;
  detail = detail;
}

abbrev pub guard_answer : GuardReply → Verdict
guard_answer safe = release_verdict "RC-GUARD" Action.pass []
guard_answer not_safe = release_verdict "RC-GUARD" Action.block (guard_unsafe ∷ [])
guard_answer guard_unavailable = release_verdict "RC-GUARD" Action.block (guard_down ∷ [])

-- `guard`
unfoldable pub guard : (String → GuardReply) → Option String → Verdict
guard ask none = release_verdict "RC-GUARD" Action.pass (no_model_text ∷ [])
guard ask (some text) = guard_answer (ask text)

abbrev pub any_foreign : List String → List String → Bool
any_foreign own [] = false
any_foreign own (u ∷ us) = not (in_texts u own) || any_foreign own us

-- A kind for each that is neither the session's own nor approved, each kind once.
unfoldable pub foreign_kinds : List String → List String → List (String × String) → List Line
foreign_kinds known seen [] = []
foreign_kinds known seen ((kind, words) ∷ rest) =
    let named = leak ("pii:" then kind) ∷ foreign_kinds known (kind ∷ seen) rest in
    let unnamed = foreign_kinds known seen rest in
    if in_texts words known || in_texts kind seen then unnamed else named

module _ (reading : LeakReading) where
  abbrev pub has_echo : Option String → Bool
  has_echo none = false
  has_echo (some text) = reading.echoes text

  abbrev entity_words : List (String × String) → List String
  entity_words [] = []
  entity_words ((kind, words) ∷ rest) = words ∷ entity_words rest

  abbrev words_of_items : List DisclosureItem → List String
  words_of_items [] = []
  words_of_items (i ∷ is) = entity_words (reading.entities i.body) ++ words_of_items is

  -- The entities of approved text.
  abbrev approved_of_sets : List (String × DisclosureSet) → List String
  approved_of_sets [] = []
  approved_of_sets ((uin, shown) ∷ sets) = words_of_items shown.items ++ approved_of_sets sets

  abbrev approved_of_texts : List String → List String
  approved_of_texts [] = []
  approved_of_texts (t ∷ ts) = entity_words (reading.entities t) ++ approved_of_texts ts

  -- `leaks`
  unfoldable pub leaks :
      String
      → Option String
      → List String
      → List String
      → List String
      → List (String × DisclosureSet)
      → Verdict
  unfolding foreign_kinds
  leaks text model_text own_ids own_pii approved_text sets =
      judged Rail.release "RC-LEAK" Action.block (
        unless (not (has_echo model_text)) (leak "prompt_echo")
        ++ (unless (not (reading.has_token text)) (leak "redaction_token")
            ++ (unless (not (any_foreign own_ids (reading.ids text))) (leak "foreign_id")
                ++ foreign_kinds
                    (own_pii ++ (approved_of_sets sets ++ approved_of_texts approved_text)) []
                    (reading.entities text))))

-- `text.count("DUMMY")`, on fuel: each step leaves out the word found.
unfoldable pub count_word : ℕ → String → ℕ
count_word zero text = 0
count_word (suc fuel) text =
    let rest = count_word fuel (slice text (find text "DUMMY" + 5) (len text)) in
    if occurs_in "DUMMY" text then 1 + rest else 0

-- `dummy`
unfoldable pub dummy : String → String → Verdict
unfolding count_word
dummy text env =
    let count = count_word (len text) text in
    record {
      rail = Rail.release;
      rule_id = "RC-DUMMY";
      action =
          if count == 0
          then Action.pass
          else if in_texts env ("pilot" ∷ "prod" ∷ [])
          then Action.block
          else Action.count;
      score = counted count;
      detail = [];
    }
