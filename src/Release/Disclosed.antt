-- ===== src/Release/Disclosed.antt =====
-- rails/output.py: I4, the disclosures of what is released.
use suraksha_setu.Prelude.{
  String, ◌≡◌, refl, Bool, true, false, ◌&&◌, Option, none, some, List, [], ◌∷◌, ◌++◌, ◌str_eq◌,
  if◌then◌else◌, arith, Bool-cases, inl, inr,
}
use Prim.Native.String.{◌++◌ as ◌then◌}
use suraksha_setu.Prelude.Dict.{lookup, last_of}
use suraksha_setu.Release.Context.{
  Rail, Action, Line, text_hash_differs, is_nil, judged, Numbers, ends_with, occurs_in,
}
use suraksha_setu.Release.Grounding.{unless}
use suraksha_setu.Release.Checks.{
  DisclosureSet, Rendered, SetContent, bodies, bodies_hashed, set_hash, is_hash, shown_lines,
  present, option_lines, each_option, ranked, disclosures,
}
use suraksha_setu.Release.Policy.{
  Kind, Released, Setup, is_block, any_action, Tried, tried, text_of, checks, outcome, after_render,
  release,
}

is_nil-++ : (ls ms : List Line) → is_nil (ls ++ ms) ≡ (is_nil ls && is_nil ms)
is_nil-++ [] ms = refl
is_nil-++ (l ∷ ls) ms = refl

is_nil-unless : (b : Bool) (l : Line) → is_nil (unless b l) ≡ b
is_nil-unless true l = refl
is_nil-unless false l = refl

module _ (content_sha256 : String → String) (sha256_hex : SetContent → String)
    (rendered : Rendered) where
  -- The product's disclosure part is in the text that is shown and ends with the bodies of its set, in
  -- order and verbatim; the bodies and the set hash to what the registry holds.
  pub record Discloses (sets : List (String × DisclosureSet)) (uin : String) : Type 0 where
    pub shown : DisclosureSet
    pub part : String
    pub is_held : lookup uin sets ≡ some shown
    pub is_part : last_of ("disclosures:" then uin) rendered.parts ≡ some part
    pub is_nonempty : is_nil shown.items ≡ false
    pub is_shown : occurs_in part rendered.text ≡ true
    pub ends_with_bodies : ends_with part (bodies shown.items) ≡ true
    pub are_hashed : bodies_hashed content_sha256 sha256_hex shown.items ≡ true
    pub is_set_hash : (set_hash content_sha256 sha256_hex shown str_eq shown.set_sha256) ≡ true
    pub is_recorded :
        is_hash content_sha256 sha256_hex (lookup uin rendered.disclosure_hashes) shown.set_sha256
        ≡ true

  abbrev pub AllDisclosed : List (String × DisclosureSet) → List String → Type 0
  AllDisclosed sets [] = Unit
  AllDisclosed sets (uin ∷ uins) = Discloses sets uin × AllDisclosed sets uins

  shown_lines-nil :
      (uin part : String) (shown : DisclosureSet)
      → is_nil (shown_lines content_sha256 sha256_hex rendered uin shown part) ≡ (
          ends_with part (bodies shown.items)
          && (bodies_hashed content_sha256 sha256_hex shown.items
              && ((set_hash content_sha256 sha256_hex shown str_eq shown.set_sha256)
                  && is_hash content_sha256 sha256_hex
                      (lookup uin rendered.disclosure_hashes)
                      shown.set_sha256)))
  shown_lines-nil uin part shown = simp (is_nil-++, is_nil-unless)

  present-Discloses :
      (sets : List (String × DisclosureSet)) (uin part : String) (shown : DisclosureSet)
      → lookup uin sets ≡ some shown
      → last_of ("disclosures:" then uin) rendered.parts ≡ some part
      → is_nil (present content_sha256 sha256_hex rendered uin shown part) ≡ true
      → Discloses sets uin
  present-Discloses sets uin part shown held at h =
      let lines = shown_lines-nil uin part shown in
      record {
        shown = shown;
        part = part;
        is_held = held;
        is_part = at;
        is_nonempty = ground arith;
        is_shown = ground arith;
        ends_with_bodies = ground arith;
        are_hashed = ground arith;
        is_set_hash = ground arith;
        is_recorded = ground arith;
      }

  option_lines-Discloses :
      (sets : List (String × DisclosureSet)) (uin : String) (o : Option DisclosureSet)
      (p : Option String)
      → lookup uin sets ≡ o
      → last_of ("disclosures:" then uin) rendered.parts ≡ p
      → is_nil (option_lines content_sha256 sha256_hex rendered uin o p) ≡ true
      → Discloses sets uin
  option_lines-Discloses sets uin (some shown) (some part) held at h =
      present-Discloses sets uin part shown held at h
  option_lines-Discloses sets uin none p held at h = absurd (ground arith)
  option_lines-Discloses sets uin (some shown) none held at h = absurd (ground arith)

  each_option-AllDisclosed :
      (sets : List (String × DisclosureSet)) (uins : List String)
      → is_nil (each_option content_sha256 sha256_hex rendered sets uins) ≡ true
      → AllDisclosed sets uins
  unfolding each_option
  each_option-AllDisclosed sets [] h = tt
  each_option-AllDisclosed sets (uin ∷ uins) h =
      let lines =
        option_lines content_sha256 sha256_hex rendered uin (lookup uin sets)
          (last_of ("disclosures:" then uin) rendered.parts) in
      let rest = each_option content_sha256 sha256_hex rendered sets uins in
      let both = is_nil-++ lines rest in
      (
        option_lines-Discloses sets uin _ _ refl refl (ground arith),
        each_option-AllDisclosed sets uins (ground arith),
      )

  judged-passes :
      (rail : Rail) (rule : String) (ls : List Line)
      → is_block (judged rail rule Action.block ls).action ≡ false
      → is_nil ls ≡ true
  judged-passes rail rule [] h = refl
  judged-passes rail rule (l ∷ ls) h = absurd (ground arith)

  disclosures-AllDisclosed :
      (sha256 : String → String) (numbers : Option Numbers) (sets : List (String × DisclosureSet))
      → is_block (disclosures content_sha256 sha256_hex sha256 rendered numbers sets).action ≡ false
      → AllDisclosed sets (ranked content_sha256 sha256_hex numbers)
  unfolding disclosures
  disclosures-AllDisclosed sha256 numbers sets h =
      let hash = unless (sha256 rendered.text str_eq rendered.rendered_sha256) text_hash_differs in
      let nil = judged-passes Rail.release "RC-DISCLOSURE" _ h in
      let both = is_nil-++ hash (
        each_option content_sha256 sha256_hex rendered sets
          (ranked content_sha256 sha256_hex numbers)) in
      each_option-AllDisclosed sets _ (ground arith)

module _ (setup : Setup) where
  abbrev pub ranked_uins : List String
  ranked_uins = ranked setup.content_sha256 setup.sha256_hex setup.numbers

  checks-AllDisclosed :
      (o : Option String) (shown : Rendered)
      → any_action is_block (checks setup o shown) ≡ false
      → AllDisclosed setup.content_sha256 setup.sha256_hex shown setup.disclosure_sets ranked_uins
  unfolding checks
  checks-AllDisclosed o shown h =
      disclosures-AllDisclosed setup.content_sha256 setup.sha256_hex shown setup.sha256
        setup.numbers setup.disclosure_sets (ground arith)

  -- The text of a release that is not blocked shows what it was rendered to, with the disclosures of
  -- every ranked product.
  pub record IsDisclosed (r : Released) : Type 0 where
    pub shown : Rendered
    pub is_rendered : r.rendered ≡ some shown
    pub is_text : r.text ≡ shown.text
    pub discloses :
        AllDisclosed setup.content_sha256 setup.sha256_hex shown setup.disclosure_sets ranked_uins

  abbrev pub is_blocked : Kind → Bool
  is_blocked Kind.blocked = true
  is_blocked _ = false

  outcome-IsDisclosed :
      (t : Tried) (shown : Rendered)
      → is_blocked (outcome setup t shown (checks setup (text_of t.chosen) shown)).kind ≡ false
      → IsDisclosed (outcome setup t shown (checks setup (text_of t.chosen) shown))
  outcome-IsDisclosed t shown h =
      elim (Bool-cases (any_action is_block (checks setup (text_of t.chosen) shown))) [
        | inl b ↦ let k : true ≡ false = rw b at h in absurd (ground arith)
        | inr b ↦ rw b (record {
          shown = shown;
          is_rendered = refl;
          is_text = refl;
          discloses = checks-AllDisclosed (text_of t.chosen) shown b;
        })
      ]

  after_render-IsDisclosed :
      (t : Tried) (o : Option Rendered) (r : Released)
      → (after_render setup t o).1 ≡ some r
      → is_blocked r.kind ≡ false
      → IsDisclosed r
  after_render-IsDisclosed t none r e h = absurd (ground arith)
  after_render-IsDisclosed t (some shown) r e h =
      let same : outcome setup t shown (checks setup (text_of t.chosen) shown) ≡ r = cc in
      rw (← same) (outcome-IsDisclosed t shown (rw same h))

  -- I4: a release that is not blocked shows the disclosure part of every ranked product, which ends
  -- with the bodies of its registry set in order and verbatim, and whose bodies and set hash to what
  -- the registry and the rendered text record.
  pub released_discloses :
      (draft : Option String) (r : Released)
      → (release setup draft).1 ≡ some r
      → is_blocked r.kind ≡ false
      → IsDisclosed r
  unfolding release
  released_discloses draft r h k = after_render-IsDisclosed (tried setup draft) _ r h k
