-- ===== src/Release/Policy.antt =====
-- rails/output.py: `release`. The gateway's answers are functions of the attempt and of what it is
-- asked, so that a second call may answer otherwise; the events of `_emit` are the verdicts, in order.
use suraksha_setu.Prelude.{
  ℕ, String, Bool, true, false, ◌||◌, Option, none, some, List, [], ◌∷◌, ◌++◌, ◌==◌, if◌then◌else◌,
}
use Prim.Native.String.{◌++◌ as ◌then◌}
use suraksha_setu.Prelude.Dict.{insert}
use suraksha_setu.Release.Context.{
  Rail, Action, Line, Verdict, is_nil, Numbers, OutputContext, LexiconPack, Reading, no_score,
}
use suraksha_setu.Release.Grounding.{ClaimReply, lexicon, grounding, verify_claims, nli}
use suraksha_setu.Release.Checks.{
  DisclosureSet, Rendered, GuardReply, SetContent, LeakReading, disclosures, guard, leaks, dummy,
}

pub data Kind : Type 0 where
  narrative regenerated fallback blocked : Kind

pub record Released : Type 0 where
  pub kind : Kind
  pub text : String
  pub rendered : Option Rendered
  pub verdicts : List (String × Action)

-- What `release` is given, beyond the draft.
pub record Setup : Type 0 where
  pub reading : Reading
  pub pack : LexiconPack
  pub ctx : OutputContext
  pub numbers : Option Numbers
  pub disclosure_sets : List (String × DisclosureSet)
  pub check_claim : ℕ → String → String → ClaimReply
  pub ask_guard : String → GuardReply
  pub regenerate : List Line → Option String
  -- none where the composer raises a CompositionError
  pub render : Option String → Option Rendered
  pub leak_reading : LeakReading
  pub own_ids : List String
  pub own_pii : List String
  pub approved_text : List String
  pub env : String
  pub sha256 : String → String
  pub content_sha256 : String → String
  pub sha256_hex : SetContent → String
  pub release_blocked : String
  pub advisor_offer : String

abbrev pub is_fail : Action → Bool
is_fail Action.fail = true
is_fail _ = false

abbrev pub is_unavailable : Action → Bool
is_unavailable Action.unavailable = true
is_unavailable _ = false

abbrev pub is_block : Action → Bool
is_block Action.block = true
is_block _ = false

abbrev pub any_action : (Action → Bool) → List Verdict → Bool
any_action p [] = false
any_action p (v ∷ vs) = p v.action || any_action p vs

abbrev pub is_failed : Action → Bool
is_failed a = is_fail a || is_unavailable a

unfoldable pub failed_of : List Verdict → List Verdict
failed_of [] = []
failed_of (v ∷ vs) = let rest = failed_of vs in if is_failed v.action then v ∷ rest else rest

-- The error list that a regeneration is given.
unfoldable pub lines_of : List Verdict → List Line
lines_of [] = []
lines_of (v ∷ vs) = v.detail ++ lines_of vs

-- What the policy makes of a fail or an unavailable, before it is audited.
abbrev pub settled : Action → Verdict → Verdict
settled consequence v = record v { action = if is_failed v.action then consequence else v.action }

unfoldable pub settle_all : Action → List Verdict → List Verdict
settle_all consequence [] = []
settle_all consequence (v ∷ vs) = settled consequence v ∷ settle_all consequence vs

-- Where the attempts end: the verdicts to audit, and the text that passed with its attempt.
pub record Tried : Type 0 where
  pub audited : List Verdict
  pub chosen : Option (String × ℕ)

abbrev pub text_of : Option (String × ℕ) → Option String
text_of none = none
text_of (some (text, attempt)) = some text

abbrev pub kind_of : Option (String × ℕ) → Kind
kind_of none = Kind.fallback
kind_of (some (text, attempt)) = if attempt == 1 then Kind.narrative else Kind.regenerated

abbrev pub rail_name : Rail → String
rail_name Rail.lexicon = "lexicon:"
rail_name Rail.grounding = "grounding:"
rail_name Rail.release = "release:"

-- The last action of each check.
unfoldable pub by_check : List Verdict → List (String × Action) → List (String × Action)
by_check [] held = held
by_check (v ∷ vs) held = by_check vs (insert (rail_name v.rail then v.rule_id) v.action held)

module _ (setup : Setup) where
  abbrev on_text : String → List Verdict
  on_text text =
      lexicon setup.reading setup.pack setup.ctx text
      ++ grounding setup.reading setup.pack setup.ctx text setup.numbers

  -- Rails 6 and 7 on one text: the claims are verified only when nothing else fails.
  unfoldable pub judge : ℕ → String → List Verdict
  unfolding lexicon grounding verify_claims
  judge attempt text =
      let found = on_text text in
      found
      ++ (if any_action is_fail found
          then nli setup.reading setup.pack setup.ctx Action.skipped no_score []
          else verify_claims setup.reading setup.pack setup.ctx (setup.check_claim attempt) text)
        ∷ []

  -- The last attempt, or a verifier that cannot run.
  abbrev pub is_final : ℕ → List Verdict → Bool
  is_final attempt failed = attempt == 2 || any_action is_unavailable failed

  abbrev pub consequence : ℕ → List Verdict → Action
  consequence attempt failed =
      if is_final attempt failed then Action.fallback else Action.regenerate

  -- The loop, over the attempts that are left.
  unfoldable pub try_each : List ℕ → Option String → List Verdict → Tried
  unfolding judge failed_of settle_all lines_of
  try_each [] text audited = record { audited = audited; chosen = none }
  try_each (attempt ∷ later) none audited = record { audited = audited; chosen = none }
  try_each (attempt ∷ later) (some text) audited =
      let verdicts = judge attempt text in
      let failed = failed_of verdicts in
      let all = audited ++ settle_all (consequence attempt failed) verdicts in
      let again = try_each later (setup.regenerate (lines_of failed)) all in
      if is_nil failed
      then record { audited = all; chosen = some (text, attempt) }
      else if is_final attempt failed
      then record { audited = all; chosen = none }
      else again

  abbrev pub tried : Option String → Tried
  tried draft = try_each (1 ∷ 2 ∷ []) draft []

  -- Rail 8, on what was rendered.
  unfoldable pub checks : Option String → Rendered → List Verdict
  unfolding disclosures guard leaks dummy
  checks chosen rendered =
      disclosures setup.content_sha256 setup.sha256_hex setup.sha256 rendered setup.numbers
        setup.disclosure_sets
      ∷ guard setup.ask_guard chosen
      ∷ leaks setup.leak_reading rendered.text chosen setup.own_ids setup.own_pii
          setup.approved_text setup.disclosure_sets
      ∷ dummy rendered.text setup.env
      ∷ []

  abbrev pub blocked_text : String
  blocked_text = setup.release_blocked then ("\n" then setup.advisor_offer)

  abbrev pub outcome : Tried → Rendered → List Verdict → Released
  outcome t rendered checked =
      if any_action is_block checked
      then record {
        kind = Kind.blocked;
        text = blocked_text;
        rendered = none;
        verdicts = by_check (t.audited ++ checked) [];
      }
      else record {
        kind = kind_of t.chosen;
        text = rendered.text;
        rendered = some rendered;
        verdicts = by_check (t.audited ++ checked) [];
      }

  -- The verdicts that are audited, and what is released: none where the composer raises.
  abbrev pub after_render : Tried → Option Rendered → List Verdict × Option Released
  after_render t none = (t.audited, none)
  after_render t (some rendered) =
      let checked = checks (text_of t.chosen) rendered in
      (t.audited ++ checked, some (outcome t rendered checked))

  -- `release`
  unfoldable pub release : Option String → List Verdict × Option Released
  unfolding try_each checks by_check
  release draft = let t = tried draft in after_render t (setup.render (text_of t.chosen))
