-- ===== src/Release/Released.antt =====
-- rails/output.py: what `release` audits and releases.
use suraksha_setu.Prelude.{
  ℕ, String, ◌≡◌, refl, Bool, true, false, ◌||◌, Option, none, some, List, [], ◌∷◌, ◌++◌,
  if◌then◌else◌, arith, Bool-cases, inl, inr,
}
use suraksha_setu.Release.Context.{Rail, Action, Line, Verdict, is_nil, judged}
use suraksha_setu.Release.Checks.{
  Rendered, GuardReply, guard_answer, guard, disclosures, leaks, dummy,
}
use suraksha_setu.Release.Policy.{
  Kind, Released, Setup, is_failed, is_block, any_action, failed_of, settle_all, judge, is_final,
  consequence, Tried, try_each, tried, text_of, kind_of, checks, blocked_text, outcome,
  after_render, release,
}
use suraksha_setu.Release.Origin.{Origin, chosen_by_policy}

any_action-++ :
    (p : Action → Bool) (us vs : List Verdict)
    → any_action p (us ++ vs) ≡ (any_action p us || any_action p vs)
any_action-++ p [] vs = refl
any_action-++ p (u ∷ us) vs = let rest = any_action-++ p us vs in ground arith

settle_all-settled :
    (c : Action) (vs : List Verdict)
    → is_failed c ≡ false
    → any_action is_failed (settle_all c vs) ≡ false
unfolding settle_all
settle_all-settled c [] h = refl
settle_all-settled c (v ∷ vs) h =
    let rest = settle_all-settled c vs h in
    elim (Bool-cases (is_failed v.action)) [ inl f ↦ rw (f, h) rest | inr f ↦ rw (f, f) rest ]

module _ (setup : Setup) where
  consequence-settled :
      (attempt : ℕ) (failed : List Verdict) → is_failed (consequence setup attempt failed) ≡ false
  consequence-settled attempt failed = elim (Bool-cases (is_final setup attempt failed)) [
    | inl f ↦ rw f refl
    | inr f ↦ rw f refl
  ]

  -- The settled verdicts of an attempt are added to settled ones.
  add_settled :
      (attempt : ℕ) (audited vs failed : List Verdict)
      → any_action is_failed audited ≡ false
      → any_action is_failed (audited ++ settle_all (consequence setup attempt failed) vs) ≡ false
  add_settled attempt audited vs failed h =
      let now =
        settle_all-settled (consequence setup attempt failed) vs
          (consequence-settled attempt failed) in
      let both =
        any_action-++ is_failed audited (settle_all (consequence setup attempt failed) vs) in
      ground arith

  if-settled :
      (b : Bool) (t u : Tried)
      → any_action is_failed t.audited ≡ false
      → any_action is_failed u.audited ≡ false
      → any_action is_failed (if b then t else u).audited ≡ false
  if-settled true t u ht hu = ht
  if-settled false t u ht hu = hu

  try_each-settled :
      (attempts : List ℕ) (o : Option String) (audited : List Verdict)
      → any_action is_failed audited ≡ false
      → any_action is_failed (try_each setup attempts o audited).audited ≡ false
  unfolding try_each
  try_each-settled [] o audited h = h
  try_each-settled (a ∷ later) none audited h = h
  try_each-settled (a ∷ later) (some t) audited h =
      let now = add_settled a audited (judge setup a t) (failed_of (judge setup a t)) h in
      if-settled (is_nil (failed_of (judge setup a t))) _ _ now (
        if-settled (is_final setup a (failed_of (judge setup a t))) _ _ now
          (try_each-settled later _ _ now))

  judged-settled :
      (rail : Rail) (rule : String) (ls : List Line)
      → is_failed (judged rail rule Action.block ls).action ≡ false
  judged-settled rail rule [] = refl
  judged-settled rail rule (l ∷ ls) = refl

  guard_answer-settled : (g : GuardReply) → is_failed (guard_answer g).action ≡ false
  guard_answer-settled GuardReply.safe = refl
  guard_answer-settled GuardReply.not_safe = refl
  guard_answer-settled GuardReply.guard_unavailable = refl

  guard-settled :
      (ask : String → GuardReply) (o : Option String) → is_failed (guard ask o).action ≡ false
  unfolding guard
  guard-settled ask none = refl
  guard-settled ask (some t) = guard_answer-settled (ask t)

  dummy-settled : (text env : String) → is_failed (dummy text env).action ≡ false
  unfolding dummy
  dummy-settled text env = ground arith

  checks-settled :
      (o : Option String) (r : Rendered) → any_action is_failed (checks setup o r) ≡ false
  unfolding checks disclosures leaks
  checks-settled o r =
      rw
        (
          judged-settled _ _ _,
          judged-settled _ _ _,
          guard-settled setup.ask_guard o,
          dummy-settled r.text setup.env,
        )
        refl

  after_render-settled :
      (t : Tried) (o : Option Rendered)
      → any_action is_failed t.audited ≡ false
      → any_action is_failed (after_render setup t o).0 ≡ false
  after_render-settled t none h = h
  after_render-settled t (some r) h =
      let checked = checks-settled (text_of t.chosen) r in
      let both = any_action-++ is_failed t.audited (checks setup (text_of t.chosen) r) in
      ground arith

  -- Every verdict that a release audits is settled: a failure or an unavailable verifier of rails 6
  -- and 7 is recorded as what the policy made of it (regenerate or fallback), and rail 8 gives none.
  pub audit-settled : (draft : Option String) → any_action is_failed (release setup draft).0 ≡ false
  unfolding release
  audit-settled draft =
      after_render-settled (tried setup draft) _ (try_each-settled (1 ∷ 2 ∷ []) draft [] refl)

  -- What the policy lets a chosen text become, once rail 8 has checked what was rendered.
  pub data Outcome (chosen : Option (String × ℕ)) : Released → Type 0 where
    let_through :
        (r : Released) (shown : Rendered)
        → setup.render (text_of chosen) ≡ some shown
        → any_action is_block (checks setup (text_of chosen) shown) ≡ false
        → r.kind ≡ kind_of chosen
        → r.text ≡ shown.text
        → Outcome chosen r
    held_back :
        (r : Released) (shown : Rendered)
        → setup.render (text_of chosen) ≡ some shown
        → any_action is_block (checks setup (text_of chosen) shown) ≡ true
        → r.kind ≡ Kind.blocked
        → r.text ≡ blocked_text setup
        → Outcome chosen r

  outcome-Outcome :
      (t : Tried) (shown : Rendered)
      → setup.render (text_of t.chosen) ≡ some shown
      → Outcome t.chosen (outcome setup t shown (checks setup (text_of t.chosen) shown))
  outcome-Outcome t shown h =
      elim (Bool-cases (any_action is_block (checks setup (text_of t.chosen) shown))) [
        | inl b ↦ rw b (held_back _ shown h b refl refl)
        | inr b ↦ rw b (let_through _ shown h b refl refl)
      ]

  after_render-Outcome :
      (t : Tried) (o : Option Rendered) (r : Released)
      → setup.render (text_of t.chosen) ≡ o
      → (after_render setup t o).1 ≡ some r
      → Outcome t.chosen r
  after_render-Outcome t none r e h = absurd (ground arith)
  after_render-Outcome t (some shown) r e h =
      let same : outcome setup t shown (checks setup (text_of t.chosen) shown) ≡ r = cc in
      rw (← same) (outcome-Outcome t shown e)

  -- `release` implements the policy: whatever it releases comes from a text that the rails 6 and 7
  -- allow, or from the template when they allow none, was rendered from that text alone, and was
  -- replaced by the template with the advisor offer exactly when a check of rail 8 blocks it.
  pub released_by_policy :
      (draft : Option String) (r : Released)
      → (release setup draft).1 ≡ some r
      → (chosen : Option (String × ℕ)) × (Origin setup draft chosen × Outcome chosen r)
  unfolding release
  released_by_policy draft r h = (
    (tried setup draft).chosen,
    (chosen_by_policy setup draft, after_render-Outcome (tried setup draft) _ r refl h),
  )
