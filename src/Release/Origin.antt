-- ===== src/Release/Origin.antt =====
-- rails/output.py: the policy of `release` as a relation, and what its loop chooses.
use suraksha_setu.Prelude.{
  ℕ, String, ◌≡◌, refl, ◌∙◌, Bool, true, false, not, Option, none, some, List, [], ◌∷◌, arith, ap,
  Bool-cases, inl, inr,
}
use suraksha_setu.Release.Context.{Line, Verdict, is_nil}
use suraksha_setu.Release.Policy.{
  Setup, is_unavailable, is_failed, any_action, failed_of, lines_of, judge, try_each, tried,
}

is_nil-failed_of : (vs : List Verdict) → is_nil (failed_of vs) ≡ not (any_action is_failed vs)
unfolding failed_of
is_nil-failed_of [] = refl
is_nil-failed_of (v ∷ vs) = elim (Bool-cases (is_failed v.action)) [
  | inl f ↦ rw f refl
  | inr f ↦ rw f (is_nil-failed_of vs)
]

any_unavailable-failed_of :
    (vs : List Verdict) → any_action is_unavailable (failed_of vs) ≡ any_action is_unavailable vs
unfolding failed_of
any_unavailable-failed_of [] = refl
any_unavailable-failed_of (v ∷ vs) = let rest = any_unavailable-failed_of vs in ground arith

module _ (setup : Setup) where
  -- No rail refuses the text at this attempt, and the verifier could run.
  abbrev pub Passes : ℕ → String → Type 0
  Passes attempt text = any_action is_failed (judge setup attempt text) ≡ false

  abbrev pub Fails : ℕ → String → Type 0
  Fails attempt text = any_action is_failed (judge setup attempt text) ≡ true

  abbrev pub verifier_runs : ℕ → String → Bool
  verifier_runs attempt text = not (any_action is_unavailable (judge setup attempt text))

  -- The details of the verdicts that refused a text.
  abbrev pub error_list : ℕ → String → List Line
  error_list attempt text = lines_of (failed_of (judge setup attempt text))

  -- The model's text that a draft may lead to, with its attempt.
  pub data Origin (draft : Option String) : Option (String × ℕ) → Type 0 where
    passed_first : (t : String) → draft ≡ some t → Passes 1 t → Origin draft (some (t, 1))
    passed_second :
        (first second : String)
        → draft ≡ some first
        → Fails 1 first
        → verifier_runs 1 first ≡ true
        → setup.regenerate (error_list 1 first) ≡ some second
        → Passes 2 second
        → Origin draft (some (second, 2))
    no_draft : draft ≡ none → Origin draft none
    verifier_down : (t : String) → draft ≡ some t → verifier_runs 1 t ≡ false → Origin draft none
    not_regenerated :
        (t : String)
        → draft ≡ some t
        → Fails 1 t
        → setup.regenerate (error_list 1 t) ≡ none
        → Origin draft none
    failed_twice :
        (first second : String)
        → draft ≡ some first
        → Fails 1 first
        → setup.regenerate (error_list 1 first) ≡ some second
        → Fails 2 second
        → Origin draft none

  nothing_failed :
      (attempt : ℕ) (t : String)
      → Passes attempt t
      → is_nil (failed_of (judge setup attempt t)) ≡ true
  nothing_failed attempt t p = is_nil-failed_of (judge setup attempt t) ∙ ap not p

  something_failed :
      (attempt : ℕ) (t : String)
      → Fails attempt t
      → is_nil (failed_of (judge setup attempt t)) ≡ false
  something_failed attempt t f = is_nil-failed_of (judge setup attempt t) ∙ ap not f

  second-Origin :
      (draft : Option String) (first : String) (o : Option String) (audited : List Verdict)
      → draft ≡ some first
      → Fails 1 first
      → verifier_runs 1 first ≡ true
      → setup.regenerate (error_list 1 first) ≡ o
      → Origin draft (try_each setup (2 ∷ []) o audited).chosen
  unfolding try_each
  second-Origin draft first none audited d f v r = not_regenerated first d f r
  second-Origin draft first (some second) audited d f v r =
      elim (Bool-cases (any_action is_failed (judge setup 2 second))) [
        | inl k ↦ rw (something_failed 2 second k) (failed_twice first second d f r k)
        | inr k ↦ rw (nothing_failed 2 second k) (passed_second first second d f v r k)
      ]

  first-Origin : (draft o : Option String) → draft ≡ o → Origin draft (tried setup o).chosen
  unfolding try_each
  first-Origin draft none d = no_draft d
  first-Origin draft (some t) d =
      let down = any_unavailable-failed_of (judge setup 1 t) in
      elim (Bool-cases (any_action is_failed (judge setup 1 t))) [
        | inl k ↦
            rw (something_failed 1 t k)
              (elim (Bool-cases (any_action is_unavailable (judge setup 1 t))) [
                | inl u ↦ rw (down ∙ u) (verifier_down t d (rw u refl))
                | inr u ↦ rw (down ∙ u) (
                    second-Origin draft t (setup.regenerate (error_list 1 t)) _ d k (rw u refl)
                      refl)
              ])
        | inr k ↦ rw (nothing_failed 1 t k) (passed_first t d k)
      ]

  -- The loop of `release` chooses what the policy says, and only that: a text that passed rails 6
  -- and 7, from the draft or from its one regeneration; and none when there is no draft, when the
  -- verifier cannot run, when no regeneration is made, or when both attempts fail.
  pub chosen_by_policy : (draft : Option String) → Origin draft (tried setup draft).chosen
  chosen_by_policy draft = first-Origin draft draft refl
