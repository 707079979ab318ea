-- ===== src/Handlers/Repeats.antt =====
-- graph/handlers/objection.py: how often an objection is answered.
use suraksha_setu.Prelude.{
  ℕ, String, ◌+◌, ◌-◌, ◌≤◌, ◌≡◌, refl, Bool, true, false, not, ◌&&◌, ◌||◌, Option, some, List, [],
  ◌∷◌, leb, ◌str_eq◌, eq_iff, if◌then◌else◌, arith, ap, ◌∙◌, Bool-cases, inl, inr, suc,
}
use suraksha_setu.Prelude.Dict.{lookup, insert, count_of, count_of-insert}
use suraksha_setu.Handlers.Objection.{
  Kind, price, trust, competitor, guarantee, other, deferral, end, Response, offer_pause_exit,
  kind_key, Talk, SideAnswer, rebut, respond_counted, respond,
}

abbrev pub same_kind : Kind → Kind → Bool
same_kind j k = kind_key j str_eq kind_key k

abbrev pub is_counted : Kind → Bool
is_counted deferral = false
is_counted end = false
is_counted _ = true

abbrev pub is_offer : Option Response → Bool
is_offer (some offer_pause_exit) = true
is_offer _ = false

module _ (repeat_limit : ℕ) (side_query : List String → List String → Talk → SideAnswer)
    (cheaper : Talk → List String) where
  -- The turns of a conversation that raise an objection, each with the session as it is then, but for
  -- the counters, which the turns carry on. The number of those of a kind that are answered with
  -- something other than the offer to save or to end.
  unfoldable pub answers_to : Kind → List (Kind × Talk) → List (String × ℕ) → ℕ
  unfolding respond
  answers_to k [] counters = 0
  answers_to k ((j, t) ∷ ts) counters =
      let after = respond repeat_limit side_query cheaper j (record t { counters = counters }) in
      let rest = answers_to k ts after.counters in
      if same_kind j k && not (is_offer after.objection_response) then 1 + rest else rest

  if-counters :
      (b : Bool) (t u : Talk) (c : List (String × ℕ))
      → t.counters ≡ c
      → u.counters ≡ c
      → (if b then t else u).counters ≡ c
  if-counters true t u c ht hu = ht
  if-counters false t u c ht hu = hu

  rebut-counters :
      (k : Kind) (t : Talk) → (rebut repeat_limit side_query cheaper k t).counters ≡ t.counters
  unfolding rebut
  rebut-counters price t = if-counters _ _ _ _ refl refl
  rebut-counters trust t = refl
  rebut-counters competitor t = refl
  rebut-counters guarantee t = if-counters _ _ _ _ refl refl
  rebut-counters other t = refl
  rebut-counters deferral t = refl
  rebut-counters end t = refl

  counted : Kind → Talk → List (String × ℕ)
  counted j t = insert (kind_key j) (count_of (kind_key j) t.counters + 1) t.counters

  respond_counted-counters :
      (j : Kind) (t : Talk)
      → (respond_counted repeat_limit side_query cheaper j t).counters ≡ counted j t
  unfolding respond_counted counted
  respond_counted-counters j t =
      if-counters (leb repeat_limit (count_of (kind_key j) t.counters + 1)) _ _ _ refl
        (if-counters (t.has_render || t.degraded) _ _ _ refl (rebut-counters j _))

  count_of-counted :
      (j k : Kind) (t : Talk)
      → count_of (kind_key k) (counted j t) ≡ (
          if same_kind j k
          then suc (count_of (kind_key k) t.counters)
          else count_of (kind_key k) t.counters)
  unfolding counted
  count_of-counted j k t =
      let at =
        count_of-insert (kind_key j) (kind_key k) (count_of (kind_key j) t.counters + 1)
          t.counters in
      elim (Bool-cases (same_kind j k)) [
        | inl e ↦
            let same = (eq_iff (kind_key j) (kind_key k)).0 e in
            rw (at, e) (ap (λ key. count_of key t.counters + 1) same ∙ ground arith)
        | inr e ↦ rw (at, e) refl
      ]

  -- At the limit it is the offer.
  offered_at_limit :
      (j : Kind) (t : Talk)
      → leb repeat_limit (suc (count_of (kind_key j) t.counters)) ≡ true
      → is_offer (respond_counted repeat_limit side_query cheaper j t).objection_response ≡ true
  unfolding respond_counted
  offered_at_limit j t h =
      let reached : leb repeat_limit (count_of (kind_key j) t.counters + 1) ≡ true = ground arith in
      rw reached refl

  end_uncounted : (k : Kind) → is_counted k ≡ true → same_kind end k ≡ false
  end_uncounted price h = refl
  end_uncounted trust h = refl
  end_uncounted competitor h = refl
  end_uncounted guarantee h = refl
  end_uncounted other h = refl
  end_uncounted deferral h = absurd (ground arith)
  end_uncounted end h = absurd (ground arith)

  deferral_uncounted : (k : Kind) → is_counted k ≡ true → same_kind deferral k ≡ false
  deferral_uncounted price h = refl
  deferral_uncounted trust h = refl
  deferral_uncounted competitor h = refl
  deferral_uncounted guarantee h = refl
  deferral_uncounted other h = refl
  deferral_uncounted deferral h = absurd (ground arith)
  deferral_uncounted end h = absurd (ground arith)

  abbrev Counts : Kind → Kind → Talk → Type 0
  Counts j k t = count_of (kind_key k) (respond repeat_limit side_query cheaper j t).counters ≡ (
      if same_kind j k
      then suc (count_of (kind_key k) t.counters)
      else count_of (kind_key k) t.counters)

  counted_count :
      (j k : Kind) (t : Talk)
      → count_of (kind_key k) (respond_counted repeat_limit side_query cheaper j t).counters ≡ (
          if same_kind j k
          then suc (count_of (kind_key k) t.counters)
          else count_of (kind_key k) t.counters)
  counted_count j k t =
      ap (count_of (kind_key k)) (respond_counted-counters j t) ∙ count_of-counted j k t

  respond-Counts : (j k : Kind) (t : Talk) → is_counted k ≡ true → Counts j k t
  unfolding respond
  respond-Counts price k t h = counted_count price k t
  respond-Counts trust k t h = counted_count trust k t
  respond-Counts competitor k t h = counted_count competitor k t
  respond-Counts guarantee k t h = counted_count guarantee k t
  respond-Counts other k t h = counted_count other k t
  respond-Counts deferral k t h = rw (deferral_uncounted k h) refl
  respond-Counts end k t h = rw (end_uncounted k h) refl

  abbrev OffersAtLimit : Kind → Kind → Talk → Type 0
  OffersAtLimit j k t =
      same_kind j k ≡ true
      → leb repeat_limit (suc (count_of (kind_key k) t.counters)) ≡ true
      → is_offer (respond repeat_limit side_query cheaper j t).objection_response ≡ true

  same_offered :
      (j k : Kind) (t : Talk)
      → same_kind j k ≡ true
      → leb repeat_limit (suc (count_of (kind_key k) t.counters)) ≡ true
      → is_offer (respond_counted repeat_limit side_query cheaper j t).objection_response ≡ true
  same_offered j k t e h = offered_at_limit j t (
      ap (λ key. leb repeat_limit (suc (count_of key t.counters)))
        ((eq_iff (kind_key j) (kind_key k)).0 e)
      ∙ h)

  respond-OffersAtLimit : (j k : Kind) (t : Talk) → is_counted k ≡ true → OffersAtLimit j k t
  unfolding respond
  respond-OffersAtLimit price k t c e h = same_offered price k t e h
  respond-OffersAtLimit trust k t c e h = same_offered trust k t e h
  respond-OffersAtLimit competitor k t c e h = same_offered competitor k t e h
  respond-OffersAtLimit guarantee k t c e h = same_offered guarantee k t e h
  respond-OffersAtLimit other k t c e h = same_offered other k t e h
  respond-OffersAtLimit deferral k t c e h =
      let no = deferral_uncounted k c in absurd (ground arith)
  respond-OffersAtLimit end k t c e h = let no = end_uncounted k c in absurd (ground arith)

  one_answer :
      (same offered : Bool) (before after rest : ℕ)
      → after ≡ (if same then suc before else before)
      → (same ≡ true → leb repeat_limit (suc before) ≡ true → offered ≡ true)
      → rest ≤ repeat_limit - suc after
      → (if same && not offered then 1 + rest else rest) ≤ repeat_limit - suc before
  one_answer false offered before after rest a o r = ground arith
  one_answer true true before after rest a o r = ground arith
  one_answer true false before after rest a o r =
      elim (Bool-cases (leb repeat_limit (suc before))) [
        | inl l ↦ let f = o refl l in absurd (ground arith)
        | inr l ↦ ground arith
      ]

  -- What is left of the answers to a kind, at a count of it.
  answers_to_le :
      (k : Kind) (ts : List (Kind × Talk)) (counters : List (String × ℕ))
      → is_counted k ≡ true
      → answers_to k ts counters ≤ repeat_limit - suc (count_of (kind_key k) counters)
  unfolding answers_to
  answers_to_le k [] counters c = omega arith
  answers_to_le k ((j, t) ∷ ts) counters c =
      let now : Talk = record t { counters = counters } in
      one_answer (same_kind j k) _ (count_of (kind_key k) counters) _ _ (respond-Counts j k now c)
        (respond-OffersAtLimit j k now c) (answers_to_le k ts _ c)

  -- Over any turns of a session whose counters are empty at first, an objection of one kind (a
  -- deferral and a request to end are none) is answered fewer times than the repeat limit, which is 1
  -- or more: from then on it gets only the offer to save or to end, whatever else is raised between.
  pub answers_are_bounded :
      (k : Kind) (ts : List (Kind × Talk))
      → is_counted k ≡ true
      → 1 ≤ repeat_limit
      → suc (answers_to k ts []) ≤ repeat_limit
  unfolding count_of lookup
  answers_are_bounded k ts c l = let most = answers_to_le k ts [] c in omega arith
