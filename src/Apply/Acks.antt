-- ===== src/Apply/Acks.antt =====
-- graph/states/s3.py: which acknowledgments of the customer's a turn records (V7).
use suraksha_setu.Prelude.{
  ℕ, String, ◌≡◌, refl, Bool, true, false, not, ◌||◌, Option, none, some, ◌str_eq◌, Bool-cases, inl,
  inr, if◌then◌else◌, List, [], ◌∷◌, ◌++◌, eq_iff, ap, ◌⊎◌, arith,
}
use suraksha_setu.Prelude.Dict.{lookup}
use suraksha_setu.Apply.State.{
  Shown, DisclosureAck, same_text, same_document_map, problem_unless, PricedQuote, Selection,
  RecommendedOption, Turn, Choice, AckPayload, PriceAnswer, priced, out_of_bounds, refused,
  Services, Outcome, replied, presented_again, turn_of, quote_valid, is_unmoved, check_ack,
  acks_valid,
}
use suraksha_setu.Apply.Matching.{AcksBound, AcksBound-last, ack_of-matches}
use suraksha_setu.Apply.Node.{
  with_selection, is_custom, chosen_option, intake_of, deliver, if_unmoved, hand_off, asked_with,
  ask_ack, select, on_price, apply_quoted, apply_option, apply, ack_of, recorded_ack, on_requote,
  after_ack, is_none_of, take_ack, for_shown, acknowledge, Action, apply_plan, disclosure_ack,
  respond_to, reply,
}

module _ (services : Services) (rows acks : List DisclosureAck)
    (shown_sets : List (String × Shown)) where
  -- The rows, the acknowledgments and the sets shown that the turn holds.
  abbrev pub HasAcks : Turn → Type 0
  HasAcks t = (t.ack_rows ≡ rows) × ((t.rec.acks ≡ acks) × (t.rec.shown ≡ shown_sets))

  if-HasAcks :
      (b : Bool) (r s : Outcome)
      → HasAcks (turn_of r)
      → HasAcks (turn_of s)
      → HasAcks (turn_of (if b then r else s))
  if-HasAcks true r s hr hs = hr
  if-HasAcks false r s hr hs = hs

  deliver-HasAcks : (sel : Selection) (t : Turn) → HasAcks t → HasAcks (deliver services sel t)
  unfolding deliver
  deliver-HasAcks sel t h = elim (Bool-cases (services.post (intake_of services sel t.rec))) [
    | inl k ↦ rw k h
    | inr k ↦ rw k h
  ]

  if_unmoved-HasAcks :
      (o : Option (String × String)) (s : Option Shown) (sel : Selection) (t : Turn)
      → HasAcks t
      → HasAcks (turn_of (if_unmoved services o s sel t))
  if_unmoved-HasAcks none s sel t h = h
  if_unmoved-HasAcks (some registry) none sel t h = h
  if_unmoved-HasAcks (some registry) (some shown) sel t h =
      if-HasAcks (is_unmoved registry shown) (replied (deliver services sel t)) (presented_again t)
        (deliver-HasAcks sel t h) h

  hand_off-HasAcks :
      (sel : Selection) (t : Turn) → HasAcks t → HasAcks (turn_of (hand_off services sel t))
  unfolding hand_off
  hand_off-HasAcks sel t h =
      if_unmoved-HasAcks (services.get_disclosure_set sel.uin) (lookup sel.uin t.rec.shown) sel t h

  asked_with-HasAcks :
      (o : Option Shown) (sel : Selection) (t : Turn)
      → HasAcks t
      → HasAcks (turn_of (asked_with services o sel t))
  asked_with-HasAcks none sel t h = h
  asked_with-HasAcks (some shown) sel t h = h

  select-HasAcks :
      (sel : Selection) (t : Turn) → HasAcks t → HasAcks (turn_of (select services sel t))
  unfolding select
  select-HasAcks sel t h =
      let selected = with_selection sel t in
      if-HasAcks (acks_valid selected.rec sel.uin) (hand_off services sel selected)
        (ask_ack services sel selected) (hand_off-HasAcks sel selected h)
        (asked_with-HasAcks (lookup sel.uin t.rec.shown) sel selected h)

  on_price-HasAcks :
      (uin : String) (short : ℕ) (custom : Bool) (answer : PriceAnswer) (t : Turn)
      → HasAcks t
      → HasAcks (turn_of (on_price services uin short custom answer t))
  on_price-HasAcks uin short custom (priced quote) t h = select-HasAcks _ t h
  on_price-HasAcks uin short custom (out_of_bounds part) t h = h
  on_price-HasAcks uin short custom refused t h = h

  apply_quoted-HasAcks :
      (option : RecommendedOption) (choice : Choice) (o : Option PricedQuote) (t : Turn)
      → HasAcks t
      → HasAcks (turn_of (apply_quoted services option choice o t))
  apply_quoted-HasAcks option choice none t h = h
  apply_quoted-HasAcks option choice (some quote) t h =
      if-HasAcks (is_custom choice quote || not (quote_valid quote services.today)) _ _
        (on_price-HasAcks option.uin _ (is_custom choice quote) _ t h) (select-HasAcks _ t h)

  apply_option-HasAcks :
      (o : Option RecommendedOption) (choice : Choice) (t : Turn)
      → HasAcks t
      → HasAcks (turn_of (apply_option services o choice t))
  apply_option-HasAcks none choice t h = h
  apply_option-HasAcks (some option) choice t h =
      apply_quoted-HasAcks option choice option.quote t h

  on_requote-HasAcks :
      (sel : Selection) (answer : PriceAnswer) (t : Turn)
      → HasAcks t
      → HasAcks (turn_of (on_requote services sel answer t))
  on_requote-HasAcks sel (priced fresh) t h = h
  on_requote-HasAcks sel (out_of_bounds part) t h = h
  on_requote-HasAcks sel refused t h = h

  after_ack-HasAcks :
      (uin : String) (o : Option Selection) (t : Turn)
      → HasAcks t
      → HasAcks (turn_of (after_ack services uin o t))
  after_ack-HasAcks uin none t h = h
  after_ack-HasAcks uin (some sel) t h = if-HasAcks (not (sel.uin str_eq uin)) _ _ h (
      if-HasAcks (quote_valid sel.quote services.today) _ _ (hand_off-HasAcks sel t h)
        (on_requote-HasAcks sel _ t h))

-- What `check_ack` tests, where it finds no problem.
same_text-eq : (o : Option String) (v : String) → same_text o (some v) ≡ true → o ≡ some v
same_text-eq none v h = absurd (ground arith)
same_text-eq (some a) v h = ap some ((eq_iff a v).0 h)

problem_unless-none :
    (services : Services) (b : Bool) (problem : String) (rest : List String)
    → is_none_of services (problem_unless b problem rest) ≡ true
    → (b ≡ true) × (is_none_of services rest ≡ true)
problem_unless-none services true problem rest h = (refl, h)
problem_unless-none services false problem rest h = absurd (ground arith)

module _ (services : Services) where
  -- The customer's acknowledgment names the version, the hash and the documents that were shown, and
  -- the registry still holds that set.
  pub record IsOfShown (payload : AckPayload) (shown : Shown) : Type 0 where
    pub version : payload.registry_version ≡ some shown.registry_version
    pub sha : payload.disclosure_set_sha256 ≡ some shown.set_sha256
    pub documents : same_document_map payload.document_sha256 shown.documents ≡ true
    pub unmoved :
        (registry : String × String) × ((services.get_disclosure_set payload.uin ≡ some registry)
          × (is_unmoved registry shown ≡ true))

  check_ack-IsOfShown :
      (payload : AckPayload) (shown : Shown) (registry : String × String)
      → services.get_disclosure_set payload.uin ≡ some registry
      → is_none_of services (check_ack payload shown registry) ≡ true
      → IsOfShown payload shown
  unfolding check_ack
  check_ack-IsOfShown payload shown registry g h =
      let (v, h1) = problem_unless-none services _ _ _ h in
      let (s, h2) = problem_unless-none services _ _ _ h1 in
      let (u, h3) = problem_unless-none services _ _ _ h2 in
      let (d, h4) = problem_unless-none services _ _ _ h3 in
      record {
        version = same_text-eq payload.registry_version shown.registry_version v;
        sha = same_text-eq payload.disclosure_set_sha256 shown.set_sha256 s;
        documents = d;
        unmoved = (registry, (g, u));
      }

  abbrev pub Unacked : Turn → Turn → Type 0
  Unacked t after = HasAcks services t.ack_rows t.rec.acks t.rec.shown after

  -- One row and one acknowledgment more, of what was shown for the plan on a recorded suitability.
  abbrev pub Acked : AckPayload → Turn → Turn → Type 0
  Acked payload t after =
      (shown : Shown) × ((lookup payload.uin t.rec.shown ≡ some shown)
        × ((t.rec.is_recorded ≡ true)
            × (IsOfShown payload shown
                × HasAcks services (t.ack_rows ++ ack_of services payload.uin shown ∷ [])
                    (t.rec.acks ++ ack_of services payload.uin shown ∷ []) t.rec.shown after)))

  abbrev pub Acknowledges : Action → Turn → Turn → Type 0
  Acknowledges (apply_plan uin choice) t after = Unacked t after
  Acknowledges (disclosure_ack payload) t after = Unacked t after ⊎ Acked payload t after

  take_ack-Acknowledges :
      (payload : AckPayload) (shown : Shown) (o : Option (String × String)) (t : Turn)
      → services.get_disclosure_set payload.uin ≡ o
      → lookup payload.uin t.rec.shown ≡ some shown
      → t.rec.is_recorded ≡ true
      → Unacked t (turn_of (take_ack services payload shown o t))
        ⊎ Acked payload t (turn_of (take_ack services payload shown o t))
  take_ack-Acknowledges payload shown none t g e r = inl (refl, (refl, refl))
  take_ack-Acknowledges payload shown (some registry) t g e r =
      elim (Bool-cases (is_none_of services (check_ack payload shown registry))) [
        | inr k ↦ rw k (inl (refl, (refl, refl)))
        | inl k ↦
            let ack = ack_of services payload.uin shown in
            let kept =
              after_ack-HasAcks services (t.ack_rows ++ ack ∷ []) (t.rec.acks ++ ack ∷ [])
                t.rec.shown payload.uin t.rec.selection (recorded_ack services ack t)
                (refl, (refl, refl)) in
            rw k (inr (shown, (e, (r, (check_ack-IsOfShown payload shown registry g k, kept)))))
      ]

  if-Acknowledges :
      (payload : AckPayload) (b : Bool) (r s : Outcome) (t : Turn)
      → (b ≡ true → Unacked t (turn_of r) ⊎ Acked payload t (turn_of r))
      → Unacked t (turn_of s) ⊎ Acked payload t (turn_of s)
      → Unacked t (turn_of (if b then r else s)) ⊎ Acked payload t (turn_of (if b then r else s))
  if-Acknowledges payload true r s t hr hs = hr refl
  if-Acknowledges payload false r s t hr hs = hs

  for_shown-Acknowledges :
      (payload : AckPayload) (o : Option Shown) (t : Turn)
      → lookup payload.uin t.rec.shown ≡ o
      → Unacked t (turn_of (for_shown services payload o t))
        ⊎ Acked payload t (turn_of (for_shown services payload o t))
  for_shown-Acknowledges payload none t e = inl (refl, (refl, refl))
  for_shown-Acknowledges payload (some shown) t e =
      if-Acknowledges payload t.rec.is_recorded
        (take_ack services payload shown (services.get_disclosure_set payload.uin) t)
        (replied (reply ("s3_choices" ∷ []) t)) t
        (λ k. take_ack-Acknowledges payload shown _ t refl e k) (inl (refl, (refl, refl)))

  pub respond_to-Acknowledges :
      (a : Action) (t : Turn) → Acknowledges a t (turn_of (respond_to services a t))
  unfolding respond_to apply acknowledge
  respond_to-Acknowledges (apply_plan uin choice) t =
      apply_option-HasAcks services t.ack_rows t.rec.acks t.rec.shown
        (chosen_option uin t.rec.options) choice t (refl, (refl, refl))
  respond_to-Acknowledges (disclosure_ack payload) t =
      for_shown-Acknowledges payload (lookup payload.uin t.rec.shown) t refl

  Unacked-Bound :
      (t after : Turn)
      → Unacked t after
      → AcksBound t.rec.acks t.rec.shown
      → AcksBound after.rec.acks after.rec.shown
  Unacked-Bound t after (r, (a, s)) h = rw (a, s) h

  Acked-Bound :
      (payload : AckPayload) (t after : Turn)
      → Acked payload t after
      → AcksBound t.rec.acks t.rec.shown
      → AcksBound after.rec.acks after.rec.shown
  Acked-Bound payload t after (shown, (e, (p, (o, (r, (a, s)))))) h =
      let ack = ack_of services payload.uin shown in
      rw (a, s)
        (AcksBound-last t.rec.acks ack t.rec.shown h
          (rw e (ack_of-matches services payload.uin shown)))

  -- The acknowledgments that a session holds go on matching what was shown for their plans.
  respond_to-Bound :
      (a : Action) (t : Turn)
      → AcksBound t.rec.acks t.rec.shown
      → let after = turn_of (respond_to services a t) in AcksBound after.rec.acks after.rec.shown
  respond_to-Bound (apply_plan uin choice) t h =
      Unacked-Bound t (turn_of (respond_to services (apply_plan uin choice) t))
        (respond_to-Acknowledges (apply_plan uin choice) t) h
  respond_to-Bound (disclosure_ack payload) t h =
      let after = turn_of (respond_to services (disclosure_ack payload) t) in
      elim (respond_to-Acknowledges (disclosure_ack payload) t) [
        | inl u ↦ Unacked-Bound t after u h
        | inr k ↦ Acked-Bound payload t after k h
      ]
