-- ===== src/Apply/Posted.antt =====
-- graph/states/s3.py: what an intake that is sent to the application journey rests on (V7).
use suraksha_setu.Prelude.{
  ℕ, String, ◌≡◌, refl, Bool, true, false, Option, none, some, List, [], ◌∷◌, ◌str_eq◌, eq_iff,
  eq_refl, Bool-cases, inl, inr, ◌⊎◌, if◌then◌else◌,
}
use suraksha_setu.Prelude.Dict.{lookup}
use suraksha_setu.Apply.State.{
  Shown, PricedQuote, Selection, RecommendedOption, Recommendation, Intake, Turn, Choice,
  AckPayload, PriceRequest, PriceAnswer, priced, out_of_bounds, refused, Services, Outcome, replied,
  turn_of, quote_valid, is_unmoved, check_ack, acks_for, acks_valid,
}
use suraksha_setu.Apply.Node.{
  reply, with_selection, is_custom, price_request, chosen_option, intake_of, deliver, if_unmoved,
  hand_off, asked_with, select, on_price, apply_quoted, apply_option, apply, ack_of, recorded_ack,
  on_requote, after_ack, is_none_of, take_ack, for_shown, acknowledge, Action, apply_plan,
  disclosure_ack, respond_to,
}
use suraksha_setu.Apply.Matching.{
  AcksBound, ack_of-matches, all_match-bound, acks_for-last, some_and_all-last,
}

module _ (services : Services) where
  -- V7: the plan is acknowledged, each time as it was shown; the registry still holds the set that was
  -- shown; and the quote is valid today, or priced in this turn.
  pub record IsReady (rec : Recommendation) (i : Intake) : Type 0 where
    pub acknowledged : acks_valid rec i.uin ≡ true
    pub unmoved :
        (registry : String × String) × ((shown : Shown) × ((services.get_disclosure_set i.uin
              ≡ some registry)
            × ((lookup i.uin rec.shown ≡ some shown) × (is_unmoved registry shown ≡ true))))
    pub priced_now :
        (quote_valid i.quote services.today ≡ true)
        ⊎ ((request : PriceRequest) × (services.create_quote request ≡ priced i.quote))

  abbrev AllReady : Recommendation → List Intake → Type 0
  AllReady rec [] = Unit
  AllReady rec (i ∷ is) = IsReady rec i × AllReady rec is

  abbrev pub Posts : Turn → Type 0
  Posts t = AllReady t.rec t.posted

  Posts-none : (t : Turn) → t.posted ≡ [] → Posts t
  Posts-none t e = rw e tt

  abbrev HasPrice : PricedQuote → Type 0
  HasPrice quote =
      (quote_valid quote services.today ≡ true)
      ⊎ ((request : PriceRequest) × (services.create_quote request ≡ priced quote))

  deliver-Posts :
      (sel : Selection) (t : Turn) (registry : String × String) (shown : Shown)
      → t.posted ≡ []
      → acks_valid t.rec sel.uin ≡ true
      → services.get_disclosure_set sel.uin ≡ some registry
      → lookup sel.uin t.rec.shown ≡ some shown
      → is_unmoved registry shown ≡ true
      → HasPrice sel.quote
      → Posts (deliver services sel t)
  unfolding deliver
  deliver-Posts sel t registry shown fresh acked g l u p =
      elim (Bool-cases (services.post (intake_of services sel t.rec))) [
        | inr k ↦ rw k (Posts-none t fresh)
        | inl k ↦
            rw (k, fresh)
              (
                record {
                  acknowledged = acked;
                  unmoved = (registry, (shown, (g, (l, u))));
                  priced_now = p;
                },
                tt,
              )
      ]

  hand_off-Posts :
      (sel : Selection) (t : Turn) (o : Option (String × String)) (s : Option Shown)
      → services.get_disclosure_set sel.uin ≡ o
      → lookup sel.uin t.rec.shown ≡ s
      → t.posted ≡ []
      → acks_valid t.rec sel.uin ≡ true
      → HasPrice sel.quote
      → Posts (turn_of (if_unmoved services o s sel t))
  hand_off-Posts sel t none s g l fresh acked p = Posts-none t fresh
  hand_off-Posts sel t (some registry) none g l fresh acked p = Posts-none t fresh
  hand_off-Posts sel t (some registry) (some shown) g l fresh acked p =
      elim (Bool-cases (is_unmoved registry shown)) [
        | inr k ↦ rw k (Posts-none t fresh)
        | inl k ↦ rw k (deliver-Posts sel t registry shown fresh acked g l k p)
      ]

  asked_with-Posts :
      (o : Option Shown) (sel : Selection) (t : Turn)
      → t.posted ≡ []
      → Posts (turn_of (asked_with services o sel t))
  asked_with-Posts none sel t fresh = Posts-none t fresh
  asked_with-Posts (some shown) sel t fresh = rw fresh tt

  select-Posts :
      (sel : Selection) (t : Turn)
      → t.posted ≡ []
      → HasPrice sel.quote
      → Posts (turn_of (select services sel t))
  unfolding select hand_off
  select-Posts sel t fresh p =
      let selected = with_selection sel t in
      elim (Bool-cases (acks_valid selected.rec sel.uin)) [
        | inl k ↦ rw k (hand_off-Posts sel selected _ _ refl refl fresh k p)
        | inr k ↦ rw k (asked_with-Posts (lookup sel.uin t.rec.shown) sel selected fresh)
      ]

  on_price-Posts :
      (uin : String) (short : ℕ) (custom : Bool) (request : PriceRequest) (answer : PriceAnswer)
      (t : Turn)
      → services.create_quote request ≡ answer
      → t.posted ≡ []
      → Posts (turn_of (on_price services uin short custom answer t))
  on_price-Posts uin short custom request (priced quote) t e fresh =
      select-Posts _ t fresh (inr (request, e))
  on_price-Posts uin short custom request (out_of_bounds part) t e fresh = rw fresh tt
  on_price-Posts uin short custom request refused t e fresh = Posts-none t fresh

  apply_quoted-Posts :
      (option : RecommendedOption) (choice : Choice) (o : Option PricedQuote) (t : Turn)
      → t.posted ≡ []
      → Posts (turn_of (apply_quoted services option choice o t))
  apply_quoted-Posts option choice none t fresh = rw fresh tt
  apply_quoted-Posts option choice (some quote) t fresh =
      elim (Bool-cases (is_custom choice quote)) [
        | inl c ↦ rw c (
            on_price-Posts option.uin _ true (price_request option.uin choice quote) _ t refl fresh)
        | inr c ↦ elim (Bool-cases (quote_valid quote services.today)) [
          | inr v ↦
              rw (c, v)
                (on_price-Posts option.uin _ false (price_request option.uin choice quote) _ t refl
                  fresh)
          | inl v ↦ rw (c, v) (select-Posts _ t fresh (inl v))
        ]
      ]

  apply_option-Posts :
      (o : Option RecommendedOption) (choice : Choice) (t : Turn)
      → t.posted ≡ []
      → Posts (turn_of (apply_option services o choice t))
  apply_option-Posts none choice t fresh = rw fresh tt
  apply_option-Posts (some option) choice t fresh =
      apply_quoted-Posts option choice option.quote t fresh

  on_requote-Posts :
      (sel : Selection) (answer : PriceAnswer) (t : Turn)
      → t.posted ≡ []
      → Posts (turn_of (on_requote services sel answer t))
  on_requote-Posts sel (priced fresh_quote) t fresh = rw fresh tt
  on_requote-Posts sel (out_of_bounds part) t fresh = Posts-none t fresh
  on_requote-Posts sel refused t fresh = Posts-none t fresh

  after_ack-Posts :
      (uin : String) (o : Option Selection) (t : Turn)
      → t.posted ≡ []
      → acks_valid t.rec uin ≡ true
      → Posts (turn_of (after_ack services uin o t))
  unfolding hand_off
  after_ack-Posts uin none t fresh acked = rw fresh tt
  after_ack-Posts uin (some sel) t fresh acked = elim (Bool-cases (sel.uin str_eq uin)) [
    | inr k ↦ rw k (rw fresh tt)
    | inl k ↦ elim (Bool-cases (quote_valid sel.quote services.today)) [
      | inr v ↦ rw (k, v) (on_requote-Posts sel _ t fresh)
      | inl v ↦
          let same : sel.uin ≡ uin = (eq_iff sel.uin uin).0 k in
          let here : acks_valid t.rec sel.uin ≡ true = rw same acked in
          rw (k, v) (hand_off-Posts sel t _ _ refl refl fresh here (inl v))
    ]
  ]

  acked_now :
      (uin : String) (shown : Shown) (t : Turn)
      → lookup uin t.rec.shown ≡ some shown
      → AcksBound t.rec.acks t.rec.shown
      → acks_valid (recorded_ack services (ack_of services uin shown) t).rec uin ≡ true
  acked_now uin shown t e h =
      let ack = ack_of services uin shown in
      rw (acks_for-last uin t.rec.acks ack (eq_refl uin), e)
        (some_and_all-last (acks_for uin t.rec.acks) ack shown
          (all_match-bound uin t.rec.acks t.rec.shown shown e h)
          (ack_of-matches services uin shown))

  take_ack-Posts :
      (payload : AckPayload) (shown : Shown) (o : Option (String × String)) (t : Turn)
      → lookup payload.uin t.rec.shown ≡ some shown
      → t.posted ≡ []
      → AcksBound t.rec.acks t.rec.shown
      → Posts (turn_of (take_ack services payload shown o t))
  take_ack-Posts payload shown none t e fresh h = Posts-none t fresh
  take_ack-Posts payload shown (some registry) t e fresh h =
      elim (Bool-cases (is_none_of services (check_ack payload shown registry))) [
        | inr k ↦ rw k (Posts-none t fresh)
        | inl k ↦ rw k (
            after_ack-Posts payload.uin t.rec.selection
              (recorded_ack services (ack_of services payload.uin shown) t) fresh
              (acked_now payload.uin shown t e h))
      ]

  if-Posts :
      (b : Bool) (r s : Outcome)
      → Posts (turn_of r)
      → Posts (turn_of s)
      → Posts (turn_of (if b then r else s))
  if-Posts true r s hr hs = hr
  if-Posts false r s hr hs = hs

  for_shown-Posts :
      (payload : AckPayload) (o : Option Shown) (t : Turn)
      → lookup payload.uin t.rec.shown ≡ o
      → t.posted ≡ []
      → AcksBound t.rec.acks t.rec.shown
      → Posts (turn_of (for_shown services payload o t))
  for_shown-Posts payload none t e fresh h = rw fresh tt
  for_shown-Posts payload (some shown) t e fresh h =
      if-Posts t.rec.is_recorded
        (take_ack services payload shown (services.get_disclosure_set payload.uin) t)
        (replied (reply ("s3_choices" ∷ []) t)) (take_ack-Posts payload shown _ t e fresh h)
        (Posts-none (reply ("s3_choices" ∷ []) t) fresh)

  -- V7: whatever is chosen or acknowledged in a turn, an intake that the application journey took is
  -- for a plan with an acknowledgment, and with each of them matching what was shown; the registry
  -- still holds the set that was shown; and the quote is valid today, or was priced in the turn. No
  -- intake was sent before in the turn, and the acknowledgments held so far match what was shown.
  pub respond_to-Posts :
      (a : Action) (t : Turn)
      → t.posted ≡ []
      → AcksBound t.rec.acks t.rec.shown
      → Posts (turn_of (respond_to services a t))
  unfolding respond_to apply acknowledge
  respond_to-Posts (apply_plan uin choice) t fresh h =
      apply_option-Posts (chosen_option uin t.rec.options) choice t fresh
  respond_to-Posts (disclosure_ack payload) t fresh h =
      for_shown-Posts payload (lookup payload.uin t.rec.shown) t refl fresh h
