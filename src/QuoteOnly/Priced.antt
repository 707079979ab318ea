-- ===== src/QuoteOnly/Priced.antt =====
-- graph/states/quote_only.py: where the quote and the plan of a session come from.
use suraksha_setu.Prelude.{
  String, ◌≡◌, refl, Bool, true, false, Option, none, some, List, [], ◌∷◌, ◌++◌, Bool-cases, inl,
  inr, ◌⊎◌, if◌then◌else◌,
}
use suraksha_setu.Prelude.Dict.{lookup}
use suraksha_setu.Fsm.Facts.{is_some}
use suraksha_setu.Screening.State.{Setup, Screen, Result, ok, raised}
use suraksha_setu.Screening.Take.{write}
use suraksha_setu.Screening.Prompt.{is_nil, reply}
use suraksha_setu.Screening.Respond.{respond}
use suraksha_setu.Needs.Own.{opened}
use suraksha_setu.QuoteOnly.State.{
  Product, PremiumQuote, Problem, ProductAnswer, found, not_found, catalog_down, QuoteAnswer,
  priced, out_of_bounds, withdrawn, rating_down, Services, QuoteInput, QuoteSession, Outcome,
}
use suraksha_setu.QuoteOnly.Price.{
  on_screen, next_step, ask_plan, unavailable, new_plan, take_plan, plan, is_withheld, request_for,
  cleared, bounds_part, bounds_with, bounds, with_disclosure, on_quote, on_product, is_quoted,
  quote_plan,
}
use suraksha_setu.QuoteOnly.Node.{
  ask_or_quote, drop_changed, after_respond, or_outage, after_plan, converse,
}

module _ (setup : Setup) (services : Services) where
  -- The quote is the adapter's answer for the values that the session holds now.
  pub record IsPriced (q : QuoteSession) : Type 0 where
    pub uin : String
    pub product : Product
    pub quote : PremiumQuote
    pub in_catalog : services.get_product uin ≡ found product
    pub by_adapter : services.create_quote (request_for uin product q.screen.known) ≡ priced quote
    pub is_held : q.quote ≡ some quote

  -- No quote, the one from before with no new answer since, or a new one.
  abbrev Base : Option PremiumQuote → QuoteSession → Type 0
  Base before q = (q.quote ≡ none) ⊎ ((q.quote ≡ before) × (is_nil q.screen.filled ≡ true))

  abbrev pub From : Option PremiumQuote → QuoteSession → Type 0
  From before q =
      (q.quote ≡ none)
      ⊎ (((q.quote ≡ before)
            × ((is_nil q.screen.filled ≡ true) ⊎ (q.screen.parts ≡ "rating_unavailable" ∷ [])))
          ⊎ IsPriced q)

  From-Base : (before : Option PremiumQuote) (q : QuoteSession) → Base before q → From before q
  From-Base before q (inl e) = inl e
  From-Base before q (inr (e, f)) = inr (inl (e, inl f))

  cleared_filled : (field : String) (s : Screen) → (cleared setup field s).filled ≡ s.filled
  unfolding write
  cleared_filled field s = elim (Bool-cases (is_some (lookup field s.known))) [
    | inl e ↦ rw e refl
    | inr e ↦ rw e refl
  ]

  bounds_with-From :
      (before : Option PremiumQuote) (p : Problem) (part : Option String) (q : QuoteSession)
      → Base before q
      → From before (bounds_with setup p part q)
  unfolding unavailable reply
  bounds_with-From before p none q h = inl refl
  bounds_with-From before p (some part) q (inl e) = inl e
  bounds_with-From before p (some part) q (inr (e, f)) =
      inr (inl (e, inl (rw (cleared_filled p.field q.screen) f)))

  disclosed-IsPriced :
      (body : Option String) (uin : String) (product : Product) (quote : PremiumQuote)
      (q : QuoteSession)
      → services.get_product uin ≡ found product
      → services.create_quote (request_for uin product q.screen.known) ≡ priced quote
      → IsPriced (
          or_outage setup services (
            with_disclosure setup services body
              (record q { quote = some quote; decisions = q.decisions ++ quote ∷ [] })))
  unfolding next_step reply
  disclosed-IsPriced none uin product quote q c a = record {
    uin = uin;
    product = product;
    quote = quote;
    in_catalog = c;
    by_adapter = a;
    is_held = refl;
  }
  disclosed-IsPriced (some body) uin product quote q c a = record {
    uin = uin;
    product = product;
    quote = quote;
    in_catalog = c;
    by_adapter = a;
    is_held = refl;
  }

  on_quote-From :
      (before : Option PremiumQuote) (uin : String) (product : Product) (answer : QuoteAnswer)
      (q : QuoteSession)
      → services.get_product uin ≡ found product
      → services.create_quote (request_for uin product q.screen.known) ≡ answer
      → Base before q
      → From before (or_outage setup services (on_quote setup services answer q))
  unfolding on_quote bounds unavailable next_step reply
  on_quote-From before uin product (out_of_bounds p) q c a h =
      bounds_with-From before p (bounds_part p) q h
  on_quote-From before uin product withdrawn q c a h = inl refl
  on_quote-From before uin product rating_down q c a h = From-Base before _ h
  on_quote-From before uin product (priced quote) q c a h =
      inr (inr (disclosed-IsPriced services.get_disclosure uin product quote q c a))

  on_product-From :
      (before : Option PremiumQuote) (uin : String) (answer : ProductAnswer) (q : QuoteSession)
      → services.get_product uin ≡ answer
      → Base before q
      → From before (or_outage setup services (on_product setup services uin answer q))
  unfolding on_product unavailable reply
  on_product-From before uin (found product) q c h =
      on_quote-From before uin product
        (services.create_quote (request_for uin product q.screen.known)) q c refl h
  on_product-From before uin not_found q c h = inl refl
  on_product-From before uin catalog_down q c h = From-Base before _ h

  if-From :
      (before : Option PremiumQuote) (b : Bool) (r t : Outcome)
      → From before (or_outage setup services r)
      → From before (or_outage setup services t)
      → From before (or_outage setup services (if b then r else t))
  if-From before true r t hr ht = hr
  if-From before false r t hr ht = ht

  quote_plan-From :
      (before : Option PremiumQuote) (uin : String) (q : QuoteSession)
      → Base before q
      → From before (or_outage setup services (quote_plan setup services uin q))
  unfolding quote_plan next_step reply
  quote_plan-From before uin q h =
      if-From before (is_withheld q.screen.known) _ _ (From-Base before _ h) (
        if-From before (is_quoted setup services uin q.quote) _ _ (From-Base before _ h)
          (on_product-From before uin (services.get_product uin) q refl h))

  ask_or_quote-From :
      (before : Option PremiumQuote) (focus : List String) (ready : Bool) (q : QuoteSession)
      → Base before q
      → From before (or_outage setup services (ask_or_quote setup services focus ready q))
  unfolding ask_plan reply
  ask_or_quote-From before [] ready q h = From-Base before _ h
  ask_or_quote-From before (uin ∷ uins) true q h = quote_plan-From before uin q h
  ask_or_quote-From before (uin ∷ uins) false q h = From-Base before _ h

  drop_changed-Base :
      (before : Option PremiumQuote) (q : QuoteSession)
      → (q.quote ≡ none) ⊎ (q.quote ≡ before)
      → Base before (drop_changed setup services q)
  drop_changed-Base before q h = elim (Bool-cases (is_nil q.screen.filled)) [
    | inr f ↦ rw f (inl refl)
    | inl f ↦ rw f (elim h [ inl e ↦ inl e | inr e ↦ inr (e, f) ])
  ]

  after_respond-From :
      (before : Option PremiumQuote) (q : QuoteSession) (r : Result Bool × Screen)
      → (q.quote ≡ none) ⊎ (q.quote ≡ before)
      → From before (or_outage setup services (after_respond setup services q r))
  after_respond-From before q (ok ready, s) h =
      let taken = drop_changed setup services (record q { screen = s }) in
      ask_or_quote-From before taken.focus_uins ready taken
        (drop_changed-Base before (record q { screen = s }) h)
  after_respond-From before q (raised, s) (inl e) = inl e
  after_respond-From before q (raised, s) (inr e) = inr (inl (e, inr refl))

  plan_quote :
      (input : QuoteInput) (q : QuoteSession)
      → ((plan services input q).1.quote ≡ none) ⊎ ((plan services input q).1.quote ≡ q.quote)
  unfolding plan
  plan_quote input q = elim (Bool-cases (is_some input.turn.pipeline)) [
    | inr e ↦ rw e (inr refl)
    | inl e ↦ elim (Bool-cases services.lists_products) [
      | inl l ↦ rw (e, l) (by_plan (new_plan input.named q.focus_uins))
      | inr l ↦ rw (e, l) (inr refl)
    ]
  ]
    where
      by_plan :
          (o : Option String) → ((take_plan o q).quote ≡ none) ⊎ ((take_plan o q).quote ≡ q.quote)
      by_plan none = inr refl
      by_plan (some uin) = inl refl

  after_plan-From :
      (before : Option PremiumQuote) (input : QuoteInput) (o : Outcome)
      → (o.1.quote ≡ none) ⊎ (o.1.quote ≡ before)
      → From before (
          or_outage setup services (
            after_plan setup services
              (λ planned.
                after_respond setup services planned (respond setup input.turn planned.screen))
              o))
  after_plan-From before input (ok done, planned) h =
      after_respond-From before planned (respond setup input.turn planned.screen) h
  after_plan-From before input (raised, q) (inl e) = inl e
  after_plan-From before input (raised, q) (inr e) = inr (inl (e, inr refl))

  -- Where the quote of a session comes from, after a turn that is read for answers: there is none; or
  -- it is the one from before, and this turn filled no slot, or the services failed; or it is what the
  -- quote adapter answered to the request of a product of the catalog with the values that the
  -- session holds now.
  pub converse-From :
      (input : QuoteInput) (q : QuoteSession) → From q.quote (converse setup services input q)
  unfolding converse opened
  converse-From input q =
      let start = on_screen (opened []) q in
      after_plan-From q.quote input (plan services input start) (plan_quote input start)
