-- ===== src/QuoteOnly/Withheld.antt =====
-- graph/states/quote_only.py: a declined tobacco answer gets no premium.
use suraksha_setu.Prelude.{
  ◌++◌, String, ◌≡◌, refl, ◌∙◌, Bool, true, false, Option, none, some, List, [], ◌∷◌, Bool-cases,
  inl, inr, ◌⊎◌,
}
use suraksha_setu.Fsm.Facts.{is_some}
use suraksha_setu.Screening.State.{Setup, Screen, Result, ok, raised}
use suraksha_setu.Screening.Prompt.{is_nil, reply}
use suraksha_setu.Screening.Respond.{respond}
use suraksha_setu.Needs.Own.{opened}
use suraksha_setu.QuoteOnly.State.{Services, QuoteInput, QuoteSession, Outcome}
use suraksha_setu.QuoteOnly.Price.{
  on_screen, next_step, ask_plan, new_plan, take_plan, plan, is_withheld, quote_plan,
}
use suraksha_setu.QuoteOnly.Node.{ask_or_quote, after_respond, or_outage, after_plan, converse}

module _ (setup : Setup) (a b : Services) where
  -- What the turn shows is a fixed reply, or what the reading of the answer has put.
  abbrev ShowsOnly : Screen → List String → Type 0
  ShowsOnly read parts =
      (parts ≡ "rating_unavailable" ∷ [])
      ⊎ ((parts ≡ read.lead ++ "plan_ask" ∷ [])
          ⊎ ((parts ≡ read.lead ++ "quote_withheld" ∷ []) ⊎ (parts ≡ read.parts)))

  -- No quote is made and no text of the registry is shown, and the other services give the same turn.
  pub record NoQuote (read : Screen) (q r t : QuoteSession) : Type 0 where
    pub same : r ≡ t
    pub shows : ShowsOnly read r.screen.parts
    pub decides : r.decisions ≡ q.decisions
    pub discloses : r.shown ≡ q.shown
    pub quotes : (r.quote ≡ none) ⊎ (r.quote ≡ q.quote)

  abbrev Both : QuoteSession → Screen → Outcome → Outcome → Type 0
  Both q read r t = NoQuote read q (or_outage setup a r) (or_outage setup b t)

  withheld_plan :
      (uin : String) (q : QuoteSession)
      → is_withheld q.screen.known ≡ true
      → Both q q.screen (quote_plan setup a uin q) (quote_plan setup b uin q)
  unfolding quote_plan next_step reply
  withheld_plan uin q h = rw h (record {
    same = refl;
    shows = inr (inr (inl refl));
    decides = refl;
    discloses = refl;
    quotes = inr refl;
  })

  withheld_at :
      (focus : List String) (ready : Bool) (q : QuoteSession)
      → is_withheld q.screen.known ≡ true
      → Both q q.screen (ask_or_quote setup a focus ready q) (ask_or_quote setup b focus ready q)
  unfolding ask_plan reply
  withheld_at [] ready q h = record {
    same = refl;
    shows = inr (inl refl);
    decides = refl;
    discloses = refl;
    quotes = inr refl;
  }
  withheld_at (uin ∷ uins) true q h = withheld_plan uin q h
  withheld_at (uin ∷ uins) false q h = record {
    same = refl;
    shows = inr (inr (inr refl));
    decides = refl;
    discloses = refl;
    quotes = inr refl;
  }

  withheld_after :
      (q : QuoteSession) (r : Result Bool × Screen)
      → is_withheld r.1.known ≡ true
      → Both q r.1 (after_respond setup a q r) (after_respond setup b q r)
  withheld_after q (raised, s) h = record {
    same = refl;
    shows = inl refl;
    decides = refl;
    discloses = refl;
    quotes = inr refl;
  }
  withheld_after q (ok ready, s) h = elim (Bool-cases (is_nil s.filled)) [
    | inl f ↦
        let taken = record q { screen = s } in
        let asked = withheld_at taken.focus_uins ready taken h in
        rw f (record {
          same = asked.same;
          shows = asked.shows;
          decides = asked.decides;
          discloses = asked.discloses;
          quotes = asked.quotes;
        })
    | inr f ↦
        let taken = record q { screen = s; quote = none } in
        let asked = withheld_at taken.focus_uins ready taken h in
        rw f (record {
          same = asked.same;
          shows = asked.shows;
          decides = asked.decides;
          discloses = asked.discloses;
          quotes = inl (elim asked.quotes [ inl e ↦ e | inr e ↦ e ]);
        })
  ]

  plan_same :
      (input : QuoteInput) (q : QuoteSession)
      → a.lists_products ≡ b.lists_products
      → plan a input q ≡ plan b input q
  unfolding plan
  plan_same input q e = rw e refl

  plan_left :
      (services : Services) (input : QuoteInput) (q : QuoteSession)
      → ((plan services input q).1.decisions ≡ q.decisions)
        × (((plan services input q).1.shown ≡ q.shown)
            × (((plan services input q).1.quote ≡ none)
                ⊎ ((plan services input q).1.quote ≡ q.quote)))
  unfolding plan
  plan_left services input q = elim (Bool-cases (is_some input.turn.pipeline)) [
    | inr e ↦ rw e (refl, (refl, inr refl))
    | inl e ↦ elim (Bool-cases services.lists_products) [
      | inl l ↦ rw (e, l) (by_plan (new_plan input.named q.focus_uins))
      | inr l ↦ rw (e, l) (refl, (refl, inr refl))
    ]
  ]
    where
      by_plan :
          (o : Option String)
          → ((take_plan o q).decisions ≡ q.decisions)
            × (((take_plan o q).shown ≡ q.shown)
                × (((take_plan o q).quote ≡ none) ⊎ ((take_plan o q).quote ≡ q.quote)))
      by_plan none = (refl, (refl, inr refl))
      by_plan (some uin) = (refl, (refl, inl refl))

  withheld_planned :
      (input : QuoteInput) (o : Outcome)
      → let read = respond setup input.turn o.1.screen in
        is_withheld read.1.known ≡ true
        → Both o.1 read.1
            (after_plan setup a
              (λ planned. after_respond setup a planned (respond setup input.turn planned.screen))
              o)
            (after_plan setup b
              (λ planned. after_respond setup b planned (respond setup input.turn planned.screen))
              o)
  withheld_planned input (ok done, planned) h =
      withheld_after planned (respond setup input.turn planned.screen) h
  withheld_planned input (raised, q) h = record {
    same = refl;
    shows = inl refl;
    decides = refl;
    discloses = refl;
    quotes = inr refl;
  }

  -- Where the turn leaves no answer on tobacco, or a declined one, no premium is asked for or shown:
  -- beyond the catalog's list of plans, with which the message is read, the services may answer
  -- anything, and the session is the same; the reply is that the premium is withheld, the question for
  -- a plan, each behind what leads the reply, the outage's, or what the reading of the answer has put; and no quote is decided, no text of
  -- the registry is shown, and the quote held is the one from before or none.
  pub withheld_asks_nothing :
      (input : QuoteInput) (q : QuoteSession)
      → let read = respond setup input.turn (plan a input (on_screen (opened []) q)).1.screen in
        is_withheld read.1.known ≡ true
        → a.lists_products ≡ b.lists_products
        → NoQuote read.1 q (converse setup a input q) (converse setup b input q)
  unfolding converse
  withheld_asks_nothing input q h e =
      let start = on_screen (opened []) q in
      let done = withheld_planned input (plan a input start) h in
      let (decides, (discloses, quotes)) = plan_left a input start in
      rw⁻¹ (plan_same input start e) (record {
        same = done.same;
        shows = done.shows;
        decides = done.decides ∙ decides;
        discloses = done.discloses ∙ discloses;
        quotes = elim done.quotes [
          | inl n ↦ inl n
          | inr n ↦ elim quotes [ inl p ↦ inl (n ∙ p) | inr p ↦ inr (n ∙ p) ]
        ];
      })
