-- ===== src/QuoteOnly/Named.antt =====
-- graph/states/quote_only.py: the plan is the customer's (I3),
-- chosen by nobody else.
use suraksha_setu.Prelude.{
  String, ◌≡◌, refl, ◌∙◌, Bool, true, false, not, ◌&&◌, ◌||◌, Option, none, some, List, [], ◌∷◌,
  ◌++◌, Bool-cases, inl, inr, ◌⊎◌, if◌then◌else◌,
}
use suraksha_setu.Prelude.Texts.{in_texts}
use suraksha_setu.Fsm.Facts.{is_some}
use suraksha_setu.Screening.State.{Setup, Screen, Result, ok, raised}
use suraksha_setu.Screening.Prompt.{is_nil}
use suraksha_setu.Screening.Respond.{respond}
use suraksha_setu.Needs.Own.{opened}
use suraksha_setu.QuoteOnly.State.{
  Problem, ProductAnswer, found, not_found, catalog_down, QuoteAnswer, priced, out_of_bounds,
  withdrawn, rating_down, Services, QuoteAction, opt_in, satisfied, other_kind, QuoteInput,
  QuoteSession, Outcome,
}
use suraksha_setu.QuoteOnly.Price.{
  on_screen, next_step, ask_plan, unavailable, new_plan, take_plan, plan, is_withheld, request_for,
  bounds_part, bounds_with, bounds, with_disclosure, on_quote, on_product, is_quoted, quote_plan,
}
use suraksha_setu.QuoteOnly.Node.{
  ask_or_quote, drop_changed, after_respond, or_outage, after_plan, converse, take_opt_in,
  take_satisfied, hard_block, at_quote, by_action, by_text, node,
}

module _ (setup : Setup) (services : Services) where
  -- The focus is left, or given up.
  abbrev Kept : QuoteSession → QuoteSession → Type 0
  Kept q r = (r.focus_uins ≡ []) ⊎ (r.focus_uins ≡ q.focus_uins)

  abbrev KeptBy : QuoteSession → Outcome → Type 0
  KeptBy q o = Kept q (or_outage setup services o)

  if-KeptBy :
      (q : QuoteSession) (b : Bool) (r t : Outcome)
      → KeptBy q r
      → KeptBy q t
      → KeptBy q (if b then r else t)
  if-KeptBy q true r t hr ht = hr
  if-KeptBy q false r t hr ht = ht

  bounds_with-Kept :
      (p : Problem) (part : Option String) (q : QuoteSession) → Kept q (bounds_with setup p part q)
  unfolding unavailable
  bounds_with-Kept p none q = inl refl
  bounds_with-Kept p (some part) q = inr refl

  disclosure-Kept :
      (body : Option String) (q : QuoteSession) → KeptBy q (with_disclosure setup services body q)
  unfolding next_step
  disclosure-Kept none q = inr refl
  disclosure-Kept (some body) q = inr refl

  on_quote-Kept :
      (answer : QuoteAnswer) (q : QuoteSession) → KeptBy q (on_quote setup services answer q)
  unfolding on_quote bounds unavailable
  on_quote-Kept (priced quote) q =
      disclosure-Kept services.get_disclosure
        (record q { quote = some quote; decisions = q.decisions ++ quote ∷ [] })
  on_quote-Kept (out_of_bounds p) q = bounds_with-Kept p (bounds_part p) q
  on_quote-Kept withdrawn q = inl refl
  on_quote-Kept rating_down q = inr refl

  on_product-Kept :
      (uin : String) (answer : ProductAnswer) (q : QuoteSession)
      → KeptBy q (on_product setup services uin answer q)
  unfolding on_product unavailable
  on_product-Kept uin (found product) q =
      on_quote-Kept (services.create_quote (request_for uin product q.screen.known)) q
  on_product-Kept uin not_found q = inl refl
  on_product-Kept uin catalog_down q = inr refl

  quote_plan-Kept : (uin : String) (q : QuoteSession) → KeptBy q (quote_plan setup services uin q)
  unfolding quote_plan next_step
  quote_plan-Kept uin q = if-KeptBy q (is_withheld q.screen.known) _ _ (inr refl) (
      if-KeptBy q (is_quoted setup services uin q.quote) _ _ (inr refl)
        (on_product-Kept uin (services.get_product uin) q))

  ask_or_quote-Kept :
      (focus : List String) (ready : Bool) (q : QuoteSession)
      → KeptBy q (ask_or_quote setup services focus ready q)
  unfolding ask_plan
  ask_or_quote-Kept [] ready q = inr refl
  ask_or_quote-Kept (uin ∷ uins) true q = quote_plan-Kept uin q
  ask_or_quote-Kept (uin ∷ uins) false q = inr refl

  drop_changed_focus :
      (q : QuoteSession) → (drop_changed setup services q).focus_uins ≡ q.focus_uins
  drop_changed_focus q = elim (Bool-cases (is_nil q.screen.filled)) [
    | inl f ↦ rw f refl
    | inr f ↦ rw f refl
  ]

  after_respond-Kept :
      (q : QuoteSession) (r : Result Bool × Screen) → KeptBy q (after_respond setup services q r)
  after_respond-Kept q (raised, s) = inr refl
  after_respond-Kept q (ok ready, s) =
      let taken = drop_changed setup services (record q { screen = s }) in
      elim (ask_or_quote-Kept taken.focus_uins ready taken) [
        | inl e ↦ inl e
        | inr e ↦ inr (e ∙ drop_changed_focus (record q { screen = s }))
      ]

  after_plan-Kept :
      (input : QuoteInput) (o : Outcome)
      → KeptBy o.1 (
          after_plan setup services
            (λ planned.
              after_respond setup services planned (respond setup input.turn planned.screen))
            o)
  after_plan-Kept input (ok done, planned) =
      after_respond-Kept planned (respond setup input.turn planned.screen)
  after_plan-Kept input (raised, q) = inr refl

  -- No plan, the one before, or the one plan that the customer named.
  abbrev pub IsNamed : List String → List String → List String → Type 0
  IsNamed before named focus =
      (focus ≡ [])
      ⊎ ((focus ≡ before) ⊎ ((uin : String) × ((named ≡ uin ∷ []) × (focus ≡ uin ∷ []))))

  take_plan-IsNamed :
      (named : List String) (q : QuoteSession)
      → IsNamed q.focus_uins named (take_plan (new_plan named q.focus_uins) q).focus_uins
  take_plan-IsNamed [] q = inr (inl refl)
  take_plan-IsNamed (uin ∷ v ∷ uins) q = inr (inl refl)
  take_plan-IsNamed (uin ∷ []) q = elim (Bool-cases (in_texts uin q.focus_uins)) [
    | inl e ↦ rw e (inr (inl refl))
    | inr e ↦ rw e (inr (inr (uin, (refl, refl))))
  ]

  plan-IsNamed :
      (input : QuoteInput) (q : QuoteSession)
      → IsNamed q.focus_uins input.named (plan services input q).1.focus_uins
  unfolding plan
  plan-IsNamed input q = elim (Bool-cases (is_some input.turn.pipeline)) [
    | inr e ↦ rw e (inr (inl refl))
    | inl e ↦ elim (Bool-cases services.lists_products) [
      | inl l ↦ rw (e, l) (take_plan-IsNamed input.named q)
      | inr l ↦ rw (e, l) (inr (inl refl))
    ]
  ]

  converse-IsNamed :
      (input : QuoteInput) (q : QuoteSession)
      → IsNamed q.focus_uins input.named (converse setup services input q).focus_uins
  unfolding converse opened
  converse-IsNamed input q =
      let planned = plan services input (on_screen (opened []) q) in
      elim (after_plan-Kept input planned) [
        | inl e ↦ inl e
        | inr e ↦ rw e (plan-IsNamed input (on_screen (opened []) q))
      ]

  by_action-IsNamed :
      (input : QuoteInput) (a : QuoteAction) (f : QuoteSession → QuoteSession) (q : QuoteSession)
      → IsNamed q.focus_uins input.named (f q).focus_uins
      → IsNamed q.focus_uins input.named (by_action setup services input a f q).focus_uins
  unfolding take_opt_in take_satisfied
  by_action-IsNamed input opt_in f q h = inr (inl refl)
  by_action-IsNamed input satisfied f q h = inr (inl refl)
  by_action-IsNamed input other_kind f q h = h

  by_text-IsNamed :
      (input : QuoteInput) (q : QuoteSession)
      → IsNamed q.focus_uins input.named (by_text setup services input q).focus_uins
  unfolding hard_block
  by_text-IsNamed input q = elim (Bool-cases (is_some input.turn.pipeline && input.asks_to_apply)) [
    | inl e ↦ rw e (inr (inl refl))
    | inr e ↦ rw e (
        by_action-IsNamed input (at_quote input q.screen.last_prompt_id)
          (converse setup services input) q (converse-IsNamed input q))
  ]

  -- I3: after any turn of Quote-Only the plan in focus is none, the one before the turn, or the one
  -- plan that the customer's message names; the services never choose one.
  pub node-IsNamed :
      (input : QuoteInput) (q : QuoteSession)
      → IsNamed q.focus_uins input.named (node setup services input q).focus_uins
  unfolding node
  node-IsNamed input q =
      elim (Bool-cases (not input.is_valid || input.asks_human || input.overlong)) [
        | inl e ↦ rw e (inr (inl refl))
        | inr e ↦ rw e (by_action-IsNamed input input.kind _ q (by_text-IsNamed input q))
      ]
