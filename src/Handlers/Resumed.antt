-- ===== src/Handlers/Resumed.antt =====
-- graph/handlers/pause.py: what a resumed session holds.
use suraksha_setu.Prelude.{
  ℕ, String, ◌≡◌, refl, Bool, true, false, Option, none, some, List, [], ◌∷◌, if◌then◌else◌, arith,
  Bool-cases, inl, inr,
}
use suraksha_setu.Prelude.Texts.{in_texts}
use suraksha_setu.Handlers.Pause.{
  Product, ProductReply, found, not_found, failed, OptionShown, Stale, Checked, checked, raised,
  Session, ended_by, is_sold, any_killed, any_expired, after_product, any_withdrawn, or_expired,
  stale, drop_quote, kept_options, with_stale, revalidated, with_consent, resume_from, resume,
}

module _ (kill_switches : List String) (get_product : String → ProductReply) (today : ℕ) where
  -- The option may still be shown: its product is not stopped and is sold today, and its quote holds.
  pub record IsSellable (o : OptionShown) : Type 0 where
    pub not_killed : in_texts o.uin kill_switches ≡ false
    pub product : Product
    pub is_found : get_product o.uin ≡ found product
    pub sold_today : is_sold today product ≡ true
    pub quote_holds : ended_by today o.quote_until ≡ false

  abbrev pub AllSellable : List OptionShown → Type 0
  AllSellable [] = Unit
  AllSellable (o ∷ os) = IsSellable o × AllSellable os

  product_sold :
      (r : ProductReply) (rest : Checked Bool)
      → after_product kill_switches get_product today r rest ≡ checked false
      → (p : Product) × ((r ≡ found p) × ((is_sold today p ≡ true) × (rest ≡ checked false)))
  product_sold (found p) rest h = elim (Bool-cases (is_sold today p)) [
    | inl s ↦ (p, (refl, (s, cc)))
    | inr s ↦ absurd (ground arith)
  ]
  product_sold not_found rest h = absurd (ground arith)
  product_sold failed rest h = absurd (ground arith)

  all-AllSellable :
      (os : List OptionShown)
      → any_killed kill_switches os ≡ false
      → any_withdrawn kill_switches get_product today os ≡ checked false
      → any_expired today os ≡ false
      → AllSellable os
  unfolding any_withdrawn
  all-AllSellable [] k w e = tt
  all-AllSellable (o ∷ os) k w e =
      let sold =
        product_sold (get_product o.uin) (any_withdrawn kill_switches get_product today os) w in
      (
        record {
          not_killed = ground arith;
          product = sold.0;
          is_found = sold.1.0;
          sold_today = sold.1.1.0;
          quote_holds = ground arith;
        },
        all-AllSellable os (ground arith) sold.1.1.1 (ground arith),
      )

  none_if_not : (b : Bool) (r : Stale) → (if b then some r else none) ≡ none → b ≡ false
  none_if_not true r h = absurd (ground arith)
  none_if_not false r h = refl

  or_expired-none :
      (os : List OptionShown) (c : Checked Bool)
      → or_expired kill_switches get_product today os c ≡ checked none
      → (c ≡ checked false) × (any_expired today os ≡ false)
  or_expired-none os raised h = absurd (ground arith)
  or_expired-none os (checked true) h = absurd (ground arith)
  or_expired-none os (checked false) h =
      (refl, none_if_not (any_expired today os) Stale.quote_expired cc)

  fresh-AllSellable :
      (os : List OptionShown)
      → stale kill_switches get_product today os ≡ checked none
      → AllSellable os
  unfolding stale
  fresh-AllSellable os h = elim (Bool-cases (any_killed kill_switches os)) [
    | inl k ↦
        let said : checked (some Stale.product_kill_switch) ≡ checked none = rw k at h in
        absurd (ground arith)
    | inr k ↦
        let rest =
          or_expired-none os (any_withdrawn kill_switches get_product today os) (rw k at h) in
        all-AllSellable os k rest.0 rest.1
  ]

  abbrev pub SellableIn : Option (List OptionShown) → Type 0
  SellableIn none = Unit
  SellableIn (some os) = AllSellable os

  module _ {Consent : Type 0} (get_consent : Consent → Checked Consent) where
    -- The consent is the record as the Consent Service has it now.
    abbrev pub IsFetched : Option Consent → Option Consent → Type 0
    IsFetched none c = c ≡ none
    IsFetched (some old) c = (new : Consent) × ((get_consent old ≡ checked new) × (c ≡ some new))

    pub record IsCurrent (before : Option Consent) (t : Session Consent) : Type 0 where
      pub consent_fetched : IsFetched before t.consent
      pub options_sellable : SellableIn t.recommendation
      pub quote_holds : ended_by today t.quote ≡ false

    dropped_holds : (q : Option ℕ) → ended_by today (if ended_by today q then none else q) ≡ false
    dropped_holds q = elim (Bool-cases (ended_by today q)) [ inl e ↦ rw e refl | inr e ↦ rw e e ]

    kept-SellableIn :
        (os : List OptionShown) (o : Option Stale)
        → stale kill_switches get_product today os ≡ checked o
        → SellableIn (kept_options kill_switches get_product today get_consent os o)
    kept-SellableIn os none h = fresh-AllSellable os h
    kept-SellableIn os (some r) h = tt

    with_stale-IsCurrent :
        (before : Option Consent) (os : List OptionShown) (s t : Session Consent)
        (c : Checked (Option Stale))
        → IsFetched before s.consent
        → stale kill_switches get_product today os ≡ c
        → with_stale kill_switches get_product today get_consent os s c ≡ checked t
        → IsCurrent before t
    with_stale-IsCurrent before os s t raised f e h = absurd (ground arith)
    with_stale-IsCurrent before os s t (checked o) f e h =
        let same : drop_quote kill_switches get_product today get_consent (record s {
          recommendation = kept_options kill_switches get_product today get_consent os o;
        })
            ≡ t =
          cc in
        rw (← same) (record {
          consent_fetched = f;
          options_sellable = kept-SellableIn os o e;
          quote_holds = dropped_holds s.quote;
        })

    revalidated-IsCurrent :
        (before : Option Consent) (o : Option (List OptionShown)) (s t : Session Consent)
        → IsFetched before s.consent
        → s.recommendation ≡ o
        → revalidated kill_switches get_product today get_consent o s ≡ checked t
        → IsCurrent before t
    revalidated-IsCurrent before none s t f r h =
        let same : drop_quote kill_switches get_product today get_consent s ≡ t = cc in
        rw (← same) (record {
          consent_fetched = f;
          options_sellable = rw r tt;
          quote_holds = dropped_holds s.quote;
        })
    revalidated-IsCurrent before (some os) s t f r h =
        with_stale-IsCurrent before os s t (stale kill_switches get_product today os) f refl h

    with_consent-IsCurrent :
        (old : Consent) (c : Checked Consent) (s t : Session Consent)
        → get_consent old ≡ c
        → with_consent kill_switches get_product today get_consent s c ≡ checked t
        → IsCurrent (some old) t
    with_consent-IsCurrent old raised s t e h = absurd (ground arith)
    with_consent-IsCurrent old (checked new) s t e h =
        revalidated-IsCurrent (some old) s.recommendation (record s { consent = some new }) t
          (new, (e, refl)) refl h

    resume_from-IsCurrent :
        (c : Option Consent) (s t : Session Consent)
        → s.consent ≡ c
        → resume_from kill_switches get_product today get_consent c s ≡ checked t
        → IsCurrent c t
    resume_from-IsCurrent none s t e h = revalidated-IsCurrent none s.recommendation s t e refl h
    resume_from-IsCurrent (some old) s t e h =
        with_consent-IsCurrent old (get_consent old) s t refl h

    -- A session that is resumed holds nothing out of date: its consent is the record as the Consent
    -- Service has it now, every option of its recommendation is of a product that is not stopped and
    -- is sold today, with a quote that still holds, and its indicative quote still holds.
    pub resume-IsCurrent :
        (s t : Session Consent)
        → resume kill_switches get_product today get_consent s ≡ checked t
        → IsCurrent s.consent t
    unfolding resume
    resume-IsCurrent s t h = resume_from-IsCurrent s.consent s t refl h
