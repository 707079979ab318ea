-- ===== src/Apply/Node.antt =====
-- graph/states/s3.py: the choice of a plan, its acknowledgment and its hand-off.
use suraksha_setu.Prelude.{
  ℕ, String, Bool, true, false, not, ◌&&◌, ◌||◌, Option, none, some, List, [], ◌∷◌, ◌++◌, ◌-◌, ◌==◌,
  ◌str_eq◌, if◌then◌else◌,
}
use suraksha_setu.Prelude.Dict.{lookup}
use suraksha_setu.Turn.Decide.{set_selected, acks_valid_for_selected}
use suraksha_setu.Apply.State.{
  Shown, DisclosureAck, PricedQuote, Selection, RecommendedOption, Recommendation, Intake, Turn,
  Choice, AckPayload, PriceRequest, PriceAnswer, priced, out_of_bounds, refused, Services, Outcome,
  replied, presented_again, raised, quote_valid, is_unmoved, check_ack, acks_for, acks_valid,
}

abbrev pub reply : List String → Turn → Turn
reply parts t = record t { parts = parts }

abbrev pub with_selection : Selection → Turn → Turn
with_selection sel t = record t { rec = record t.rec { selection = some sel } }

-- `_option`
unfoldable pub find_option : String → List RecommendedOption → Option RecommendedOption
find_option uin [] = none
find_option uin (o ∷ os) =
    let rest = find_option uin os in if o.uin str_eq uin then some o else rest

abbrev differs_number : Option ℕ → ℕ → Bool
differs_number none held = false
differs_number (some n) held = not (n == held)

abbrev differs_text : Option String → String → Bool
differs_text none held = false
differs_text (some t) held = not (t str_eq held)

abbrev same_texts : List String → List String → Bool
same_texts [] [] = true
same_texts (x ∷ xs) (y ∷ ys) = (x str_eq y) && same_texts xs ys
same_texts _ _ = false

abbrev differs_texts : Option (List String) → List String → Bool
differs_texts none held = false
differs_texts (some ts) held = not (same_texts ts held)

-- `_differs`, of any member that was chosen.
abbrev pub is_custom : Choice → PricedQuote → Bool
is_custom choice quote =
    differs_number choice.sum_assured_inr quote.sum_assured_inr
    || differs_number choice.term_years quote.term_years
    || differs_text choice.ppt quote.ppt
    || differs_texts choice.rider_uins quote.rider_uins

abbrev or_held {ℓ} : {A : Type ℓ} → Option A → A → A
or_held none held = held
or_held (some a) held = a

abbrev pub price_request : String → Choice → PricedQuote → PriceRequest
price_request uin choice quote = record {
  uin = uin;
  sum_assured_inr = or_held choice.sum_assured_inr quote.sum_assured_inr;
  term_years = or_held choice.term_years quote.term_years;
  ppt = or_held choice.ppt quote.ppt;
  rider_uins = or_held choice.rider_uins quote.rider_uins;
  frequency = quote.frequency;
}

abbrev as_quoted : Choice
as_quoted = record { sum_assured_inr = none; term_years = none; ppt = none; rider_uins = none }

-- `_gap`: what the cover is short of the recommended one.
abbrev pub gap : ℕ → ℕ → ℕ
gap recommended cover = recommended - cover

abbrev sole_option : List RecommendedOption → Option RecommendedOption
sole_option (o ∷ []) = some o
sole_option _ = none

abbrev pub chosen_option : Option String → List RecommendedOption → Option RecommendedOption
chosen_option none options = sole_option options
chosen_option (some uin) options = find_option uin options

module _ (services : Services) where
  abbrev pub intake_of : Selection → Recommendation → Intake
  intake_of sel rec = record {
    uin = sel.uin;
    quote = sel.quote;
    acks = acks_for sel.uin rec.acks;
    suitability_inputs_sha256 = rec.suitability_inputs_sha256;
  }

  -- The journey takes the intake, or it is kept for a retry and an advisor completes it.
  unfoldable pub deliver : Selection → Turn → Turn
  deliver sel t =
      let intake = intake_of sel t.rec in
      if services.post intake
      then record t {
        posted = t.posted ++ intake ∷ [];
        signals =
            t.signals
            ++ set_selected (record { uin = sel.uin; quote_valid = true })
              ∷ acks_valid_for_selected
              ∷ [];
        parts = "handoff_application" ∷ [];
      }
      else record t {
        pending = t.pending ++ intake ∷ [];
        parts = "journey_down" ∷ (if services.has_referral then "handoff_human" ∷ [] else []);
      }

  abbrev pub if_unmoved : Option (String × String) → Option Shown → Selection → Turn → Outcome
  if_unmoved (some registry) (some shown) sel t =
      if is_unmoved registry shown then replied (deliver sel t) else presented_again t
  if_unmoved _ _ sel t = raised t

  -- `_hand_off`: the registry is read once more before anything is sent.
  unfoldable pub hand_off : Selection → Turn → Outcome
  unfolding deliver
  hand_off sel t =
      if_unmoved (services.get_disclosure_set sel.uin) (lookup sel.uin t.rec.shown) sel t

  abbrev pub asked_with : Option Shown → Selection → Turn → Outcome
  asked_with none sel t = raised t
  asked_with (some shown) sel t =
      replied
        (record t { last_prompt_id = some sel.uin; parts = "selection_card" ∷ "ack_ask" ∷ [] })

  -- `_ask_ack`
  abbrev pub ask_ack : Selection → Turn → Outcome
  ask_ack sel t = asked_with (lookup sel.uin t.rec.shown) sel t

  -- With the plan chosen: the hand-off where it is acknowledged, and else the acknowledgment.
  unfoldable pub select : Selection → Turn → Outcome
  unfolding hand_off
  select sel t =
      let selected = with_selection sel t in
      if acks_valid selected.rec sel.uin then hand_off sel selected else ask_ack sel selected

  abbrev pub on_price : String → ℕ → Bool → PriceAnswer → Turn → Outcome
  on_price uin short custom (priced quote) t =
      select
        (record { uin = uin; quote = quote; protection_gap_inr = short; customer_choice = custom })
        t
  on_price uin short custom (out_of_bounds part) t = replied (reply (part ∷ []) t)
  on_price uin short custom refused t = raised t

  abbrev pub apply_quoted : RecommendedOption → Choice → Option PricedQuote → Turn → Outcome
  apply_quoted option choice none t = replied (reply ("apply_needs_premium" ∷ []) t)
  apply_quoted option choice (some quote) t =
      let custom = is_custom choice quote in
      if custom || not (quote_valid quote services.today)
      then on_price option.uin
          (gap t.recommended_cover_inr (or_held choice.sum_assured_inr quote.sum_assured_inr))
          custom (services.create_quote (price_request option.uin choice quote)) t
      else select
          (record {
            uin = option.uin;
            quote = quote;
            protection_gap_inr = option.protection_gap_inr;
            customer_choice = custom;
          })
          t

  abbrev pub apply_option : Option RecommendedOption → Choice → Turn → Outcome
  apply_option none choice t = replied (reply ("choose_option" ∷ []) t)
  apply_option (some option) choice t = apply_quoted option choice option.quote t

  -- `_apply`
  unfoldable pub apply : Option String → Choice → Turn → Outcome
  unfolding select find_option
  apply uin choice t = apply_option (chosen_option uin t.rec.options) choice t

  abbrev pub ack_of : String → Shown → DisclosureAck
  ack_of uin shown = record {
    uin = uin;
    registry_version = shown.registry_version;
    disclosure_set_sha256 = shown.set_sha256;
    document_sha256 = shown.documents;
  }

  abbrev pub recorded_ack : DisclosureAck → Turn → Turn
  recorded_ack ack t = record t {
    ack_rows = t.ack_rows ++ ack ∷ [];
    rec = record t.rec { acks = t.rec.acks ++ ack ∷ [] };
  }

  -- A new price is shown before anything is sent.
  abbrev pub on_requote : Selection → PriceAnswer → Turn → Outcome
  on_requote sel (priced fresh) t = replied (
      reply ("requote_note" ∷ "selection_card" ∷ [])
        (with_selection (record sel { quote = fresh }) t))
  on_requote sel (out_of_bounds part) t = raised t
  on_requote sel refused t = raised t

  abbrev pub after_ack : String → Option Selection → Turn → Outcome
  after_ack uin none t = replied (reply ("ack_recorded" ∷ []) t)
  after_ack uin (some sel) t =
      if not (sel.uin str_eq uin)
      then replied (reply ("ack_recorded" ∷ []) t)
      else if quote_valid sel.quote services.today
      then hand_off sel t
      else on_requote sel (services.create_quote (price_request sel.uin as_quoted sel.quote)) t

  abbrev pub is_none_of : List String → Bool
  is_none_of [] = true
  is_none_of (x ∷ xs) = false

  abbrev pub take_ack : AckPayload → Shown → Option (String × String) → Turn → Outcome
  take_ack payload shown none t = raised t
  take_ack payload shown (some registry) t =
      if is_none_of (check_ack payload shown registry)
      then after_ack payload.uin t.rec.selection (recorded_ack (ack_of payload.uin shown) t)
      else presented_again t

  abbrev pub for_shown : AckPayload → Option Shown → Turn → Outcome
  for_shown payload none t = replied (reply ("s3_choices" ∷ []) t)
  for_shown payload (some shown) t =
      if t.rec.is_recorded
      then take_ack payload shown (services.get_disclosure_set payload.uin) t
      else replied (reply ("s3_choices" ∷ []) t)

  -- `_ack`
  unfoldable pub acknowledge : AckPayload → Turn → Outcome
  unfolding check_ack hand_off
  acknowledge payload t = for_shown payload (lookup payload.uin t.rec.shown) t

-- The two structured actions of S3 that can lead to the hand-off.
pub data Action : Type 0 where
  apply_plan : Option String → Choice → Action
  disclosure_ack : AckPayload → Action

unfoldable pub respond_to : Services → Action → Turn → Outcome
unfolding apply acknowledge
respond_to services (apply_plan uin choice) = apply services uin choice
respond_to services (disclosure_ack payload) = acknowledge services payload
