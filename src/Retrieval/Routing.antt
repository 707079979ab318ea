-- ===== src/Retrieval/Routing.antt =====
-- retrieval/routing.py: route. A set is a list; the topics of the table are the pairs of its dict, in
-- their order, with the analyzer tokens that the table was loaded with.
use suraksha_setu.Prelude.{
  ℕ, String, ◌≡◌, refl, Bool, true, false, not, ◌&&◌, ◌||◌, Option, none, some, List, [], ◌∷◌, ◌++◌,
  ◌str_eq◌, if◌then◌else◌, arith, inl, inr, Bool-cases, Option-cases,
}
use suraksha_setu.Turn.State.{Intent}
use suraksha_setu.Turn.Facts.{has}

pub data Collection : Type 0 where
  regulatory product tax : Collection

abbrev pub is_product : Collection → Bool
is_product product = true
is_product _ = false

pub record When : Type 0 where
  pub fsm_state : List String
  pub intents : List Intent
  pub topics : List String

pub record Rule : Type 0 where
  pub id : String
  pub when : When
  pub collections : List Collection
  pub quotas : List (Collection × ℕ)

pub record RoutingTable : Type 0 where
  pub product_states : List String
  pub topics : List (String × List String)
  pub rules : List Rule

pub data AbstainReason : Type 0 where
  i3_product_gated not_routed : AbstainReason

pub record RouteDecision : Type 0 where
  pub rule_id : String
  pub collections : List Collection
  pub quotas : List (Collection × ℕ)
  pub abstain_reason : Option AbstainReason

abbrev pub in_words : String → List String → Bool
in_words w [] = false
in_words w (v ∷ vs) = w str_eq v || in_words w vs

-- `bool(a & b)`
abbrev pub meets_words : List String → List String → Bool
meets_words [] ws = false
meets_words (v ∷ vs) ws = in_words v ws || meets_words vs ws

abbrev pub meets_intents : List Intent → List Intent → Bool
meets_intents [] is = false
meets_intents (i ∷ rest) is = has i is || meets_intents rest is

abbrev pub is_empty {ℓ} : {A : Type ℓ} → List A → Bool
is_empty [] = true
is_empty (x ∷ xs) = false

unfoldable pub matches : When → String → List Intent → List String → Bool
matches when state intents topics =
    (is_empty when.fsm_state || in_words state when.fsm_state)
    && (is_empty when.intents || meets_intents intents when.intents)
    && (is_empty when.topics || meets_words topics when.topics)

-- `{topic for topic, keys in table.topics.items() if keys & words}`
unfoldable pub topics_of : List (String × List String) → List String → List String
topics_of [] words = []
topics_of ((topic, keys) ∷ rest) words =
    let others = topics_of rest words in if meets_words keys words then topic ∷ others else others

-- `next(r for r in table.rules if ...)`; `none` is the StopIteration of a table without a match.
unfoldable pub first_rule : List Rule → String → List Intent → List String → Option Rule
unfolding matches
first_rule [] state intents topics = none
first_rule (r ∷ rs) state intents topics =
    let rest = first_rule rs state intents topics in
    if matches r.when state intents topics then some r else rest

abbrev pub has_product : List Collection → Bool
has_product [] = false
has_product (c ∷ cs) = is_product c || has_product cs

abbrev pub has_product_quota : List (Collection × ℕ) → Bool
has_product_quota [] = false
has_product_quota ((c, n) ∷ qs) = is_product c || has_product_quota qs

-- `tuple(c for c in collections if c != "product")`
unfoldable pub without_product : List Collection → List Collection
without_product [] = []
without_product (c ∷ cs) = let rest = without_product cs in if is_product c then rest else c ∷ rest

unfoldable pub decision : List String → String → Bool → Rule → RouteDecision
unfolding without_product
decision product_states state product_in_focus rule =
    let reason = if is_empty rule.collections then some not_routed else none in
    let kept = without_product rule.collections in
    if has_product rule.collections && not (in_words state product_states) && not product_in_focus
    then record {
      rule_id = rule.id;
      collections = kept;
      quotas = rule.quotas;
      abstain_reason =
          if is_empty kept || has_product_quota rule.quotas then some i3_product_gated else reason;
    }
    else record {
      rule_id = rule.id;
      collections = rule.collections;
      quotas = rule.quotas;
      abstain_reason = reason;
    }

abbrev pub map_rule : List String → String → Bool → Option Rule → Option RouteDecision
map_rule states state focus none = none
map_rule states state focus (some rule) = some (decision states state focus rule)

unfoldable pub route :
    RoutingTable → String → List Intent → List String → List String → Bool → Option RouteDecision
unfolding topics_of first_rule decision
route table state intents entities tokens product_in_focus =
    map_rule table.product_states state product_in_focus
      (first_rule table.rules state intents (topics_of table.topics tokens ++ entities))

without_product-has : (cs : List Collection) → has_product (without_product cs) ≡ false
unfolding without_product
without_product-has [] = refl
without_product-has (c ∷ cs) = ground (arith, without_product-has cs)

abbrev pub can_search : RouteDecision → Bool
can_search d = elim d.abstain_reason [ none ↦ true | some reason ↦ false ]

-- I3: in a state that is not one of the product states, with no product in focus, a decision never
-- names the product collection.
pub product_gated :
    (table : RoutingTable) (state : String) (intents : List Intent) (entities tokens : List String)
    (d : RouteDecision)
    → in_words state table.product_states ≡ false
    → route table state intents entities tokens false ≡ some d
    → has_product d.collections ≡ false
unfolding route decision
product_gated table state intents entities tokens d h e =
    elim (Option-cases
      (first_rule table.rules state intents (topics_of table.topics tokens ++ entities))) [
        | inl n ↦ ground arith
        | inr (r, found) ↦ let gone = without_product-has r.collections in ground arith
      ]

-- `When()`
abbrev pub anything : When
anything = record { fsm_state = []; intents = []; topics = [] }

first_rule-total :
    (rs : List Rule) (last : Rule) (state : String) (intents : List Intent) (topics : List String)
    → last.when ≡ anything
    → (r : Rule) × (first_rule (rs ++ last ∷ []) state intents topics ≡ some r)
unfolding first_rule
first_rule-total [] last state intents topics h = (last, rw h refl)
first_rule-total (x ∷ rs) last state intents topics h =
    let (r, e) = first_rule-total rs last state intents topics h in
    elim (Bool-cases (matches x.when state intents topics)) [
      | inl m ↦ (x, ground arith)
      | inr m ↦ (r, ground arith)
    ]

-- A table whose last rule matches everything, as its validator demands, decides every question.
pub route_decides :
    (table : RoutingTable) (rs : List Rule) (last : Rule) (state : String) (intents : List Intent)
    (entities tokens : List String) (product_in_focus : Bool)
    → table.rules ≡ rs ++ last ∷ []
    → last.when ≡ anything
    → (d : RouteDecision) × (route table state intents entities tokens product_in_focus ≡ some d)
unfolding route
route_decides table rs last state intents entities tokens focus split h =
    let (r, e) =
      first_rule-total rs last state intents (topics_of table.topics tokens ++ entities) h in
    (decision table.product_states state focus r, rw (split, e) refl)

-- A decision that may be searched names a collection: an empty one always carries the reason for
-- which the question is not searched.
pub searched_somewhere :
    (table : RoutingTable) (state : String) (intents : List Intent) (entities tokens : List String)
    (product_in_focus : Bool) (d : RouteDecision)
    → route table state intents entities tokens product_in_focus ≡ some d
    → can_search d ≡ true
    → is_empty d.collections ≡ false
unfolding route decision
searched_somewhere table state intents entities tokens focus d e h =
    elim (Option-cases
      (first_rule table.rules state intents (topics_of table.topics tokens ++ entities))) [
        | inl n ↦ ground arith
        | inr (r, found) ↦ ground arith
      ]
