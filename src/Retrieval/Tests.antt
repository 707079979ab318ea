-- ===== src/Retrieval/Tests.antt =====
-- A small routing table, and the theorems at inputs that meet their hypotheses.
use suraksha_setu.Prelude.{ℕ, List, ◌≤◌, arith, ◌≡◌, refl, none, some, false, [], ◌∷◌}
use suraksha_setu.Retrieval.Routing.{
  Collection, regulatory, product, tax, Rule, RoutingTable, RouteDecision, route, has_product,
  anything, first_rule, topics_of, decision, without_product, matches, product_gated,
}
use suraksha_setu.Retrieval.Gate.{KbPayload, Scored, count_domain, parent_of, parent_from}
use suraksha_setu.Retrieval.Select.{
  select, quota_of, sorted, insert_ranked, fill_up, by_quota, of_domain,
}
use suraksha_setu.Retrieval.Quotas.{select_keeps_quotas}
use suraksha_setu.Prelude.Dict.{lookup, insert}

abbrev section_three : KbPayload
section_three = record {
  chunk_id = "c3";
  doc_id = "act";
  snapshot_id = "s1";
  section_path = "act" ∷ "3" ∷ [];
  domain = regulatory;
  token_count = 40;
}

abbrev clause_two : KbPayload
clause_two = record section_three {
  chunk_id = "c32";
  section_path = "act" ∷ "3" ∷ "2" ∷ [];
  token_count = 25;
}

abbrev kept : List Scored
kept = record { payload = clause_two; score = some 9; is_parent = false } ∷ []

finds_parent : parent_of clause_two (clause_two ∷ section_three ∷ []) ≡ some section_three
unfolding parent_of parent_from
finds_parent = refl

abbrev plans : Rule
plans = record {
  id = "plans";
  when = record anything { topics = "plan" ∷ [] };
  collections = product ∷ regulatory ∷ [];
  quotas = [];
}

abbrev otherwise : Rule
otherwise = record {
  id = "otherwise";
  when = anything;
  collections = regulatory ∷ tax ∷ [];
  quotas = [];
}

abbrev table : RoutingTable
table = record {
  product_states = "S3" ∷ [];
  topics = ("plan", "plan" ∷ "policy" ∷ []) ∷ [];
  rules = plans ∷ otherwise ∷ [];
}

abbrev gated : RouteDecision
gated = record {
  rule_id = "plans";
  collections = regulatory ∷ [];
  quotas = [];
  abstain_reason = none;
}

routes_gated : route table "S1" [] [] ("which" ∷ "policy" ∷ []) false ≡ some gated
unfolding route topics_of first_rule decision without_product matches
routes_gated = refl

product_gated_example : has_product gated.collections ≡ false
product_gated_example =
    product_gated table "S1" [] [] ("which" ∷ "policy" ∷ []) gated refl routes_gated

abbrev two_chunks : List Scored
two_chunks =
    record { payload = section_three; score = some 4; is_parent = false }
    ∷ record { payload = clause_two; score = some 9; is_parent = false }
    ∷ []

abbrev one_regulatory : List (Collection × ℕ)
one_regulatory = (regulatory, 1) ∷ []

-- The better chunk stays, the other is left out: its domain's quota can spare it.
select_keeps_quotas_example : 1 ≤ count_domain regulatory (select two_chunks one_regulatory 2 30)
unfolding quota_of count_domain sorted insert_ranked fill_up by_quota of_domain lookup insert
select_keeps_quotas_example =
    select_keeps_quotas two_chunks one_regulatory 2 30 regulatory 1 (omega arith) (omega arith)
