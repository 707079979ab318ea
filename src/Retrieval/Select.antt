-- ===== src/Retrieval/Select.antt =====
-- retrieval/gate.py: select. The chunks of the selection have distinct ids, as a dictionary's values
-- under them do, so that leaving out a chunk leaves out one entry.
use suraksha_setu.Prelude.{
  ℕ, zero, suc, String, Bool, true, false, Option, none, some, List, [], ◌∷◌, ltb, leb, ◌==◌,
  if◌then◌else◌, length, take,
}
use Prim.Native.String.{compare}
use text.Mathlib.Text.{is_le}
use suraksha_setu.Prelude.Dict.{lookup, insert}
use suraksha_setu.Fsm.Facts.{is_some}
use suraksha_setu.Retrieval.Routing.{Collection}
use suraksha_setu.Retrieval.Gate.{Scored, same_collection, tokens, count_domain}

-- The order of `rank_key`: the higher score first, no score last, then the chunk id.
abbrev by_score : Option ℕ → Option ℕ → Bool → Bool
by_score none none by_id = by_id
by_score none (some b) by_id = false
by_score (some a) none by_id = true
by_score (some a) (some b) by_id = if a == b then by_id else ltb b a

abbrev pub rank_le : Scored → Scored → Bool
rank_le a b = by_score a.score b.score (is_le (compare a.payload.chunk_id b.payload.chunk_id))

unfoldable pub insert_ranked : Scored → List Scored → List Scored
insert_ranked s [] = s ∷ []
insert_ranked s (t ∷ ts) =
    let later = insert_ranked s ts in if rank_le s t then s ∷ t ∷ ts else t ∷ later

-- `sorted(items, key=rank_key)`, which is stable.
unfoldable pub sorted : List Scored → List Scored
unfolding insert_ranked
sorted [] = []
sorted (s ∷ ss) = insert_ranked s (sorted ss)

unfoldable pub of_domain : Collection → List Scored → List Scored
of_domain domain [] = []
of_domain domain (s ∷ ss) =
    let rest = of_domain domain ss in
    if same_collection s.payload.domain domain then s ∷ rest else rest

abbrev pub Chosen : Type 0
Chosen = List (String × Scored)

abbrev pub choose : List Scored → Chosen → Chosen
choose [] chosen = chosen
choose (s ∷ ss) chosen = choose ss (insert s.payload.chunk_id s chosen)

unfoldable pub by_quota : List Scored → List (Collection × ℕ) → Chosen → Chosen
unfolding of_domain
by_quota ranked [] chosen = chosen
by_quota ranked ((domain, n) ∷ quotas) chosen =
    by_quota ranked quotas (choose (take n (of_domain domain ranked)) chosen)

abbrev set_default : Scored → Chosen → Chosen
set_default s chosen =
    if is_some (lookup s.payload.chunk_id chosen)
    then chosen
    else insert s.payload.chunk_id s chosen

unfoldable pub fill_up : ℕ → List Scored → Chosen → Chosen
fill_up keep [] chosen = chosen
fill_up keep (s ∷ ss) chosen =
    let more = fill_up keep ss (set_default s chosen) in
    if leb keep (length chosen) then chosen else more

abbrev pub values : Chosen → List Scored
values [] = []
values ((id, s) ∷ rest) = s ∷ values rest

unfoldable pub quota_of : Collection → List (Collection × ℕ) → ℕ
quota_of domain [] = 0
quota_of domain ((d, n) ∷ quotas) =
    let rest = quota_of domain quotas in if same_collection d domain then n else rest

-- `_above_quota`
abbrev pub above_quota : List (Collection × ℕ) → List Scored → Scored → Bool
above_quota quotas kept s =
    ltb (quota_of s.payload.domain quotas) (count_domain s.payload.domain kept)

abbrev pub or_here : Bool → Scored → List Scored → Option (List Scored) → Option (List Scored)
or_here here s ss (some rest) = some (s ∷ rest)
or_here true s ss none = some ss
or_here false s ss none = none

-- The chunks without the last that is above its quota among `kept`.
unfoldable pub without_spare :
    List (Collection × ℕ) → List Scored → List Scored → Option (List Scored)
without_spare quotas kept [] = none
without_spare quotas kept (s ∷ ss) =
    or_here (above_quota quotas kept s) s ss (without_spare quotas kept ss)

abbrev pub trim_with :
    ℕ → List Scored → (List Scored → List Scored) → Option (List Scored) → List Scored
trim_with budget kept again none = kept
trim_with budget kept again (some less) = if leb (tokens kept) budget then kept else again less

-- The loop, on fuel: each round leaves out a chunk.
unfoldable pub trim : ℕ → List (Collection × ℕ) → ℕ → List Scored → List Scored
unfolding without_spare
trim zero quotas budget kept = kept
trim (suc fuel) quotas budget kept =
    trim_with budget kept (trim fuel quotas budget) (without_spare quotas kept kept)

-- What is chosen before the budget is looked at.
abbrev pub picked : List Scored → List (Collection × ℕ) → ℕ → List Scored
picked items quotas keep =
    let ranked = sorted items in sorted (values (fill_up keep ranked (by_quota ranked quotas [])))

unfoldable pub select : List Scored → List (Collection × ℕ) → ℕ → ℕ → List Scored
unfolding trim sorted by_quota fill_up
select items quotas keep budget =
    let kept = picked items quotas keep in trim (length kept) quotas budget kept
