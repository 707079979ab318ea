-- ===== src/Retrieval/Gate.antt =====
-- retrieval/gate.py: parent_of, add_parents and insufficient. A chunk carries its token count, which
-- the chunker's `count_tokens` has of its text; a score is a number of 0 or more in a fixed unit.
use suraksha_setu.Prelude.{
  ℕ, String, ◌≡◌, ◌≤◌, Bool, true, false, not, ◌&&◌, Option, none, some, List, [], ◌∷◌, ◌++◌, ◌+◌,
  ltb, leb, leb→le, ◌==◌, ◌str_eq◌, if◌then◌else◌, length, take, arith, Option-cases, inl, inr,
}
use suraksha_setu.Retrieval.Routing.{Collection, in_words, is_empty}

pub record KbPayload : Type 0 where
  pub chunk_id : String
  pub doc_id : String
  pub snapshot_id : String
  pub section_path : List String
  pub domain : Collection
  pub token_count : ℕ

pub record Scored : Type 0 where
  pub payload : KbPayload
  pub score : Option ℕ
  pub is_parent : Bool

pub data Insufficient : Type 0 where
  no_sufficient_evidence quota_unmet : Insufficient

abbrev collection_number : Collection → ℕ
collection_number Collection.regulatory = 0
collection_number Collection.product = 1
collection_number Collection.tax = 2

abbrev pub same_collection : Collection → Collection → Bool
same_collection a b = collection_number a == collection_number b

abbrev same_path : List String → List String → Bool
same_path [] [] = true
same_path [] (y ∷ ys) = false
same_path (x ∷ xs) [] = false
same_path (x ∷ xs) (y ∷ ys) = x str_eq y && same_path xs ys

abbrev pub tokens : List Scored → ℕ
tokens [] = 0
tokens (s ∷ ss) = s.payload.token_count + tokens ss

-- `best is None or depth > len(best.section_path)`
abbrev deeper : KbPayload → Option KbPayload → Bool
deeper other none = true
deeper other (some best) = ltb (length best.section_path) (length other.section_path)

-- The conditions of `parent_of` on one other chunk, `best` aside.
abbrev pub is_ancestor : KbPayload → KbPayload → Bool
is_ancestor child other =
    other.doc_id str_eq child.doc_id
    && (other.snapshot_id str_eq child.snapshot_id
        && (ltb (length other.section_path) (length child.section_path)
            && same_path (take (length other.section_path) child.section_path) other.section_path))

unfoldable pub parent_from : KbPayload → Option KbPayload → List KbPayload → Option KbPayload
parent_from child best [] = best
parent_from child best (other ∷ others) =
    parent_from child (if is_ancestor child other && deeper other best then some other else best)
      others

unfoldable pub parent_of : KbPayload → List KbPayload → Option KbPayload
unfolding parent_from
parent_of child documents = parent_from child none documents

-- The loop of `add_parents`, from the evidence and the present chunk ids.
unfoldable pub add_from :
    List KbPayload → (String → Option ℕ) → ℕ → List Scored → List String → List Scored → List Scored
unfolding parent_of
add_from documents scores budget evidence present [] = evidence
add_from documents scores budget evidence present (item ∷ items) =
    elim (parent_of item.payload documents) [
      | none ↦ add_from documents scores budget evidence present items
      | some parent ↦
          let candidate : Scored = record {
            payload = parent;
            score = scores parent.chunk_id;
            is_parent = true;
          } in
          let skipped = add_from documents scores budget evidence present items in
          let added =
            add_from documents scores budget (evidence ++ candidate ∷ [])
              (parent.chunk_id ∷ present) items in
          if in_words parent.chunk_id present
          then skipped
          else if leb (tokens (evidence ++ candidate ∷ [])) budget
          then added
          else skipped
    ]

abbrev chunk_ids : List Scored → List String
chunk_ids [] = []
chunk_ids (s ∷ ss) = s.payload.chunk_id ∷ chunk_ids ss

unfoldable pub add_parents : List Scored → List KbPayload → (String → Option ℕ) → ℕ → List Scored
unfolding add_from
add_parents kept documents scores budget =
    add_from documents scores budget kept (chunk_ids kept) kept

abbrev pub passes : (KbPayload → ℕ) → Scored → Bool
passes threshold s = elim s.score [
  | none ↦ false
  | some x ↦ not s.is_parent && leb (threshold s.payload) x
]

unfoldable pub passing : (KbPayload → ℕ) → List Scored → List Scored
passing threshold [] = []
passing threshold (s ∷ ss) =
    let rest = passing threshold ss in if passes threshold s then s ∷ rest else rest

unfoldable pub count_domain : Collection → List Scored → ℕ
count_domain domain [] = 0
count_domain domain (s ∷ ss) =
    let rest = count_domain domain ss in
    if same_collection s.payload.domain domain then 1 + rest else rest

unfoldable pub quota_met : List Scored → List (Collection × ℕ) → Bool
unfolding count_domain
quota_met ss [] = true
quota_met ss ((domain, n) ∷ qs) =
    let rest = quota_met ss qs in if ltb (count_domain domain ss) n then false else rest

unfoldable pub insufficient :
    List Scored → List (Collection × ℕ) → (KbPayload → ℕ) → Option Insufficient
unfolding passing quota_met
insufficient kept quotas threshold =
    if is_empty (passing threshold kept)
    then some no_sufficient_evidence
    else if quota_met (passing threshold kept) quotas
    then none
    else some quota_unmet

add_from-budget :
    (documents : List KbPayload) (scores : String → Option ℕ) (budget : ℕ) (evidence : List Scored)
    (present : List String) (items : List Scored)
    → tokens evidence ≤ budget
    → tokens (add_from documents scores budget evidence present items) ≤ budget
unfolding add_from
add_from-budget documents scores budget evidence present [] h = h
add_from-budget documents scores budget evidence present (item ∷ items) h =
    let skipped = add_from-budget documents scores budget evidence present items h in
    elim (Option-cases (parent_of item.payload documents)) [
      | inl e ↦ ground arith
      | inr (parent, e) ↦
          let candidate : Scored = record {
            payload = parent;
            score = scores parent.chunk_id;
            is_parent = true;
          } in
          let added =
            add_from-budget documents scores budget (evidence ++ candidate ∷ [])
              (parent.chunk_id ∷ present) items in
          ground (arith, leb→le (tokens (evidence ++ candidate ∷ [])) budget)
    ]

-- The evidence with its parents stays in the token budget that the kept chunks meet.
pub add_parents-budget :
    (kept : List Scored) (documents : List KbPayload) (scores : String → Option ℕ) (budget : ℕ)
    → tokens kept ≤ budget
    → tokens (add_parents kept documents scores budget) ≤ budget
unfolding add_parents
add_parents-budget kept documents scores budget h =
    add_from-budget documents scores budget kept (chunk_ids kept) kept h

parent_from-is_ancestor :
    (documents : List KbPayload) (child : KbPayload) (best : Option KbPayload) (p : KbPayload)
    → ((b : KbPayload) → best ≡ some b → is_ancestor child b ≡ true)
    → parent_from child best documents ≡ some p
    → is_ancestor child p ≡ true
unfolding parent_from
parent_from-is_ancestor [] child best p h e = h p e
parent_from-is_ancestor (other ∷ others) child best p h e =
    parent_from-is_ancestor others child _ p (λ b k. let from_best = h b in ground arith) e

-- A chunk that is found as a parent is of the child's own document and snapshot, and its section
-- path is a proper prefix of the child's.
pub parent_of-is_ancestor :
    (child : KbPayload) (documents : List KbPayload) (p : KbPayload)
    → parent_of child documents ≡ some p
    → is_ancestor child p ≡ true
unfolding parent_of
parent_of-is_ancestor child documents p e =
    parent_from-is_ancestor documents child none p (λ b k. cc) e
