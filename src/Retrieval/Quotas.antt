-- ===== src/Retrieval/Quotas.antt =====
-- retrieval/gate.py: what the budget leaves of a selection.
use suraksha_setu.Prelude.{
  ℕ, zero, suc, ◌≡◌, ◌≤◌, ◌⊎◌, refl, ap, sym, ◌∙◌, Bool, true, false, Option, none, some, List, [],
  ◌∷◌, ◌+◌, ltb, leb, leb→le, if◌then◌else◌, length, arith, Bool-cases, inl, inr,
}
use suraksha_setu.Retrieval.Routing.{Collection}
use suraksha_setu.Retrieval.Gate.{Scored, same_collection, tokens, count_domain}
use suraksha_setu.Retrieval.Select.{
  quota_of, above_quota, or_here, without_spare, trim_with, trim, picked, select,
}

same_collection-eq : (a b : Collection) → same_collection a b ≡ true → a ≡ b
same_collection-eq Collection.regulatory b h = ground arith
same_collection-eq Collection.product b h = ground arith
same_collection-eq Collection.tax b h = ground arith

abbrev Less : List (Collection × ℕ) → List Scored → List Scored → List Scored → Type 0
Less quotas kept ss rest =
    (s : Scored) × ((above_quota quotas kept s ≡ true)
      × ((suc (length rest) ≡ length ss)
          × ((d : Collection)
              → count_domain d ss ≡ (
                  if same_collection s.payload.domain d
                  then 1 + count_domain d rest
                  else count_domain d rest))))

or_here-Less :
    (quotas : List (Collection × ℕ)) (kept : List Scored) (here : Bool) (s : Scored)
    (ss rest : List Scored) (o : Option (List Scored))
    → above_quota quotas kept s ≡ here
    → ((later : List Scored) → o ≡ some later → Less quotas kept ss later)
    → or_here here s ss o ≡ some rest
    → Less quotas kept (s ∷ ss) rest
unfolding count_domain
or_here-Less quotas kept here s ss rest (some later) a k h =
    let less = k later refl in
    let same : s ∷ later ≡ rest = cc in
    rw (← same) (less.0, (less.1.0, (ap suc less.1.1.0, λ d. let k = less.1.1.1 d in ground arith)))
or_here-Less quotas kept true s ss rest none a k h =
    let same : ss ≡ rest = cc in rw (← same) (s, (a, (refl, λ d. refl)))
or_here-Less quotas kept false s ss rest none a k h = absurd (ground arith)

without_spare-Less :
    (quotas : List (Collection × ℕ)) (kept ss rest : List Scored)
    → without_spare quotas kept ss ≡ some rest
    → Less quotas kept ss rest
unfolding without_spare
without_spare-Less quotas kept [] rest h = absurd (ground arith)
without_spare-Less quotas kept (s ∷ ss) rest h =
    or_here-Less quotas kept (above_quota quotas kept s) s ss rest (without_spare quotas kept ss)
      refl (λ later e. without_spare-Less quotas kept ss later e) h

-- A quota that the chunks meet is met without a spare one.
spare_keeps :
    (quotas : List (Collection × ℕ)) (kept rest : List Scored) (d : Collection) (n : ℕ)
    → Less quotas kept kept rest
    → n ≤ quota_of d quotas
    → n ≤ count_domain d kept
    → n ≤ count_domain d rest
spare_keeps quotas kept rest d n less q c =
    let counts = less.1.1.1 d in
    let above = less.1.0 in
    elim (Bool-cases (same_collection less.0.payload.domain d)) [
      | inl e ↦
          let same = same_collection-eq less.0.payload.domain d e in
          let above_d : ltb (quota_of d quotas) (count_domain d kept) ≡ true =
            (ap (λ x. ltb (quota_of x quotas) (count_domain x kept)) (sym same)) ∙ above in
          ground arith
      | inr e ↦ ground arith
    ]

trim_with-keeps :
    (quotas : List (Collection × ℕ)) (budget : ℕ) (kept : List Scored)
    (again : List Scored → List Scored) (o : Option (List Scored)) (d : Collection) (n : ℕ)
    → ((less : List Scored) → o ≡ some less → n ≤ count_domain d (again less))
    → n ≤ count_domain d kept
    → n ≤ count_domain d (trim_with budget kept again o)
trim_with-keeps quotas budget kept again none d n k c = c
trim_with-keeps quotas budget kept again (some less) d n k c =
    let later = k less refl in
    elim (Bool-cases (leb (tokens kept) budget)) [ inl b ↦ rw b c | inr b ↦ rw b later ]

trim-keeps :
    (fuel : ℕ) (quotas : List (Collection × ℕ)) (budget : ℕ) (kept : List Scored) (d : Collection)
    (n : ℕ)
    → n ≤ quota_of d quotas
    → n ≤ count_domain d kept
    → n ≤ count_domain d (trim fuel quotas budget kept)
unfolding trim
trim-keeps zero quotas budget kept d n q c = c
trim-keeps (suc fuel) quotas budget kept d n q c =
    trim_with-keeps quotas budget kept (trim fuel quotas budget) (without_spare quotas kept kept) d
      n
      (λ less e.
        trim-keeps fuel quotas budget less d n q
          (spare_keeps quotas kept less d n (without_spare-Less quotas kept kept less e) q c))
      c

-- At least as many chunks of a domain are selected as its quota asks for, as far as there are any
-- among those picked before the budget is looked at: the budget takes a domain below its quota never.
pub select_keeps_quotas :
    (items : List Scored) (quotas : List (Collection × ℕ)) (keep budget : ℕ) (d : Collection)
    (n : ℕ)
    → n ≤ quota_of d quotas
    → n ≤ count_domain d (picked items quotas keep)
    → n ≤ count_domain d (select items quotas keep budget)
unfolding select
select_keeps_quotas items quotas keep budget d n q c =
    trim-keeps (length (picked items quotas keep)) quotas budget (picked items quotas keep) d n q c

-- Within the budget, or with no chunk above its quota.
abbrev pub Fits : List (Collection × ℕ) → ℕ → List Scored → Type 0
Fits quotas budget kept = (tokens kept ≤ budget) ⊎ (without_spare quotas kept kept ≡ none)

trim_with-Fits :
    (quotas : List (Collection × ℕ)) (budget : ℕ) (kept : List Scored)
    (again : List Scored → List Scored) (o : Option (List Scored))
    → without_spare quotas kept kept ≡ o
    → ((less : List Scored) → o ≡ some less → Fits quotas budget (again less))
    → Fits quotas budget (trim_with budget kept again o)
trim_with-Fits quotas budget kept again none e k = inr e
trim_with-Fits quotas budget kept again (some less) e k =
    let later = k less refl in
    elim (Bool-cases (leb (tokens kept) budget)) [
      | inl b ↦ rw b (inl (leb→le (tokens kept) budget b))
      | inr b ↦ rw b later
    ]

trim-Fits :
    (fuel : ℕ) (quotas : List (Collection × ℕ)) (budget : ℕ) (kept : List Scored)
    → length kept ≤ fuel
    → Fits quotas budget (trim fuel quotas budget kept)
unfolding trim
trim-Fits zero quotas budget [] l = inl (omega arith)
trim-Fits zero quotas budget (s ∷ ss) l = absurd (omega arith)
trim-Fits (suc fuel) quotas budget kept l =
    trim_with-Fits quotas budget kept (trim fuel quotas budget) (without_spare quotas kept kept)
      refl
      (λ less e.
        trim-Fits fuel quotas budget less
          (let shorter = (without_spare-Less quotas kept kept less e).1.1.0 in omega arith))

-- The loop ends with the selection inside the token budget, or with no chunk left that its domain's
-- quota can spare; as many rounds as there are chunks are enough.
pub select-Fits :
    (items : List Scored) (quotas : List (Collection × ℕ)) (keep budget : ℕ)
    → Fits quotas budget (select items quotas keep budget)
unfolding select
select-Fits items quotas keep budget =
    trim-Fits (length (picked items quotas keep)) quotas budget (picked items quotas keep)
      (omega arith)
