-- ===== src/Apply/Matching.antt =====
-- graph/states/s3.py: the acknowledgments of a plan, and what was shown for it.
use suraksha_setu.Prelude.{
  String, ◌≡◌, refl, true, false, Option, none, some, List, [], ◌∷◌, ◌++◌, ◌str_eq◌, eq_iff,
  eq_refl, arith, Bool-cases, inl, inr,
}
use suraksha_setu.Prelude.Dict.{lookup}
use suraksha_setu.Apply.State.{
  Shown, DisclosureAck, Services, same_text, matches, acks_for, all_match, some_and_all,
}
use suraksha_setu.Apply.Node.{ack_of}

abbrev pub IsBound : DisclosureAck → Option Shown → Type 0
IsBound a none = Unit
IsBound a (some shown) = matches a shown ≡ true

-- Every acknowledgment that is held matches what was shown for its plan.
abbrev pub AcksBound : List DisclosureAck → List (String × Shown) → Type 0
AcksBound [] shown = Unit
AcksBound (a ∷ as') shown = IsBound a (lookup a.uin shown) × AcksBound as' shown

same_text_refl : (o : Option String) → same_text o o ≡ true
same_text_refl none = refl
same_text_refl (some t) = eq_refl t

pub ack_of-matches :
    (services : Services) (uin : String) (shown : Shown)
    → matches (ack_of services uin shown) shown ≡ true
ack_of-matches services uin shown =
    let version = eq_refl shown.registry_version in
    let sha = eq_refl shown.set_sha256 in
    let cis = same_text_refl shown.documents.cis in
    let bi = same_text_refl shown.documents.bi in
    let wording = same_text_refl shown.documents.policy_wording in
    rw (version, sha, cis, bi, wording) refl

pub all_match-bound :
    (uin : String) (acks : List DisclosureAck) (dict : List (String × Shown)) (shown : Shown)
    → lookup uin dict ≡ some shown
    → AcksBound acks dict
    → all_match (acks_for uin acks) shown ≡ true
unfolding acks_for
all_match-bound uin [] dict shown e h = refl
all_match-bound uin (a ∷ as') dict shown e (first, rest) =
    let others = all_match-bound uin as' dict shown e rest in
    elim (Bool-cases (a.uin str_eq uin)) [
      | inr k ↦ rw k others
      | inl k ↦
          let same : a.uin ≡ uin = (eq_iff a.uin uin).0 k in
          let at : lookup a.uin dict ≡ some shown = rw same e in
          let fits : matches a shown ≡ true = rw at at first in rw k (rw (fits, others) refl)
    ]

pub acks_for-last :
    (uin : String) (acks : List DisclosureAck) (a : DisclosureAck)
    → (a.uin str_eq uin) ≡ true
    → acks_for uin (acks ++ a ∷ []) ≡ acks_for uin acks ++ a ∷ []
unfolding acks_for
acks_for-last uin [] a e = rw e refl
acks_for-last uin (x ∷ xs) a e = elim (Bool-cases (x.uin str_eq uin)) [
  | inl k ↦ rw (k, acks_for-last uin xs a e) refl
  | inr k ↦ rw (k, acks_for-last uin xs a e) refl
]

all_match-last :
    (xs : List DisclosureAck) (a : DisclosureAck) (shown : Shown)
    → all_match xs shown ≡ true
    → matches a shown ≡ true
    → all_match (xs ++ a ∷ []) shown ≡ true
all_match-last [] a shown h m = rw m refl
all_match-last (x ∷ xs) a shown h m = elim (Bool-cases (matches x shown)) [
  | inl k ↦
      let rest : all_match xs shown ≡ true = rw k at h in rw k (all_match-last xs a shown rest m)
  | inr k ↦ let clash : false ≡ true = rw k at h in absurd (ground arith)
]

pub some_and_all-last :
    (xs : List DisclosureAck) (a : DisclosureAck) (shown : Shown)
    → all_match xs shown ≡ true
    → matches a shown ≡ true
    → some_and_all (xs ++ a ∷ []) (some shown) ≡ true
some_and_all-last [] a shown h m = rw m refl
some_and_all-last (x ∷ xs) a shown h m = all_match-last (x ∷ xs) a shown h m

pub AcksBound-last :
    (acks : List DisclosureAck) (a : DisclosureAck) (dict : List (String × Shown))
    → AcksBound acks dict
    → IsBound a (lookup a.uin dict)
    → AcksBound (acks ++ a ∷ []) dict
AcksBound-last [] a dict h b = (b, tt)
AcksBound-last (x ∷ xs) a dict h b = (h.0, AcksBound-last xs a dict h.1 b)
