-- ===== src/Crypto/Due.antt =====
-- crypto/keys.py: what `destroy_due` does to each key.
use suraksha_setu.Prelude.{ℕ, String, ◌≡◌, true, false, none, some, List, [], ◌∷◌, arith, eq_iff}
use suraksha_setu.Prelude.Dict.{lookup}
use suraksha_setu.Crypto.Envelope.{Octets}
use suraksha_setu.Crypto.Keys.{
  system_key, SubjectKey, KeyService, is_due, shred_due, pop_due, destroy_due,
}
use suraksha_setu.Crypto.Shredding.{is_shredded, Shredded, lookup-pop_self, lookup-pop-none}

lookup-kept :
    (now : ℕ) (k : String) (m : List (String × SubjectKey)) (row : SubjectKey)
    → lookup k m ≡ some row
    → is_due now k row ≡ false
    → lookup k (shred_due now m) ≡ some row
unfolding lookup shred_due
lookup-kept now k [] row e h = cc
lookup-kept now k ((j, first) ∷ m) row e h = ground (arith, eq_iff j k, lookup-kept now k m row)

lookup-shredded :
    (now : ℕ) (k : String) (m : List (String × SubjectKey)) (row : SubjectKey)
    → lookup k m ≡ some row
    → is_due now k row ≡ true
    → is_shredded (lookup k (shred_due now m)) ≡ true
unfolding lookup shred_due
lookup-shredded now k [] row e h = cc
lookup-shredded now k ((j, first) ∷ m) row e h =
    ground (arith, eq_iff j k, lookup-shredded now k m row)

lookup-popped :
    (now : ℕ) (k : String) (m : List (String × SubjectKey)) (cache : List (String × (Octets × ℕ)))
    (row : SubjectKey)
    → lookup k m ≡ some row
    → is_due now k row ≡ true
    → lookup k (pop_due now m cache) ≡ none
unfolding lookup pop_due
lookup-popped now k [] cache row e h = cc
lookup-popped now k ((j, first) ∷ m) cache row e h =
    let gone = lookup-pop_self k (pop_due now m cache) in
    let other = lookup-pop-none k j (pop_due now m cache) in
    ground (arith, eq_iff j k, lookup-popped now k m cache row)

-- `destroy_due` shreds every row that is due, changes no other row, and never the system key's.
pub lookup-destroy_due :
    (now : ℕ) (k : String) (s : KeyService) (row : SubjectKey)
    → lookup k s.subject_key ≡ some row
    → (is_due now k row ≡ true → Shredded k (destroy_due now s))
      × (is_due now k row ≡ false → lookup k (destroy_due now s).subject_key ≡ some row)
      × (k ≡ system_key → lookup k (destroy_due now s).subject_key ≡ some row)
unfolding destroy_due
lookup-destroy_due now k s row e = (
  λ due. (
    lookup-shredded now k s.subject_key row e due,
    lookup-popped now k s.subject_key s.cache row e due,
  ),
  λ kept. lookup-kept now k s.subject_key row e kept,
  λ system. lookup-kept now k s.subject_key row e (ground (arith, eq_iff k system_key)),
)
