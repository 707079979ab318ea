-- ===== src/Needs/Payload.antt =====
-- graph/states/s2.py: the needs payload depends only on the values of the needs slots.
use suraksha_setu.Prelude.{
  ℕ, String, ◌≡◌, refl, true, false, Option, none, some, List, [], ◌∷◌, ◌str_eq◌, eq_iff, eq_refl,
  Bool-cases, inl, inr, arith,
}
use suraksha_setu.Prelude.Dict.{lookup, insert, lookup-insert}
use suraksha_setu.Prelude.Texts.{in_texts}
use suraksha_setu.Screening.State.{Value, SlotStatus, confirmed}
use suraksha_setu.Screening.Take.{Known}
use suraksha_setu.Needs.Setup.{
  needs_names, distress_slot, sent_slots, is_set, sent_value, slots_of, payload,
}

abbrev pub held_value : Option (SlotStatus × Value) → Option Value
held_value none = none
held_value (some (status, value)) = some value

sent_value-cong :
    (slot : String) (o p : Option (SlotStatus × Value))
    → held_value o ≡ held_value p
    → sent_value slot o ≡ sent_value slot p
sent_value-cong slot none none h = refl
sent_value-cong slot (some (s, v)) (some (t, w)) h = let same : v ≡ w = cc in rw same refl
sent_value-cong slot none (some p) h = absurd (ground arith)
sent_value-cong slot (some p) none h = absurd (ground arith)

is_set-cong :
    (o p : Option (SlotStatus × Value)) → held_value o ≡ held_value p → is_set o ≡ is_set p
is_set-cong none none h = refl
is_set-cong (some (s, v)) (some (t, w)) h = let same : v ≡ w = cc in rw same refl
is_set-cong none (some p) h = absurd (ground arith)
is_set-cong (some p) none h = absurd (ground arith)

-- The two dictionaries hold the same values at these slots.
abbrev pub Agrees : List String → Known → Known → Type 0
Agrees slots a b =
    (slot : String)
    → in_texts slot slots ≡ true
    → held_value (lookup slot a) ≡ held_value (lookup slot b)

slots_of-cong :
    (slots : List String) (a b : Known) → Agrees slots a b → slots_of slots a ≡ slots_of slots b
unfolding slots_of
slots_of-cong [] a b h = refl
slots_of-cong (slot ∷ slots) a b h =
    let first =
      sent_value-cong slot (lookup slot a) (lookup slot b)
        (h slot (let self = eq_refl slot in ground arith)) in
    let rest = slots_of-cong slots a b (λ other k. h other (ground arith)) in rw (first, rest) refl

pub payload-cong :
    (a b : Known) (count : ℕ) → Agrees sent_slots a b → payload a count ≡ payload b count
unfolding payload
payload-cong a b count h =
    let slots = slots_of-cong needs_names a b (λ slot k. h slot (ground arith)) in
    let distress =
      is_set-cong (lookup distress_slot a) (lookup distress_slot b) (h distress_slot refl) in
    rw (slots, distress) refl

-- A write elsewhere.
pub Agrees-insert_other :
    (slots : List String) (known : Known) (slot : String) (entry : SlotStatus × Value)
    → in_texts slot slots ≡ false
    → Agrees slots (insert slot entry known) known
Agrees-insert_other slots known slot entry h other k =
    let at = lookup-insert known slot other entry in
    elim (Bool-cases (slot str_eq other)) [
      | inr e ↦ rw (at, e) refl
      | inl e ↦
          let same : slot ≡ other = (eq_iff slot other).0 e in
          let clash : true ≡ false = rw (same, k) at h in absurd (ground arith)
    ]

-- The confirmation of the value that a slot has.
pub Agrees-insert_same :
    (slots : List String) (known : Known) (slot : String) (status : SlotStatus) (value : Value)
    → lookup slot known ≡ some (status, value)
    → Agrees slots (insert slot (confirmed, value) known) known
Agrees-insert_same slots known slot status value h other k =
    let at = lookup-insert known slot other (confirmed, value) in
    elim (Bool-cases (slot str_eq other)) [
      | inr e ↦ rw (at, e) refl
      | inl e ↦
          let same : slot ≡ other = (eq_iff slot other).0 e in
          let there : lookup other known ≡ some (status, value) = rw (← same) h in
          rw (at, e, there) refl
    ]
