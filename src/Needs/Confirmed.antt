-- ===== src/Needs/Confirmed.antt =====
-- graph/states/s1.py: what `confirm_all` leaves of a screen: the values of all slots, and everything
-- but the rows; and it confirms each slot that has a value.
use suraksha_setu.Prelude.{
  String, ◌≡◌, refl, ◌∙◌, ap, Bool, true, false, Option, none, some, List, [], ◌∷◌, ◌str_eq◌,
  eq_iff, arith, Bool-cases, Option-cases, inl, inr,
}
use suraksha_setu.Prelude.Dict.{lookup, insert, lookup-insert, lookup-insert_self}
use suraksha_setu.Fsm.Facts.{is_some}
use suraksha_setu.Screening.State.{
  Value, same_value, SlotStatus, confirmed, is_confirmed, RequiredAttribute, Setup, Screen,
}
use suraksha_setu.Screening.Take.{
  Known, applies, asked_of, first_missing, holds_confirmed, all_confirmed, write,
}
use suraksha_setu.Screening.Prompt.{confirm_each}
use suraksha_setu.Needs.Setup.{on_path}
use suraksha_setu.Needs.Payload.{held_value}

-- The two dictionaries hold the same values.
abbrev pub Alike : Known → Known → Type 0
Alike a b = (slot : String) → held_value (lookup slot a) ≡ held_value (lookup slot b)

is_some-Alike :
    (o p : Option (SlotStatus × Value)) → held_value o ≡ held_value p → is_some o ≡ is_some p
is_some-Alike none none h = refl
is_some-Alike (some (s, v)) (some (t, w)) h = refl
is_some-Alike none (some p) h = absurd (ground arith)
is_some-Alike (some p) none h = absurd (ground arith)

same_entry :
    (literal : Value) (o p : Option (SlotStatus × Value))
    → held_value o ≡ held_value p
    → (elim o [ none ↦ false | some (status, value) ↦ same_value value literal ])
      ≡ (elim p [ none ↦ false | some (status, value) ↦ same_value value literal ])
same_entry literal none none h = refl
same_entry literal (some (s, v)) (some (t, w)) h = let same : v ≡ w = cc in rw same refl
same_entry literal none (some p) h = absurd (ground arith)
same_entry literal (some p) none h = absurd (ground arith)

applies-Alike : (o : Option (String × Value)) (a b : Known) → Alike a b → applies o a ≡ applies o b
applies-Alike none a b h = refl
applies-Alike (some (slot, literal)) a b h =
    same_entry literal (lookup slot a) (lookup slot b) (h slot)

pub first_missing-Alike :
    (as' : List RequiredAttribute) (a b : Known)
    → Alike a b
    → first_missing as' a ≡ first_missing as' b
unfolding first_missing
first_missing-Alike [] a b h = refl
first_missing-Alike (x ∷ as') a b h =
    let first = is_some-Alike (lookup x.attribute a) (lookup x.attribute b) (h x.attribute) in
    let rest = first_missing-Alike as' a b h in rw (first, rest) refl

pub asked_of-Alike :
    (as' : List RequiredAttribute) (a b : Known) → Alike a b → asked_of as' a ≡ asked_of as' b
unfolding asked_of
asked_of-Alike [] a b h = refl
asked_of-Alike (x ∷ as') a b h =
    let first = applies-Alike x.asked_if a b h in
    let rest = asked_of-Alike as' a b h in rw (first, rest) refl

pub on_path-Alike :
    (short : Bool) (as' : List RequiredAttribute) (a b : Known)
    → Alike a b
    → on_path short as' a ≡ on_path short as' b
unfolding on_path
on_path-Alike short [] a b h = refl
on_path-Alike short (x ∷ as') a b h =
    let first = is_some-Alike (lookup x.attribute a) (lookup x.attribute b) (h x.attribute) in
    let rest = on_path-Alike short as' a b h in rw (first, rest) refl

-- The confirmation of one value.
insert-Alike :
    (known : Known) (slot : String) (status : SlotStatus) (value : Value)
    → lookup slot known ≡ some (status, value)
    → Alike (insert slot (confirmed, value) known) known
insert-Alike known slot status value h other =
    let at = lookup-insert known slot other (confirmed, value) in
    elim (Bool-cases (slot str_eq other)) [
      | inr e ↦ rw (at, e) refl
      | inl e ↦
          let same : slot ≡ other = (eq_iff slot other).0 e in
          let there : lookup other known ≡ some (status, value) = rw (← same) h in
          rw (at, e, there) refl
    ]

module _ (setup : Setup) (Q : Screen → Type 0)
    (on_confirm : (slot : String) (value : Value) (status : SlotStatus) (s : Screen)
      → lookup slot s.known ≡ some (status, value)
      → Q s
      → Q (write setup slot value confirmed setup.full_confidence s)) where
  -- What a confirmation keeps, the confirmation of all keeps.
  confirm_each_keeps :
      (as' : List RequiredAttribute) (s : Screen) → Q s → Q (confirm_each setup as' s)
  unfolding confirm_each
  confirm_each_keeps [] s h = h
  confirm_each_keeps (a ∷ as') s h = elim (Option-cases (lookup a.attribute s.known)) [
    | inl e ↦ rw (e, confirm_each) (confirm_each_keeps as' s h)
    | inr ((status, value), e) ↦ elim (Bool-cases (is_confirmed status)) [
      | inl c ↦ rw (e, c, confirm_each) (confirm_each_keeps as' s h)
      | inr c ↦
          rw (e, c, confirm_each)
            (confirm_each_keeps as'
              (write setup a.attribute value confirmed setup.full_confidence s)
              (on_confirm a.attribute value status s e h))
    ]
  ]

module _ (setup : Setup) where
  pub confirm_each-Alike :
      (as' : List RequiredAttribute) (s : Screen) → Alike (confirm_each setup as' s).known s.known
  unfolding write
  confirm_each-Alike as' s =
      confirm_each_keeps setup (λ t. Alike t.known s.known)
        (λ slot value status t e h other. insert-Alike t.known slot status value e other ∙ h other)
        as' s (λ slot. refl)

  -- Only the statuses and the rows change.
  pub confirm_each-frame :
      (as' : List RequiredAttribute) (s : Screen)
      → confirm_each setup as' s ≡ record s {
        known = (confirm_each setup as' s).known;
        slot_rows = (confirm_each setup as' s).slot_rows;
      }
  unfolding write
  confirm_each-frame as' s =
      confirm_each_keeps setup (λ t. t ≡ record s { known = t.known; slot_rows = t.slot_rows })
        (λ slot value status t e h. ap (write setup slot value confirmed setup.full_confidence) h)
        as' s refl

  stays_confirmed :
      (as' : List RequiredAttribute) (slot : String) (s : Screen)
      → holds_confirmed (lookup slot s.known) ≡ true
      → holds_confirmed (lookup slot (confirm_each setup as' s).known) ≡ true
  unfolding write
  stays_confirmed as' slot s =
      confirm_each_keeps setup (λ t. holds_confirmed (lookup slot t.known) ≡ true)
        (λ other value status t e h.
          let at = lookup-insert t.known other slot (confirmed, value) in
          elim (Bool-cases (other str_eq slot)) [ inl k ↦ rw (at, k) refl | inr k ↦ rw (at, k) h ])
        as' s

  -- Where each of the slots has a value, each is confirmed.
  pub confirm_each-confirmed :
      (as' : List RequiredAttribute) (s : Screen)
      → first_missing as' s.known ≡ none
      → all_confirmed as' (confirm_each setup as' s).known ≡ true
  unfolding confirm_each all_confirmed first_missing write
  confirm_each-confirmed [] s h = refl
  confirm_each-confirmed (a ∷ as') s h = elim (Option-cases (lookup a.attribute s.known)) [
    | inl e ↦ let clash : some a ≡ none = rw e at h in absurd (ground arith)
    | inr ((status, value), e) ↦
        let rest : first_missing as' s.known ≡ none = rw e at h in
        elim (Bool-cases (is_confirmed status)) [
          | inl c ↦
              let at = stays_confirmed as' a.attribute s (rw e c) in
              rw (e, c, confirm_each, all_confirmed, at, confirm_each-confirmed as' s rest) refl
          | inr c ↦
              let t = write setup a.attribute value confirmed setup.full_confidence s in
              let fresh = lookup-insert_self a.attribute (confirmed, value) s.known in
              let at = stays_confirmed as' a.attribute t (rw fresh refl) in
              let none_left =
                first_missing-Alike as' t.known s.known
                  (insert-Alike s.known a.attribute status value e) in
              rw
                (
                  e,
                  c,
                  confirm_each,
                  all_confirmed,
                  at,
                  confirm_each-confirmed as' t (none_left ∙ rest),
                )
                refl
        ]
  ]
