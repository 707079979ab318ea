-- ===== src/Erasure/Left.antt =====
-- graph/handlers/data_erasure.py: the sessions that the deletions leave.
use suraksha_setu.Prelude.{
  String, ◌≡◌, refl, ap, ◌∙◌, true, false, List, [], ◌∷◌, ◌str_eq◌, eq_refl, if◌then◌else◌, arith,
  Bool-cases, inl, inr,
}
use suraksha_setu.Erasure.Session.{
  Table, session, disclosure_ack, recommendation, handoff, slot_value, turn, checkpoint_writes,
  checkpoint_blobs, checkpoints, same_table, is_of, LiveRow, delete, delete_each, erase_session,
}
use suraksha_setu.Erasure.Sweep.{is_leftover, leftovers}

unfoldable pub drop : String → List (String × String) → List (String × String)
drop sid [] = []
drop sid ((s, k) ∷ rest) =
    let later = drop sid rest in if s str_eq sid then later else (s, k) ∷ later

leftovers-delete_other :
    (t : Table) (sid : String) (rows : List LiveRow)
    → same_table session t ≡ false
    → leftovers (delete t sid rows) ≡ leftovers rows
unfolding leftovers delete
leftovers-delete_other t sid [] h = refl
leftovers-delete_other t sid (r ∷ rs) h =
    let rest = leftovers-delete_other t sid rs h in
    elim (Bool-cases (is_of t sid r)) [
      | inl o ↦ elim (Bool-cases (is_leftover r)) [
        | inl l ↦ absurd (ground arith)
        | inr l ↦ rw (o, l) rest
      ]
      | inr o ↦
          rw (o, leftovers)
            (elim (Bool-cases (is_leftover r)) [
              | inl l ↦ rw l (ap (λ x. (r.session_id, r.key_ref) ∷ x) rest)
              | inr l ↦ rw l rest
            ])
    ]

leftovers-delete_session :
    (sid : String) (rows : List LiveRow)
    → leftovers (delete session sid rows) ≡ drop sid (leftovers rows)
unfolding leftovers delete drop
leftovers-delete_session sid [] = refl
leftovers-delete_session sid (r ∷ rs) =
    let rest = leftovers-delete_session sid rs in
    elim (Bool-cases (is_of session sid r)) [
      | inl o ↦
          let same : (r.session_id str_eq sid) ≡ true = ground arith in
          elim (Bool-cases (is_leftover r)) [
            | inl l ↦ rw (o, l, drop, same) rest
            | inr l ↦ rw (o, l) rest
          ]
      | inr o ↦ elim (Bool-cases (is_leftover r)) [
        | inl l ↦
            let other : (r.session_id str_eq sid) ≡ false = ground arith in
            rw (o, leftovers, l, drop, other) (ap (λ x. (r.session_id, r.key_ref) ∷ x) rest)
        | inr l ↦ rw (o, leftovers, l) rest
      ]
    ]

pub leftovers-erase_session :
    (sid : String) (rows : List LiveRow)
    → leftovers (erase_session sid rows) ≡ drop sid (leftovers rows)
unfolding erase_session delete_each
leftovers-erase_session sid rows =
    rw
      (
        leftovers-delete_other checkpoints sid _ refl,
        leftovers-delete_other checkpoint_blobs sid _ refl,
        leftovers-delete_other checkpoint_writes sid _ refl,
        leftovers-delete_session sid _,
        leftovers-delete_other turn sid _ refl,
        leftovers-delete_other slot_value sid _ refl,
        leftovers-delete_other handoff sid _ refl,
        leftovers-delete_other recommendation sid _ refl,
        leftovers-delete_other disclosure_ack sid _ refl,
      )
      refl

unfoldable pub drop_all : List (String × String) → List (String × String) → List (String × String)
unfolding drop
drop_all [] m = m
drop_all ((sid, k) ∷ ids) m = drop_all ids (drop sid m)

drop_head : (sid k : String) (m : List (String × String)) → drop sid ((sid, k) ∷ m) ≡ drop sid m
unfolding drop
drop_head sid k m = rw (eq_refl sid) refl

drop_comm : (a b : String) (m : List (String × String)) → drop a (drop b m) ≡ drop b (drop a m)
unfolding drop
drop_comm a b [] = refl
drop_comm a b ((s, k) ∷ m) =
    let rest = drop_comm a b m in
    elim (Bool-cases (s str_eq a)) [
      | inl x ↦ elim (Bool-cases (s str_eq b)) [
        | inl y ↦ rw (y, x) rest
        | inr y ↦ rw (y, x, drop) rest
      ]
      | inr x ↦ elim (Bool-cases (s str_eq b)) [
        | inl y ↦ rw (y, x, drop, y) rest
        | inr y ↦ rw (y, x, drop, y) (ap (λ l. (s, k) ∷ l) rest)
      ]
    ]

drop_all-drop :
    (sid : String) (ids m : List (String × String))
    → drop_all ids (drop sid m) ≡ drop sid (drop_all ids m)
unfolding drop_all
drop_all-drop sid [] m = refl
drop_all-drop sid ((s, k) ∷ ids) m =
    ap (drop_all ids) (drop_comm s sid m) ∙ drop_all-drop sid ids (drop s m)

drop-nil : (sid : String) → drop sid [] ≡ []
unfolding drop
drop-nil sid = refl

pub drop_all_self : (ids : List (String × String)) → drop_all ids ids ≡ []
unfolding drop_all
drop_all_self [] = refl
drop_all_self ((s, k) ∷ ids) =
    ap (drop_all ids) (drop_head s k ids)
    ∙ drop_all-drop s ids ids
    ∙ ap (drop s) (drop_all_self ids)
    ∙ drop-nil s
