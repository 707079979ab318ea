-- ===== src/Fsm/Order.antt =====
-- V1: the order in which a state's rows are tried.
use suraksha_setu.Prelude.{
  ℕ, ◌<◌, ◌≡◌, ◌≢◌, refl, inl, inr, true, false, none, some, List, [], ◌∷◌, ◌++◌, arith, Bool-cases,
  Option-cases,
}
use suraksha_setu.Fsm.States.{FsmState, s0, s1, quote_only, s2, s3, in_states}
use suraksha_setu.Fsm.Facts.{Facts}
use suraksha_setu.Fsm.Rows.{
  Thresholds, Row, cross_cutting, state_rows, sorted_by_order, in_scope, evaluation_rows,
}
use suraksha_setu.Fsm.Transition.{first_match}

abbrev pub NoneMatches : Facts → Thresholds → List Row → Type 0
NoneMatches f t [] = Unit
NoneMatches f t (r ∷ rs) = (r.condition f t ≡ false) × NoneMatches f t rs

abbrev pub FirstOf : Facts → Thresholds → List Row → Row → Type 0
FirstOf f t rows r =
    (before : List Row) × (after : List Row) × (rows ≡ before ++ r ∷ after)
    × NoneMatches f t before
    × (r.condition f t ≡ true)

first_match-FirstOf :
    (f : Facts) (t : Thresholds) (rows : List Row) (r : Row)
    → first_match rows f t ≡ some r
    → FirstOf f t rows r
unfolding first_match
first_match-FirstOf f t [] r e = cc
first_match-FirstOf f t (x ∷ xs) r e = elim (Bool-cases (x.condition f t)) [
  | inl h ↦ ([], xs, ground arith, tt, ground arith)
  | inr h ↦
      let (before, after, split, none_before, holds) =
        first_match-FirstOf f t xs r (ground arith) in
      (x ∷ before, after, cc, (h, none_before), holds)
]

-- The orders of the rows rise strictly, so no two rows of a list are tried as one.
abbrev pub RisesFrom : ℕ → List Row → Type 0
RisesFrom n [] = Unit
RisesFrom n (r ∷ rs) = (n < r.order) × RisesFrom r.order rs

abbrev pub Rising : List Row → Type 0
Rising [] = Unit
Rising (r ∷ rs) = RisesFrom r.order rs

abbrev pub AllApply : FsmState → List Row → Type 0
AllApply s [] = Unit
AllApply s (r ∷ rs) = (in_states s r.states ≡ true) × AllApply s rs

-- For every state: the rows tried are the cross-cutting rows whose scope holds the state and then
-- the state's own rows; each of the two parts rises strictly by `order`; and every row tried
-- applies to the state.
pub evaluation_rows_ordered :
    (s : FsmState)
    → (evaluation_rows s
        ≡ sorted_by_order (in_scope s cross_cutting) ++ sorted_by_order (state_rows s))
      × Rising (sorted_by_order (in_scope s cross_cutting))
      × Rising (sorted_by_order (state_rows s))
      × AllApply s (evaluation_rows s)
unfolding evaluation_rows
evaluation_rows_ordered s0 = (refl, omega arith, omega arith, ground arith)
evaluation_rows_ordered s1 = (refl, omega arith, omega arith, ground arith)
evaluation_rows_ordered quote_only = (refl, omega arith, omega arith, ground arith)
evaluation_rows_ordered s2 = (refl, omega arith, omega arith, ground arith)
evaluation_rows_ordered s3 = (refl, omega arith, omega arith, ground arith)
evaluation_rows_ordered _ = (refl, omega arith, omega arith, ground arith)

first_match-ne-none :
    (f : Facts) (s : FsmState) (t : Thresholds) → first_match (evaluation_rows s) f t ≢ none
unfolding first_match evaluation_rows
first_match-ne-none f s0 t = ground arith
first_match-ne-none f s1 t = ground arith
first_match-ne-none f quote_only t = ground arith
first_match-ne-none f s2 t = ground arith
first_match-ne-none f s3 t = ground arith
first_match-ne-none f _ t = ground arith

-- V1: for all facts, in every state, a row matches; the row that is taken is the first of the
-- state's rows whose condition holds, and the conditions of all rows before it fail.
pub one_row_decides :
    (f : Facts) (s : FsmState) (t : Thresholds)
    → (r : Row) × (first_match (evaluation_rows s) f t ≡ some r) × FirstOf f t (evaluation_rows s) r
one_row_decides f s t = elim (Option-cases (first_match (evaluation_rows s) f t)) [
  | inl e ↦ absurd (first_match-ne-none f s t e)
  | inr (r, e) ↦ (r, e, first_match-FirstOf f t (evaluation_rows s) r e)
]
