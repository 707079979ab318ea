-- ===== src/Turn/Aside.antt =====
-- A side question or an objection never changes where the turn goes.
use suraksha_setu.Prelude.{
  true, false, not, ◌≡◌, ◌∙◌, ◌⊎◌, some, List, [], ◌∷◌, arith, if◌then◌else◌,
}
use suraksha_setu.Fsm.States.{FsmState, s0, s1, quote_only, s2, s3, same_state, same_state-eq}
use suraksha_setu.Fsm.Facts.{Facts}
use suraksha_setu.Fsm.Rows.{Thresholds, Row, stay, evaluation_rows}
use suraksha_setu.Fsm.Transition.{Transition, transition, transition_within, first_match}
use suraksha_setu.Fsm.Depth.{Resumable, within_one-some, within-Resumable}
use suraksha_setu.Fsm.Order.{one_row_decides}
use suraksha_setu.Turn.State.{Settings}
use suraksha_setu.Turn.Decide.{unasked, held_back, settle}

-- The rows' conditions on two facts: equal but for CC4 and CC5, which do not match the second.
abbrev Agree : Facts → Facts → Thresholds → List Row → Type 0
Agree f g t [] = Unit
Agree f g t (r ∷ rs) =
    ((held_back r.id ≡ false) × (r.condition f t ≡ r.condition g t)
      ⊎ (held_back r.id ≡ true) × (r.condition g t ≡ false))
    × Agree f g t rs

first_match-Agree :
    (f g : Facts) (t : Thresholds) (rows : List Row) (r : Row)
    → Agree f g t rows
    → first_match rows f t ≡ some r
    → held_back r.id ≡ false
    → first_match rows g t ≡ some r
unfolding first_match
first_match-Agree f g t [] r h e k = cc
first_match-Agree f g t (x ∷ xs) r h e k = ground (arith, first_match-Agree f g t xs r h.1)

unasked-Agree :
    (f : Facts) (s : FsmState) (t : Thresholds) → Agree f (unasked f) t (evaluation_rows s)
unfolding evaluation_rows
unasked-Agree f s0 t = ground arith
unasked-Agree f s1 t = ground arith
unasked-Agree f quote_only t = ground arith
unasked-Agree f s2 t = ground arith
unasked-Agree f s3 t = ground arith
unasked-Agree f _ t = ground arith

-- Two facts for which the same row is first move alike.
same_row-same_move :
    (f g : Facts) (s : FsmState) (t : Thresholds) (r : Row) (a b : Transition)
    → first_match (evaluation_rows s) f t ≡ some r
    → first_match (evaluation_rows s) g t ≡ some r
    → transition_within 1 f s t ≡ some a
    → transition_within 1 g s t ≡ some b
    → (a.to ≡ b.to) × (a.row_id ≡ r.id)
unfolding transition_within
same_row-same_move f g s t r a b mf mg ea eb = ground arith

row_id-of_first :
    (f : Facts) (s : FsmState) (t : Thresholds) (r : Row) (a : Transition)
    → first_match (evaluation_rows s) f t ≡ some r
    → transition_within 1 f s t ≡ some a
    → a.row_id ≡ r.id
unfolding transition_within
row_id-of_first f s t r a m e = ground arith

-- CC4 and CC5 keep the state.
abbrev HeldStay : List Row → Type 0
HeldStay [] = Unit
HeldStay (r ∷ rs) = (held_back r.id ≡ true → r.to ≡ stay) × HeldStay rs

first_match-HeldStay :
    (f : Facts) (t : Thresholds) (rows : List Row) (r : Row)
    → HeldStay rows
    → first_match rows f t ≡ some r
    → held_back r.id ≡ true
    → r.to ≡ stay
unfolding first_match
first_match-HeldStay f t [] r h e k = cc
first_match-HeldStay f t (x ∷ xs) r h e k = ground (arith, first_match-HeldStay f t xs r h.1)

evaluation_rows-HeldStay : (s : FsmState) → HeldStay (evaluation_rows s)
unfolding evaluation_rows
evaluation_rows-HeldStay s0 = ground arith
evaluation_rows-HeldStay _ = ground arith

stay_move :
    (f : Facts) (s : FsmState) (t : Thresholds) (r : Row) (a : Transition)
    → first_match (evaluation_rows s) f t ≡ some r
    → r.to ≡ stay
    → transition_within 1 f s t ≡ some a
    → a.to ≡ s
unfolding transition_within
stay_move f s t r a m k e = ground arith

held_back-stays :
    (f : Facts) (s : FsmState) (t : Thresholds) (a : Transition)
    → transition_within 1 f s t ≡ some a
    → held_back a.row_id ≡ true
    → a.to ≡ s
held_back-stays f s t a e k =
    let (r, m, _) = one_row_decides f s t in
    let k' = rw (row_id-of_first f s t r a m e) at k in
    stay_move f s t r a m
      (first_match-HeldStay f t (evaluation_rows s) r (evaluation_rows-HeldStay s) m k') e

not_held-same_move :
    (f : Facts) (s : FsmState) (t : Thresholds) (a b : Transition)
    → Resumable s
    → transition_within 1 f s t ≡ some a
    → transition_within 1 (unasked f) s t ≡ some b
    → held_back a.row_id ≡ false
    → a.to ≡ b.to
not_held-same_move f s t a b h ea eb k =
    let (r, m, _) = one_row_decides f s t in
    let id : a.row_id ≡ r.id = row_id-of_first f s t r a m ea in
    let m' =
      first_match-Agree f (unasked f) t (evaluation_rows s) r (unasked-Agree f s t) m
        (rw id at k) in
    (same_row-same_move f (unasked f) s t r a b m m' ea eb).0

-- What `settle` picks of the two transitions.
abbrev picked : FsmState → Transition → Transition → Transition
picked s a b = if held_back a.row_id then (if not (same_state b.to s) then b else a) else a

settle-picked :
    (f : Facts) (s : FsmState) (settings : Settings) (a b : Transition)
    → transition f s settings.thresholds ≡ some a
    → transition (unasked f) s settings.thresholds ≡ some b
    → settle f s settings ≡ some (picked s a b)
unfolding settle
settle-picked f s settings a b ea eb = ground arith

picked-to :
    (s : FsmState) (a b : Transition)
    → (held_back a.row_id ≡ false → a.to ≡ b.to)
    → (held_back a.row_id ≡ true → a.to ≡ s)
    → (picked s a b).to ≡ b.to
picked-to s a b same stays = ground (arith, same_state-eq b.to s)

-- In an engaged state, a side question or an objection never changes where the turn goes: `decide`
-- settles on a transition, and its target is that of the same facts with neither in them.
pub aside_never_holds_back :
    (f : Facts) (s : FsmState) (settings : Settings)
    → Resumable s
    → (r e : Transition) × (settle f s settings ≡ some r)
      × (transition (unasked f) s settings.thresholds ≡ some e)
      × (r.to ≡ e.to)
unfolding transition
aside_never_holds_back f s settings h =
    let t = settings.thresholds in
    let (a, ea) = within_one-some f s t h in
    let (b, eb) = within_one-some (unasked f) s t h in
    let fa = within-Resumable 1 f s t h ∙ ea in
    let fb = within-Resumable 1 (unasked f) s t h ∙ eb in
    (
      picked s a b,
      b,
      settle-picked f s settings a b fa fb,
      fb,
      picked-to s a b (not_held-same_move f s t a b h ea eb) (held_back-stays f s t a ea),
    )
