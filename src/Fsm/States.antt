-- ===== src/Fsm/States.antt =====
-- fsm/states.py: the conversation's states and the three sets of them that the code names.
use suraksha_setu.Prelude.{ℕ, ◌≡◌, arith, Bool, true, false, List, [], ◌∷◌, ◌||◌, ◌==◌}

pub data FsmState : Type 0 where
  s0 s1 quote_only s2 s3 human_escalation pause exit exit_advisory data_erasure handoff : FsmState

-- `==` on the members of the enum: each has a number of its own.
abbrev state_number : FsmState → ℕ
state_number s0 = 0
state_number s1 = 1
state_number quote_only = 2
state_number s2 = 3
state_number s3 = 4
state_number human_escalation = 5
state_number pause = 6
state_number exit = 7
state_number exit_advisory = 8
state_number data_erasure = 9
state_number handoff = 10

abbrev pub same_state : FsmState → FsmState → Bool
same_state a b = state_number a == state_number b

pub same_state-eq : (a b : FsmState) → same_state a b ≡ true → a ≡ b
same_state-eq s0 b h = ground arith
same_state-eq s1 b h = ground arith
same_state-eq quote_only b h = ground arith
same_state-eq s2 b h = ground arith
same_state-eq s3 b h = ground arith
same_state-eq human_escalation b h = ground arith
same_state-eq pause b h = ground arith
same_state-eq exit b h = ground arith
same_state-eq exit_advisory b h = ground arith
same_state-eq data_erasure b h = ground arith
same_state-eq handoff b h = ground arith

-- `state in frozenset({...})`
abbrev pub in_states : FsmState → List FsmState → Bool
in_states s [] = false
in_states s (x ∷ xs) = same_state s x || in_states s xs

-- The session is closed: no row leaves these.
abbrev pub terminal : List FsmState
terminal = human_escalation ∷ exit ∷ exit_advisory ∷ data_erasure ∷ handoff ∷ []

-- PAUSE resumes to the paused-from state, one of these.
abbrev pub resumable : List FsmState
resumable = s0 ∷ s1 ∷ quote_only ∷ s2 ∷ s3 ∷ []

-- I1: reaching any of these needs a valid P1 consent record.
abbrev pub needs_p1 : List FsmState
needs_p1 = s1 ∷ quote_only ∷ s2 ∷ s3 ∷ handoff ∷ []
