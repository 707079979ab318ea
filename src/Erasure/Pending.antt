-- ===== src/Erasure/Pending.antt =====
-- graph/handlers/data_erasure.py: the withdrawals that are pending behind those that were retried.
use suraksha_setu.Prelude.{
  String, ◌≡◌, refl, Bool, true, false, not, ◌&&◌, ◌||◌, List, [], ◌∷◌, ◌++◌, if◌then◌else◌, arith,
  inl, inr, ◌⊎◌,
}
use suraksha_setu.Erasure.Session.{Event, erasure_request, consent_withdrawn}
use suraksha_setu.Erasure.Sweep.{has_withdrawn, is_pending, pending_sessions}

-- Each of the pairs of a session and a key has the property.
abbrev pub All : (String → String → Type 0) → List (String × String) → Type 0
All P [] = Unit
All P ((sid, k) ∷ ids) = P sid k × All P ids

pub All-map :
    (P Q : String → String → Type 0) (ids : List (String × String))
    → ((sid k : String) → P sid k → Q sid k)
    → All P ids
    → All Q ids
All-map P Q [] f h = tt
All-map P Q ((sid, k) ∷ ids) f h = (f sid k h.0, All-map P Q ids f h.1)

-- The withdrawal joined the chain in these events, or the pair is one that stays open.
abbrev pub Tried : List Event → (String → String → Type 0) → String → String → Type 0
Tried ws Open sid k = (has_withdrawn sid ws ≡ true) ⊎ Open sid k

pub has_withdrawn-++ :
    (sid : String) (xs ws : List Event)
    → has_withdrawn sid (xs ++ ws) ≡ (has_withdrawn sid xs || has_withdrawn sid ws)
unfolding has_withdrawn
has_withdrawn-++ sid [] ws = refl
has_withdrawn-++ sid (erasure_request s k r w ∷ es) ws = has_withdrawn-++ sid es ws
has_withdrawn-++ sid (consent_withdrawn s ∷ es) ws =
    let rest = has_withdrawn-++ sid es ws in ground arith

unfoldable pub only_withdrawn : List Event → Bool
only_withdrawn [] = true
only_withdrawn (erasure_request s k r w ∷ es) = false
only_withdrawn (consent_withdrawn s ∷ es) = only_withdrawn es

pub pending_sessions-only_withdrawn :
    (ws : List Event) → only_withdrawn ws ≡ true → pending_sessions ws ≡ []
unfolding only_withdrawn pending_sessions
pending_sessions-only_withdrawn [] h = refl
pending_sessions-only_withdrawn (erasure_request s k r w ∷ es) h = absurd (ground arith)
pending_sessions-only_withdrawn (consent_withdrawn s ∷ es) h = pending_sessions-only_withdrawn es h

All-if :
    (P : String → String → Type 0) (b : Bool) (sid k : String) (ids : List (String × String))
    → All P (if b then (sid, k) ∷ ids else ids)
    → (b ≡ true → P sid k) × All P ids
All-if P true sid k ids h = (λ e. h.0, h.1)
All-if P false sid k ids h = (λ e. absurd (ground arith), h)

if-All :
    (P : String → String → Type 0) (b : Bool) (sid k : String) (ids : List (String × String))
    → (b ≡ true → P sid k)
    → All P ids
    → All P (if b then (sid, k) ∷ ids else ids)
if-All P true sid k ids p h = (p refl, h)
if-All P false sid k ids p h = h

-- What is pending behind the events of the retries is open.
pub pending_sessions-Open :
    (Open : String → String → Type 0) (xs ws : List Event)
    → pending_sessions ws ≡ []
    → All (Tried ws Open) (pending_sessions xs)
    → All Open (pending_sessions (xs ++ ws))
unfolding pending_sessions
pending_sessions-Open Open [] ws e h = rw e tt
pending_sessions-Open Open (consent_withdrawn s ∷ es) ws e h = pending_sessions-Open Open es ws e h
pending_sessions-Open Open (erasure_request s k r w ∷ es) ws e h =
    let both = has_withdrawn-++ s es ws in
    let (tried, rest) =
      All-if (Tried ws Open) (is_pending w && not (has_withdrawn s es)) s k (pending_sessions es)
        h in
    if-All Open (is_pending w && not (has_withdrawn s (es ++ ws))) s k _
      (λ still. elim (tried (ground arith)) [ inl t ↦ absurd (ground arith) | inr o ↦ o ])
      (pending_sessions-Open Open es ws e rest)

pub only_withdrawn-++ :
    (xs ys : List Event)
    → only_withdrawn xs ≡ true
    → only_withdrawn ys ≡ true
    → only_withdrawn (xs ++ ys) ≡ true
unfolding only_withdrawn
only_withdrawn-++ [] ys h g = g
only_withdrawn-++ (erasure_request s k r w ∷ es) ys h g = absurd (ground arith)
only_withdrawn-++ (consent_withdrawn s ∷ es) ys h g = only_withdrawn-++ es ys h g
