-- ===== src/Erasure/Sweep.antt =====
-- graph/handlers/data_erasure.py: the sweep. Failures of the database are not modelled; the Consent
-- Service records a withdrawal or not, by the session. Of the append to the chain, its call of the key
-- service is modelled, which is all that can stop it here.
use suraksha_setu.Prelude.{
  ℕ, String, Bool, true, false, not, ◌&&◌, ◌||◌, Option, none, some, List, [], ◌∷◌, ◌++◌, ◌str_eq◌,
  if◌then◌else◌,
}
use suraksha_setu.Crypto.Keys.{
  KeyService, DekResult, found, key_destroyed, unknown_key, other_kek, unreadable,
}
use suraksha_setu.Erasure.Session.{
  session, same_table, LiveRow, Reason, withdraw, Withdrawal, pending, Event, erasure_request,
  consent_withdrawn, World, Swept, swept, raised, erase,
}

abbrev pub is_leftover : LiveRow → Bool
is_leftover r = same_table r.table session && (r.status str_eq "erased")

-- The sessions still marked erased, with their keys.
unfoldable pub leftovers : List LiveRow → List (String × String)
leftovers [] = []
leftovers (r ∷ rs) =
    let rest = leftovers rs in if is_leftover r then (r.session_id, r.key_ref) ∷ rest else rest

abbrev later_or : Option Reason → Reason → Option Reason
later_or none r = some r
later_or (some later) r = some later

-- `_last_reason`
unfoldable pub last_reason : String → List Event → Option Reason
last_reason sid [] = none
last_reason sid (erasure_request s k r w ∷ es) =
    let later = last_reason sid es in if s str_eq sid then later_or later r else later
last_reason sid (consent_withdrawn s ∷ es) = last_reason sid es

-- `== "MINOR"`
abbrev pub reason_of : Option Reason → Reason
reason_of none = withdraw
reason_of (some r) = r

unfoldable pub has_withdrawn : String → List Event → Bool
has_withdrawn sid [] = false
has_withdrawn sid (erasure_request s k r w ∷ es) = has_withdrawn sid es
has_withdrawn sid (consent_withdrawn s ∷ es) = s str_eq sid || has_withdrawn sid es

abbrev pub is_pending : Withdrawal → Bool
is_pending pending = true
is_pending _ = false

-- `_PENDING`: the sessions with a pending withdrawal that none records later, each with the key of
-- the event.
unfoldable pub pending_sessions : List Event → List (String × String)
unfolding has_withdrawn
pending_sessions [] = []
pending_sessions (consent_withdrawn s ∷ es) = pending_sessions es
pending_sessions (erasure_request s k r w ∷ es) =
    let rest = pending_sessions es in
    if is_pending w && not (has_withdrawn s es) then (s, k) ∷ rest else rest

-- `ask` is `keys.dek`.
module _ (now retention : ℕ) (ask : String → KeyService → DekResult × KeyService)
    (withdraws : String → Bool) where
  abbrev pub then_next : Swept → (World → Swept) → Swept
  then_next (swept w) k = k w
  then_next (raised w) k = raised w

  unfoldable pub erase_leftovers : List (String × String) → World → Swept
  unfolding erase last_reason
  erase_leftovers [] w = swept w
  erase_leftovers ((sid, k) ∷ rest) w =
      then_next (erase now retention sid k (reason_of (last_reason sid w.events)) w)
        (erase_leftovers rest)

  -- The append of CONSENT_WITHDRAWN: a key that is destroyed is passed over, a key that cannot be read
  -- is an error that the sweep does not catch.
  abbrev pub append_withdrawn : String → World → DekResult × KeyService → Swept
  append_withdrawn sid w (found dek, ks) =
      swept (record w { keys = ks; events = w.events ++ consent_withdrawn sid ∷ [] })
  append_withdrawn sid w (key_destroyed, ks) = swept (record w { keys = ks })
  append_withdrawn sid w (unknown_key, ks) = raised w
  append_withdrawn sid w (other_kek, ks) = raised w
  append_withdrawn sid w (unreadable, ks) = raised w

  abbrev pub retry : String → String → World → Swept
  retry sid k w = if withdraws sid then append_withdrawn sid w (ask k w.keys) else swept w

  unfoldable pub retry_each : List (String × String) → World → Swept
  retry_each [] w = swept w
  retry_each ((sid, k) ∷ rest) w = then_next (retry sid k w) (retry_each rest)

  abbrev pub retry_pending : World → Swept
  retry_pending w = retry_each (pending_sessions w.events) w

  -- `sweep`
  unfoldable pub sweep : World → Swept
  unfolding erase_leftovers leftovers pending_sessions retry_each
  sweep w = then_next (erase_leftovers (leftovers w.rows) w) retry_pending
