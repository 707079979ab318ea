-- ===== src/Erasure/Tests.antt =====
-- A sweep of two sessions that are left over.
use suraksha_setu.Prelude.{
  String, ◌≡◌, refl, Bool, true, Option, none, some, [], ◌∷◌, ◌++◌, replicate,
}
use suraksha_setu.Prelude.Dict.{lookup, insert}
use suraksha_setu.Crypto.Envelope.{Octets, decrypt}
use suraksha_setu.Crypto.Keys.{
  SubjectKey, KeyService, DekResult, destroy, schedule_destruction, dek, read_row, pop,
}
use suraksha_setu.Erasure.Session.{
  Table, Reason, Withdrawal, erasure_request, World, Swept, swept, raised, erase, erase_session,
  delete_each, delete,
}
use suraksha_setu.Erasure.Sweep.{
  leftovers, pending_sessions, has_withdrawn, sweep, erase_leftovers, last_reason, retry_each,
}
use suraksha_setu.Erasure.KeysKept.{AllKeys, ask}
use suraksha_setu.Erasure.Pending.{All}
use suraksha_setu.Erasure.Settled.{Open, sweep_settles}

abbrev world_of : Swept → World
world_of (swept w) = w
world_of (raised w) = w

abbrev toy_seal : Octets → Octets → Octets → String → Octets
toy_seal key nonce text aad = text

abbrev toy_unseal : Octets → Octets → Octets → String → Option Octets
toy_unseal key nonce sealed aad = some sealed

abbrev held_key : SubjectKey
held_key = record {
  subject_ref = 1;
  wrapped_dek = some (1 ∷ replicate 12 7 ++ 5 ∷ []);
  kek_id = "local";
  destroy_after = none;
  destroyed_at = none;
}

-- A minor's session and another one, each with a withdrawal that is pending.
abbrev left_over : World
left_over = record {
  rows =
      record { table = Table.turn; session_id = "a"; status = ""; key_ref = "" }
      ∷ record { table = Table.session; session_id = "a"; status = "erased"; key_ref = "k1" }
      ∷ record { table = Table.session; session_id = "b"; status = "erased"; key_ref = "k2" }
      ∷ record { table = Table.session; session_id = "c"; status = "active"; key_ref = "k3" }
      ∷ [];
  keys = record { subject_key = ("k1", held_key) ∷ ("k2", held_key) ∷ []; cache = [] };
  events =
      erasure_request "a" "k1" Reason.minor Withdrawal.pending
      ∷ erasure_request "b" "k2" Reason.withdraw Withdrawal.pending
      ∷ [];
}

abbrev answers : String → Bool
answers sid = true

left_over-AllKeys : AllKeys toy_seal toy_unseal [] "local" left_over.keys (leftovers left_over.rows)
unfolding leftovers lookup decrypt
left_over-AllKeys = ((refl, (refl, (5 ∷ [], refl))), ((refl, (refl, (5 ∷ [], refl))), tt))

pending-AllKeys :
    AllKeys toy_seal toy_unseal [] "local" left_over.keys (pending_sessions left_over.events)
unfolding pending_sessions has_withdrawn lookup decrypt
pending-AllKeys = ((refl, (refl, (5 ∷ [], refl))), ((refl, (refl, (5 ∷ [], refl))), tt))

abbrev keys_of : String → KeyService → DekResult × KeyService
keys_of = ask toy_seal toy_unseal [] "local" 1000 1001 [] []

sweep_settles_example :
    (after : World) × (sweep 100 30 keys_of answers left_over ≡ swept after)
    × (leftovers after.rows ≡ [])
    × All
        (Open toy_seal toy_unseal [] "local" 100 30 1000 1001 [] [] answers after.keys)
        (pending_sessions after.events)
sweep_settles_example =
    sweep_settles toy_seal toy_unseal [] "local" 100 30 1000 1001 [] [] answers left_over
      left_over-AllKeys pending-AllKeys

-- The minor's withdrawal stays pending, the other one is recorded.
minor_stays_pending :
    pending_sessions (world_of (sweep 100 30 keys_of answers left_over)).events ≡ ("a", "k1") ∷ []
unfolding sweep erase_leftovers leftovers erase erase_session delete_each delete destroy
    schedule_destruction last_reason lookup insert pop pending_sessions has_withdrawn retry_each dek
    read_row decrypt
minor_stays_pending = refl

-- The deletion is committed before the key is looked after: with a key that is not held, the erasure
-- fails, and a later sweep finds no session to finish.
abbrev no_keys : World
no_keys = record left_over {
  rows = record { table = Table.session; session_id = "a"; status = "erased"; key_ref = "k1" } ∷ [];
  keys = record { subject_key = []; cache = [] };
}

failed_key_is_forgotten :
    (sweep 100 30 keys_of answers no_keys
      ≡ raised (world_of (sweep 100 30 keys_of answers no_keys)))
    × (leftovers (world_of (sweep 100 30 keys_of answers no_keys)).rows ≡ [])
unfolding sweep erase_leftovers leftovers erase erase_session delete_each delete destroy last_reason
    lookup
failed_key_is_forgotten = (refl, refl)
