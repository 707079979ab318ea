-- ===== src/Audit/Tests.antt =====
-- The ledger on concrete rows, and the theorems at inputs that meet their hypotheses. The toy hash
-- is 32 zero bytes, and nothing is encrypted.
use suraksha_setu.Prelude.{
  ◌++◌, ◌*◌, ◌≤◌, ℕ, String, ◌≡◌, refl, ◌⊎◌, true, false, some, List, [], ◌∷◌, ◌+◌, ◌==◌, ◌str_eq◌,
  length, replicate, if◌then◌else◌,
}
use mathlib.Core.List.{Memᴰ}
use suraksha_setu.Audit.Chain.{
  Bytes, EventType, genesis, Hashed, AuditEvent, verify_session, tail, events, chain_hash,
  verify_from, of_session, sorted_by_seq, insert_by_seq, last_event, seq_and_hash,
}
use suraksha_setu.Crypto.Envelope.{Octets}
use suraksha_setu.Crypto.Keys.{DekResult}
use suraksha_setu.Audit.Linked.{passed}
use suraksha_setu.Audit.Append.{
  Conn, Request, appended, refused, type_error, next_event, append, append-verify, key_destroyed,
}
use suraksha_setu.Audit.Tamper.{Collision, SameRows, tamper_evident}
use suraksha_setu.Audit.Anchor.{
  day_us, ChainAnchor, anchored, anchor_day, find_anchor, active_ids, active_sessions, before_end,
  count_on, add_id, all_verify, settle_day, leaves, occurs_on,
}
use suraksha_setu.Audit.Anchored.{anchor_day_succeeds}
use suraksha_setu.Audit.Merkle.{
  leaf, merkle_root, root_within, next_level, merkle_root_total, AllDigests, merkle_root_binds,
}

abbrev toy_sha256 : Bytes → Bytes
toy_sha256 x = replicate 32 0

abbrev toy_json : Hashed ℕ → Bytes
toy_json h = h.seq ∷ h.session_id ∷ []

abbrev toy_encrypt : Octets → ℕ → ℕ → ℕ → Bytes
toy_encrypt key payload sid seq = payload ∷ []

abbrev toy_dek : String → DekResult
toy_dek key_ref =
    if key_ref str_eq "session-key" then DekResult.found [] else DekResult.key_destroyed

abbrev empty_db : Conn ℕ
empty_db = record { autocommit = false; in_transaction = true; audit_event = [] }

abbrev turn_of : ℕ → Request ℕ
turn_of sid = record {
  session_id = sid;
  event_type = EventType.turn_input;
  fsm_state = "S0";
  pins = 0;
  header = record { model_of = EventType.turn_input; dump = 7 };
  payload = 9;
  key_ref = "session-key";
  uuid7 = 1;
  now = 1000;
}

abbrev event_one : AuditEvent ℕ
event_one = next_event toy_sha256 toy_json toy_dek toy_encrypt (turn_of 5) [] (0, genesis)

abbrev one_event : Conn ℕ
one_event = record empty_db { audit_event = event_one ∷ [] }

appends :
    append toy_sha256 toy_json toy_dek toy_encrypt empty_db (turn_of 5)
    ≡ appended event_one one_event
unfolding append tail events of_session sorted_by_seq chain_hash
appends = refl

verifies_empty : verify_session toy_sha256 toy_json [] 5 ≡ passed 0
unfolding verify_session verify_from events of_session sorted_by_seq
verifies_empty = refl

verifies_one : verify_session toy_sha256 toy_json one_event.audit_event 5 ≡ passed 1
unfolding verify_session verify_from events of_session sorted_by_seq insert_by_seq chain_hash
verifies_one = refl

refuses_wrong_model :
    append toy_sha256 toy_json toy_dek toy_encrypt empty_db
      (record (turn_of 5) { event_type = EventType.retrieval })
    ≡ refused type_error
unfolding append
refuses_wrong_model = refl

refuses_destroyed_key :
    append toy_sha256 toy_json toy_dek toy_encrypt empty_db
      (record (turn_of 5) { key_ref = "gone" })
    ≡ refused key_destroyed
unfolding append
refuses_destroyed_key = refl

append-verify_example :
    (verify_session toy_sha256 toy_json one_event.audit_event 5 ≡ passed (0 + 1))
    × ((sid : ℕ)
        → (5 == sid) ≡ false
        → verify_session toy_sha256 toy_json one_event.audit_event sid
          ≡ verify_session toy_sha256 toy_json empty_db.audit_event sid)
append-verify_example =
    append-verify toy_sha256 toy_json toy_dek toy_encrypt empty_db (turn_of 5) event_one one_event
      appends 0 verifies_empty

toy_digest : (x : Bytes) → length (toy_sha256 x) ≡ 32
toy_digest x = refl

tamper_evident_example :
    SameRows toy_sha256 toy_json toy_digest
      (events one_event.audit_event 5)
      (events one_event.audit_event 5)
    ⊎ Collision toy_sha256
tamper_evident_example =
    tamper_evident toy_sha256 toy_json toy_digest one_event.audit_event one_event.audit_event 5 1
      verifies_one verifies_one refl

abbrev two_leaves : List Bytes
two_leaves = replicate 32 1 ∷ replicate 32 2 ∷ []

two_leaves-AllDigests : AllDigests toy_sha256 two_leaves
two_leaves-AllDigests = (refl, (refl, tt))

two_leaves_root : merkle_root toy_sha256 two_leaves ≡ some (replicate 32 0)
unfolding merkle_root root_within next_level
two_leaves_root = refl

merkle_root_total_example : (r : Bytes) × (merkle_root toy_sha256 two_leaves ≡ some r)
merkle_root_total_example = merkle_root_total toy_sha256 two_leaves

merkle_root_binds_example : (two_leaves ≡ two_leaves) ⊎ Collision toy_sha256
merkle_root_binds_example =
    merkle_root_binds toy_sha256 toy_digest two_leaves two_leaves (replicate 32 0)
      two_leaves-AllDigests two_leaves-AllDigests refl two_leaves_root two_leaves_root

abbrev id_bytes : ℕ → Bytes
id_bytes sid = replicate 15 0 ++ sid ∷ []

abbrev first_day : ChainAnchor
first_day = record {
  anchor_date = 0;
  root = replicate 32 0;
  sessions = 1;
  events = 1;
  created_at = day_us;
}

anchors_day :
    anchor_day toy_sha256 toy_json id_bytes one_event.audit_event [] 0 day_us
    ≡ some (
      anchored (record { root = replicate 32 0; sessions = 1; events = 1; is_written = true }),
      first_day ∷ [],
    )
unfolding anchor_day active_ids active_sessions before_end count_on add_id events of_session
    sorted_by_seq insert_by_seq all_verify verify_session verify_from chain_hash leaf merkle_root
    root_within settle_day find_anchor
anchors_day = refl

anchor_day_succeeds_example :
    let table = one_event.audit_event in
    let rows = active_sessions 0 table (active_ids 0 table) in
    (merkle_root toy_sha256 (leaves toy_sha256 toy_json id_bytes rows) ≡ some (replicate 32 0))
    × ((e : AuditEvent ℕ)
        → Memᴰ e table
        → occurs_on 0 e ≡ true
        → ((verify_session toy_sha256 toy_json table e.session_id).is_ok ≡ true)
          × Memᴰ
              (leaf toy_sha256
                (id_bytes e.session_id)
                (seq_and_hash (last_event (events (before_end 0 table) e.session_id))).1)
              (leaves toy_sha256 toy_json id_bytes rows))
    × (a : ChainAnchor) × (find_anchor 0 (first_day ∷ []) ≡ some a)
    × ((0 + 1) * day_us ≤ a.created_at → a.root ≡ replicate 32 0)
anchor_day_succeeds_example =
    anchor_day_succeeds toy_sha256 toy_json id_bytes one_event.audit_event [] 0 day_us
      (record { root = replicate 32 0; sessions = 1; events = 1; is_written = true })
      (first_day ∷ []) anchors_day
