-- ===== src/Audit/Append.antt =====
-- audit/chain.py: append, and what it keeps of every session's chain. `dek` is what the key service
-- answers for a key at the call, `encrypt` the payload's envelope.
use suraksha_setu.Prelude.{
  ℕ, String, ◌≡◌, Bool, true, false, not, ◌&&◌, ◌||◌, List, [], ◌∷◌, ◌++◌, ◌+◌, ◌==◌, ◌str_eq◌,
  if◌then◌else◌, length, length-append, arith, refl, sym, ap, ◌∙◌,
}
use suraksha_setu.Crypto.Envelope.{Octets}
use suraksha_setu.Crypto.Keys.{DekResult}
use suraksha_setu.Audit.Linked.{
  passed, chain_end, tail-chain_end, events-other, events-last, Linked, verify_from-Linked,
  Linked-verify_from, Linked-SeqsBelow, Linked-last, chain_end-seq,
}
use suraksha_setu.Audit.Chain.{
  Bytes, EventType, same_event, is_system_event, genesis, system_session, system_key_ref, Hashed,
  AuditEvent, events, tail, chain_hash, verify_from, verify_session,
}

pub data AppendError : Type 0 where
  type_error value_error runtime_error key_destroyed lookup_error invalid_tag : AppendError

-- The connection, as `append` reads it: whether it commits by itself, and whether a transaction is
-- open on it.
pub record Conn (Json : Type 0) : Type 0 where
  pub autocommit : Bool
  pub in_transaction : Bool
  pub audit_event : List (AuditEvent Json)

pub data Appended (Json : Type 0) : Type 0 where
  appended : AuditEvent Json → Conn Json → Appended Json
  refused : AppendError → Appended Json

-- A header model, by the event type whose model it is in `HEADERS`.
pub record Header (Json : Type 0) : Type 0 where
  pub model_of : EventType
  pub dump : Json

-- The arguments of `append`, with what it reads of the clock and the id generator.
pub record Request (Json : Type 0) : Type 0 where
  pub session_id : ℕ
  pub event_type : EventType
  pub fsm_state : String
  pub pins : Json
  pub header : Header Json
  pub payload : Json
  pub key_ref : String
  pub uuid7 : ℕ
  pub now : ℕ

abbrev pub xor : Bool → Bool → Bool
xor true b = not b
xor false b = b

module _ {Json : Type 0} (sha256 : Bytes → Bytes) (canonical_json : Hashed Json → Bytes)
    (dek : String → DekResult) (encrypt : Octets → Json → ℕ → ℕ → Bytes) where
  -- The row that `append` inserts, with the payload under the key, behind a chain that ends in
  -- (seq, prev_hash).
  abbrev pub next_event : Request Json → Octets → ℕ × Bytes → AuditEvent Json
  next_event q key (last_seq, prev) =
      let columns : Hashed Json = record {
        event_id = q.uuid7;
        session_id = q.session_id;
        seq = last_seq + 1;
        event_type = q.event_type;
        occurred_at = q.now;
        fsm_state = q.fsm_state;
        pins = q.pins;
        key_ref = q.key_ref;
        header = q.header.dump;
      } in
      let payload_enc = encrypt key q.payload q.session_id (last_seq + 1) in
      let unhashed : AuditEvent Json = record {
        columns = columns;
        payload_enc = payload_enc;
        prev_hash = prev;
        hash = [];
      } in
      record {
        columns = columns;
        payload_enc = payload_enc;
        prev_hash = prev;
        hash = chain_hash sha256 canonical_json unhashed;
      }

  -- With what `keys.dek` answers of the request's key.
  abbrev pub with_key : Conn Json → Request Json → DekResult → Appended Json
  with_key conn q (DekResult.found key) =
      let event = next_event q key (tail conn.audit_event q.session_id) in
      appended event (record conn { audit_event = conn.audit_event ++ event ∷ [] })
  with_key conn q DekResult.key_destroyed = refused key_destroyed
  with_key conn q DekResult.unknown_key = refused lookup_error
  with_key conn q DekResult.other_kek = refused lookup_error
  with_key conn q DekResult.unreadable = refused invalid_tag

  unfoldable pub append : Conn Json → Request Json → Appended Json
  append conn q =
      let is_system = q.session_id == system_session in
      if not (same_event q.header.model_of q.event_type)
      then refused type_error
      else if xor (is_system_event q.event_type) is_system
          || xor is_system (q.key_ref str_eq system_key_ref)
      then refused value_error
      else if conn.autocommit && not conn.in_transaction
      then refused runtime_error
      else with_key conn q (dek q.key_ref)

  -- The hash of the new row is that of its columns, its number follows the last one, and it carries
  -- the last hash.
  next_event-Linked :
      (q : Request Json) (key : Octets) (end : ℕ × Bytes)
      → Linked sha256 canonical_json end.1 end.0 (next_event q key end ∷ [])
  unfolding chain_hash
  next_event-Linked q key end = (refl, refl, refl, tt)

  verify-length :
      (es : List (AuditEvent Json)) (n : ℕ)
      → Linked sha256 canonical_json genesis 0 es
      → verify_from sha256 canonical_json genesis 0 es ≡ passed n
      → length es ≡ n
  verify-length es n l h =
      let same : passed (0 + length es) ≡ passed n =
        sym (Linked-verify_from sha256 canonical_json genesis 0 es l) ∙ h in
      omega (arith, ap (λ r. r.checked) same)

  -- One more row of a session behind a chain of it that verifies.
  grown-verify :
      (table : List (AuditEvent Json)) (q : Request Json) (key : Octets) (n : ℕ)
      → verify_session sha256 canonical_json table q.session_id ≡ passed n
      → verify_session sha256 canonical_json
          (table ++ next_event q key (tail table q.session_id) ∷ [])
          q.session_id
        ≡ passed (n + 1)
  unfolding verify_session
  grown-verify table q key n h =
      let es = events table q.session_id in
      let end = chain_end genesis 0 es in
      let row = next_event q key end in
      let linked = verify_from-Linked sha256 canonical_json genesis 0 es (rw h) in
      let count : length es ≡ n = verify-length es n linked h in
      let last : end.0 ≡ 0 + length es = chain_end-seq sha256 canonical_json genesis 0 es linked in
      let below =
        Linked-SeqsBelow sha256 canonical_json genesis 0 (end.0 + 1) es linked (omega arith) in
      let grown =
        Linked-last sha256 canonical_json genesis 0 es row linked (next_event-Linked q key end) in
      let size : length (es ++ row ∷ []) ≡ length es + 1 = length-append es (row ∷ []) in
      rw (tail-chain_end table q.session_id) (
        rw (events-last q.session_id row table (ground arith) below) (
          Linked-verify_from sha256 canonical_json genesis 0 (es ++ row ∷ []) grown
          ∙ ap passed (omega arith)))

  with_key-append :
      (conn : Conn Json) (q : Request Json) (e : AuditEvent Json) (after : Conn Json)
      (answer : DekResult)
      → with_key conn q answer ≡ appended e after
      → (key : Octets) × (after.audit_event
          ≡ conn.audit_event ++ next_event q key (tail conn.audit_event q.session_id) ∷ [])
  with_key-append conn q e after (DekResult.found key) h = (key, ground arith)
  with_key-append conn q e after DekResult.key_destroyed h = absurd (ground arith)
  with_key-append conn q e after DekResult.unknown_key h = absurd (ground arith)
  with_key-append conn q e after DekResult.other_kek h = absurd (ground arith)
  with_key-append conn q e after DekResult.unreadable h = absurd (ground arith)

  module _ (conn : Conn Json) (q : Request Json) (e : AuditEvent Json) (after : Conn Json)
      (done : append conn q ≡ appended e after) where
    table-append :
        (key : Octets) × (after.audit_event
          ≡ conn.audit_event ++ next_event q key (tail conn.audit_event q.session_id) ∷ [])
    unfolding append
    table-append = with_key-append conn q e after (dek q.key_ref) (ground arith)

    -- An append into a session whose chain verifies leaves a chain that verifies and has one event
    -- more, and the chains of the other sessions are verified as they were.
    pub append-verify :
        (n : ℕ)
        → verify_session sha256 canonical_json conn.audit_event q.session_id ≡ passed n
        → (verify_session sha256 canonical_json after.audit_event q.session_id ≡ passed (n + 1))
          × ((sid : ℕ)
              → (q.session_id == sid) ≡ false
              → verify_session sha256 canonical_json after.audit_event sid
                ≡ verify_session sha256 canonical_json conn.audit_event sid)
    unfolding verify_session
    append-verify n h =
        let (key, inserted) = table-append in
        (
          rw inserted (grown-verify conn.audit_event q key n h),
          λ sid other.
              let row = next_event q key (tail conn.audit_event q.session_id) in
              rw inserted (rw (events-other sid row conn.audit_event other)),
        )
