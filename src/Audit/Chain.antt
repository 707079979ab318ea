-- ===== src/Audit/Chain.antt =====
-- audit/chain.py: the per-session hash chain. SHA-256, the canonical JSON of the hashed columns and
-- the envelope encryption are not under this repository: they are the section's parameters. A UUID
-- is its number, a timestamp its microseconds, a byte string the list of its bytes. The database
-- is the list of the rows of audit.audit_event in the order in which they were inserted.
use suraksha_setu.Prelude.{
  ℕ, String, Bool, true, false, not, ◌&&◌, ◌||◌, Option, none, some, List, [], ◌∷◌, ◌++◌, ◌+◌, ◌==◌,
  leb, if◌then◌else◌, replicate,
}

abbrev pub Bytes : Type 0
Bytes = List ℕ

pub data EventType : Type 0 where
  consent_captured consent_withdrawn turn_input guard_verdict model_call retrieval engine_decision
        state_transition response_released disclosure_ack handoff erasure_request kill_switch
        config_release sufficiency_election :
      EventType

abbrev pub event_number : EventType → ℕ
event_number consent_captured = 0
event_number consent_withdrawn = 1
event_number turn_input = 2
event_number guard_verdict = 3
event_number model_call = 4
event_number retrieval = 5
event_number engine_decision = 6
event_number state_transition = 7
event_number response_released = 8
event_number disclosure_ack = 9
event_number handoff = 10
event_number erasure_request = 11
event_number kill_switch = 12
event_number config_release = 13
event_number sufficiency_election = 14

abbrev pub same_event : EventType → EventType → Bool
same_event a b = event_number a == event_number b

-- `event_type in SYSTEM_EVENTS`
abbrev pub is_system_event : EventType → Bool
is_system_event t = same_event t config_release || same_event t kill_switch

abbrev pub genesis : Bytes
genesis = replicate 32 0

abbrev pub system_session : ℕ
system_session = 0

abbrev pub system_key_ref : String
system_key_ref = "system"

-- The columns that a row's hash covers in the clear: the keys of `hashed`.
pub record Hashed (Json : Type 0) : Type 0 where
  pub event_id : ℕ
  pub session_id : ℕ
  pub seq : ℕ
  pub event_type : EventType
  pub occurred_at : ℕ
  pub fsm_state : String
  pub pins : Json
  pub key_ref : String
  pub header : Json

pub record AuditEvent (Json : Type 0) : Type 0 where
  pub columns : Hashed Json
  pub open columns use *
  pub payload_enc : Bytes
  pub prev_hash : Bytes
  pub hash : Bytes

pub record VerifyResult : Type 0 where
  pub is_ok : Bool
  pub checked : ℕ
  pub first_bad_seq : Option ℕ
  pub gap_at : Option ℕ

abbrev pub same_bytes : Bytes → Bytes → Bool
same_bytes [] [] = true
same_bytes [] (y ∷ ys) = false
same_bytes (x ∷ xs) [] = false
same_bytes (x ∷ xs) (y ∷ ys) = x == y && same_bytes xs ys

module _ {Json : Type 0} where
  -- WHERE session_id = %s
  unfoldable pub of_session : ℕ → List (AuditEvent Json) → List (AuditEvent Json)
  of_session sid [] = []
  of_session sid (e ∷ es) =
      let rest = of_session sid es in if e.session_id == sid then e ∷ rest else rest

  -- ORDER BY seq
  unfoldable pub insert_by_seq : AuditEvent Json → List (AuditEvent Json) → List (AuditEvent Json)
  insert_by_seq e [] = e ∷ []
  insert_by_seq e (x ∷ xs) =
      let rest = insert_by_seq e xs in if leb e.seq x.seq then e ∷ x ∷ xs else x ∷ rest

  unfoldable pub sorted_by_seq : List (AuditEvent Json) → List (AuditEvent Json)
  unfolding insert_by_seq
  sorted_by_seq [] = []
  sorted_by_seq (e ∷ es) = insert_by_seq e (sorted_by_seq es)

  unfoldable pub events : List (AuditEvent Json) → ℕ → List (AuditEvent Json)
  unfolding of_session sorted_by_seq
  events table sid = sorted_by_seq (of_session sid table)

  -- ORDER BY seq DESC LIMIT 1
  abbrev pub last_event : List (AuditEvent Json) → Option (AuditEvent Json)
  last_event [] = none
  last_event (e ∷ []) = some e
  last_event (e ∷ x ∷ xs) = last_event (x ∷ xs)

  abbrev pub seq_and_hash : Option (AuditEvent Json) → ℕ × Bytes
  seq_and_hash none = (0, genesis)
  seq_and_hash (some e) = (e.seq, e.hash)

  -- The session's latest event; (0, genesis) for an empty chain.
  unfoldable pub tail : List (AuditEvent Json) → ℕ → ℕ × Bytes
  unfolding events
  tail table sid = seq_and_hash (last_event (events table sid))

  module _ (sha256 : Bytes → Bytes) (canonical_json : Hashed Json → Bytes) where
    -- What is hashed: prev_hash || JCS(hashed) || SHA-256(payload_enc).
    abbrev pub preimage : AuditEvent Json → Bytes
    preimage e = e.prev_hash ++ (canonical_json e.columns ++ sha256 e.payload_enc)

    unfoldable pub chain_hash : AuditEvent Json → Bytes
    chain_hash e = sha256 (preimage e)

    -- The loop of `verify_session`, from the hash before and the events checked so far.
    unfoldable pub verify_from : Bytes → ℕ → List (AuditEvent Json) → VerifyResult
    verify_from prev checked [] = record {
      is_ok = true;
      checked = checked;
      first_bad_seq = none;
      gap_at = none;
    }
    verify_from prev checked (e ∷ es) =
        let rest = verify_from e.hash (checked + 1) es in
        if not (e.seq == checked + 1)
        then record {
          is_ok = false;
          checked = checked;
          first_bad_seq = none;
          gap_at = some (checked + 1);
        }
        else if not (same_bytes e.prev_hash prev) || not (same_bytes (chain_hash e) e.hash)
        then record { is_ok = false; checked = checked; first_bad_seq = some e.seq; gap_at = none }
        else rest

    unfoldable pub verify_session : List (AuditEvent Json) → ℕ → VerifyResult
    verify_session table sid = verify_from genesis 0 (events table sid)
