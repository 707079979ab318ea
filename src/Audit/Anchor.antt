-- ===== src/Audit/Anchor.antt =====
-- audit/anchor.py: anchor_day, over the rows of audit.audit_event and of audit.chain_anchor. A day is
-- its number, a timestamp its microseconds since day 0; the object of the object store and the
-- signature of the time stamp are left out, being copies of what the row holds. A UUID is its
-- number, which orders as its bytes do.
use suraksha_setu.Prelude.{
  ℕ, Bool, true, false, not, ◌&&◌, Option, none, some, List, [], ◌∷◌, ◌++◌, ◌+◌, ◌*◌, ◌==◌, ltb,
  leb, if◌then◌else◌, length,
}
use suraksha_setu.Audit.Chain.{
  Bytes, Hashed, AuditEvent, same_bytes, last_event, seq_and_hash, events, verify_session,
}
use suraksha_setu.Audit.Merkle.{leaf, merkle_root}

abbrev pub day_us : ℕ
day_us = 86400000000

-- A row of audit.chain_anchor.
pub record ChainAnchor : Type 0 where
  pub anchor_date : ℕ
  pub root : Bytes
  pub sessions : ℕ
  pub events : ℕ
  pub created_at : ℕ

-- What the call returns; `is_written` says that it wrote the object.
pub record Anchor : Type 0 where
  pub root : Bytes
  pub sessions : ℕ
  pub events : ℕ
  pub is_written : Bool

pub data AnchorOutcome : Type 0 where
  anchored : Anchor → AnchorOutcome
  chain_broken : AnchorOutcome

pub record ActiveSession : Type 0 where
  pub session_id : ℕ
  pub count : ℕ
  pub last_hash : Bytes

unfoldable pub find_anchor : ℕ → List ChainAnchor → Option ChainAnchor
find_anchor day [] = none
find_anchor day (a ∷ rows) =
    let rest = find_anchor day rows in if a.anchor_date == day then some a else rest

-- A session id into an ascending list of ids without repetitions.
unfoldable pub add_id : ℕ → List ℕ → List ℕ
add_id i [] = i ∷ []
add_id i (j ∷ js) =
    let rest = add_id i js in if i == j then j ∷ js else if ltb i j then i ∷ j ∷ js else j ∷ rest

module _ {Json : Type 0} where
  abbrev pub occurs_on : ℕ → AuditEvent Json → Bool
  occurs_on day e = leb (day * day_us) e.occurred_at && ltb e.occurred_at ((day + 1) * day_us)

  -- `SELECT DISTINCT session_id ... WHERE occurred_at >= start AND occurred_at < end`, in order.
  unfoldable pub active_ids : ℕ → List (AuditEvent Json) → List ℕ
  unfolding add_id
  active_ids day [] = []
  active_ids day (e ∷ es) =
      let rest = active_ids day es in if occurs_on day e then add_id e.session_id rest else rest

  unfoldable pub before_end : ℕ → List (AuditEvent Json) → List (AuditEvent Json)
  before_end day [] = []
  before_end day (e ∷ es) =
      let rest = before_end day es in
      if ltb e.occurred_at ((day + 1) * day_us) then e ∷ rest else rest

  unfoldable pub count_on : ℕ → List (AuditEvent Json) → ℕ
  count_on day [] = 0
  count_on day (e ∷ es) = let rest = count_on day es in if occurs_on day e then 1 + rest else rest

  -- One row of the query's result for each active session.
  unfoldable pub active_sessions : ℕ → List (AuditEvent Json) → List ℕ → List ActiveSession
  unfolding before_end count_on
  active_sessions day table [] = []
  active_sessions day table (sid ∷ sids) =
      let es = events (before_end day table) sid in
      record {
        session_id = sid;
        count = count_on day es;
        last_hash = (seq_and_hash (last_event es)).1;
      }
      ∷ active_sessions day table sids

abbrev pub total_count : List ActiveSession → ℕ
total_count [] = 0
total_count (r ∷ rs) = r.count + total_count rs

-- From the root on: an anchored day is compared, another one is written.
unfoldable pub settle_day :
    List ChainAnchor
    → ℕ
    → ℕ
    → List ActiveSession
    → Bytes
    → Option ChainAnchor
    → AnchorOutcome × List ChainAnchor
settle_day anchors day now rows root (some existing) =
    if not (same_bytes existing.root root) && leb ((day + 1) * day_us) existing.created_at
    then (chain_broken, anchors)
    else (
      anchored (record {
        root = root;
        sessions = length rows;
        events = total_count rows;
        is_written = false;
      }),
      anchors,
    )
settle_day anchors day now rows root none = (
  anchored (record {
    root = root;
    sessions = length rows;
    events = total_count rows;
    is_written = true;
  }),
  anchors
      ++ record {
        anchor_date = day;
        root = root;
        sessions = length rows;
        events = total_count rows;
        created_at = now;
      }
        ∷ [],
)

abbrev pub with_root :
    List ChainAnchor
    → ℕ
    → ℕ
    → List ActiveSession
    → Option Bytes
    → Option (AnchorOutcome × List ChainAnchor)
with_root anchors day now rows none = none
with_root anchors day now rows (some root) =
    some (settle_day anchors day now rows root (find_anchor day anchors))

module _ {Json : Type 0} (sha256 : Bytes → Bytes) (canonical_json : Hashed Json → Bytes)
    (session_bytes : ℕ → Bytes) where
  abbrev pub leaves : List ActiveSession → List Bytes
  leaves [] = []
  leaves (r ∷ rs) = leaf sha256 (session_bytes r.session_id) r.last_hash ∷ leaves rs

  unfoldable pub all_verify : List (AuditEvent Json) → List ActiveSession → Bool
  all_verify table [] = true
  all_verify table (r ∷ rs) =
      (verify_session sha256 canonical_json table r.session_id).is_ok && all_verify table rs

  -- `none` is the Merkle loop out of fuel.
  unfoldable pub anchor_day :
      List (AuditEvent Json) → List ChainAnchor → ℕ → ℕ → Option (AnchorOutcome × List ChainAnchor)
  unfolding active_ids active_sessions all_verify settle_day find_anchor
  anchor_day table anchors day now =
      let rows = active_sessions day table (active_ids day table) in
      if not (all_verify table rows)
      then some (chain_broken, anchors)
      else with_root anchors day now rows (merkle_root sha256 (leaves rows))
