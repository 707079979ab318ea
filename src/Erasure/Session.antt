-- ===== src/Erasure/Session.antt =====
-- graph/handlers/data_erasure.py: the node, and the deletion of a session. A row of the live tables is
-- its table and the session that it belongs to; an acknowledgement is its recommendation's session's.
use suraksha_setu.Prelude.{
  ℕ, String, ◌+◌, Bool, true, false, ◌&&◌, Option, none, some, List, [], ◌∷◌, ◌==◌, ◌str_eq◌,
  if◌then◌else◌,
}
use suraksha_setu.Crypto.Keys.{
  KeyService, Written, done, unknown_key_ref, system_key_kept, destroy, schedule_destruction,
}

pub data Table : Type 0 where
  disclosure_ack recommendation handoff slot_value turn session checkpoint_writes checkpoint_blobs
        checkpoints :
      Table

abbrev table_number : Table → ℕ
table_number disclosure_ack = 0
table_number recommendation = 1
table_number handoff = 2
table_number slot_value = 3
table_number turn = 4
table_number session = 5
table_number checkpoint_writes = 6
table_number checkpoint_blobs = 7
table_number checkpoints = 8

abbrev pub same_table : Table → Table → Bool
same_table a b = table_number a == table_number b

-- The status and the key are those of a row of the session table.
pub record LiveRow : Type 0 where
  pub table : Table
  pub session_id : String
  pub status : String
  pub key_ref : String

pub data Reason : Type 0 where
  withdraw minor : Reason

abbrev pub is_minor : Reason → Bool
is_minor minor = true
is_minor withdraw = false

pub data Withdrawal : Type 0 where
  recorded pending no_consent : Withdrawal

-- The events of the chain that the erasure reads or writes; an ERASURE_REQUEST with the session, its
-- key, the reason and what became of the withdrawal.
pub data Event : Type 0 where
  erasure_request : String → String → Reason → Withdrawal → Event
  consent_withdrawn : String → Event

abbrev pub is_of : Table → String → LiveRow → Bool
is_of t sid r = same_table r.table t && (r.session_id str_eq sid)

-- One of `_DELETES`.
unfoldable pub delete : Table → String → List LiveRow → List LiveRow
delete t sid [] = []
delete t sid (r ∷ rs) = let rest = delete t sid rs in if is_of t sid r then rest else r ∷ rest

-- `_DELETES`, in order.
abbrev pub deletes : List Table
deletes =
    disclosure_ack ∷ recommendation ∷ handoff ∷ slot_value ∷ turn ∷ session ∷ checkpoint_writes
    ∷ checkpoint_blobs ∷ checkpoints ∷ []

unfoldable pub delete_each : List Table → String → List LiveRow → List LiveRow
unfolding delete
delete_each [] sid rows = rows
delete_each (t ∷ ts) sid rows = delete_each ts sid (delete t sid rows)

-- `erase_session`, in one transaction.
unfoldable pub erase_session : String → List LiveRow → List LiveRow
unfolding delete_each
erase_session sid rows = delete_each deletes sid rows

pub record World : Type 0 where
  pub rows : List LiveRow
  pub keys : KeyService
  pub events : List Event

pub data Swept : Type 0 where
  swept raised : World → Swept

abbrev pub with_keys : Written → World → Swept
with_keys (done ks) w = swept (record w { keys = ks })
with_keys unknown_key_ref w = raised w
with_keys system_key_kept w = raised w

abbrev pub erase_key : ℕ → ℕ → Reason → String → KeyService → Written
erase_key now retention minor k ks = destroy now k ks
erase_key now retention withdraw k ks = schedule_destruction k (now + retention) ks

-- `erase`
unfoldable pub erase : ℕ → ℕ → String → String → Reason → World → Swept
unfolding erase_session destroy schedule_destruction
erase now retention sid k reason w =
    with_keys (erase_key now retention reason k w.keys)
      (record w { rows = erase_session sid w.rows })

pub record Consent : Type 0 where
  pub consent_id : String
  pub is_withdrawn : Bool

pub record Erasing : Type 0 where
  pub consent : Option Consent
  pub events : List Event
  pub parts : List String

abbrev part_of : Reason → Withdrawal → String
part_of minor w = "minor_exit"
part_of withdraw pending = "erasure_pending"
part_of withdraw _ = "erasure_done"

abbrev requested : String → String → Reason → Withdrawal → Option Consent → List Event → Erasing
requested sid k reason w consent more = record {
  consent = consent;
  events = erasure_request sid k reason w ∷ more;
  parts = part_of reason w ∷ [];
}

abbrev asked : String → String → Reason → Consent → Option Consent → Erasing
asked sid k reason c none = requested sid k reason pending (some c) []
asked sid k reason c (some record') =
    requested sid k reason recorded (some record') (consent_withdrawn sid ∷ [])

-- `node`: the withdrawal is asked of the Consent Service, which answers with the record or fails.
unfoldable pub node :
    String → String → Reason → (Consent → Option Consent) → Option Consent → Erasing
node sid k reason withdraw_consent none = requested sid k reason no_consent none []
node sid k reason withdraw_consent (some c) =
    if c.is_withdrawn
    then requested sid k reason recorded (some c) []
    else asked sid k reason c (withdraw_consent c)
