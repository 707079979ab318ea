-- ===== src/Crypto/Keys.antt =====
-- crypto/keys.py: LocalKeyService. The table keyvault.subject_key is a dictionary by its primary
-- key; the cache is the service's own. Time is in milliseconds: `now` is the reading of the
-- monotonic clock at the start of a call, `later` the one that `dek` takes when it caches.
use suraksha_setu.Prelude.{
  ℕ, String, Bool, true, false, not, ◌&&◌, Option, none, some, List, [], ◌∷◌, ◌+◌, ltb, leb,
  ◌str_eq◌, if◌then◌else◌,
}
use suraksha_setu.Prelude.Dict.{lookup, insert}
use suraksha_setu.Crypto.Envelope.{Octets, Opened, encrypt, decrypt}

abbrev pub system_key : String
system_key = "system"

abbrev pub dek_cache_ms : ℕ
dek_cache_ms = 60000

pub record SubjectKey : Type 0 where
  pub subject_ref : ℕ
  pub wrapped_dek : Option Octets
  pub kek_id : String
  pub destroy_after : Option ℕ
  pub destroyed_at : Option ℕ

pub record KeyService : Type 0 where
  pub subject_key : List (String × SubjectKey)
  pub cache : List (String × (Octets × ℕ))

pub data DekResult : Type 0 where
  found : Octets → DekResult
  key_destroyed unknown_key other_kek unreadable : DekResult

pub data Written : Type 0 where
  done : KeyService → Written
  unknown_key_ref system_key_kept : Written

-- `dict.pop(k, None)`
unfoldable pub pop : String → List (String × (Octets × ℕ)) → List (String × (Octets × ℕ))
pop k [] = []
pop k ((j, v) ∷ m) = let rest = pop k m in if j str_eq k then rest else (j, v) ∷ rest

-- INSERT ... ON CONFLICT (key_ref) DO NOTHING
abbrev pub insert_new :
    Option SubjectKey
    → String
    → SubjectKey
    → List (String × SubjectKey)
    → List (String × SubjectKey)
insert_new none k row table = insert k row table
insert_new (some old) k row table = table

-- The cached key while it has not expired.
abbrev pub unexpired : ℕ → Option (Octets × ℕ) → Option Octets
unexpired now none = none
unexpired now (some (dek, expires)) = if ltb now expires then some dek else none

-- `coalesce(destroyed_at, now())`
abbrev pub coalesce : Option ℕ → ℕ → Option ℕ
coalesce none now = some now
coalesce (some t) now = some t

abbrev pub due_key : ℕ → SubjectKey → Bool
due_key now row = elim row.destroy_after [
  | none ↦ false
  | some after ↦ leb after now && (elim row.destroyed_at [ none ↦ true | some t ↦ false ])
]

-- `destroy_after <= now AND destroyed_at IS NULL AND key_ref <> 'system'`
abbrev pub is_due : ℕ → String → SubjectKey → Bool
is_due now k row = due_key now row && not (k str_eq system_key)

unfoldable pub schedule_destruction : String → ℕ → KeyService → Written
schedule_destruction k after s = elim (lookup k s.subject_key) [
  | none ↦ unknown_key_ref
  | some row ↦ done (record s {
    subject_key = insert k (record row { destroy_after = some after }) s.subject_key;
  })
]

unfoldable pub destroy : ℕ → String → KeyService → Written
destroy now k s = if k str_eq system_key then system_key_kept else (elim (lookup k s.subject_key) [
  | none ↦ unknown_key_ref
  | some row ↦ done (record {
    subject_key =
        insert k (record row { wrapped_dek = none; destroyed_at = coalesce row.destroyed_at now })
          s.subject_key;
    cache = pop k s.cache;
  })
])

abbrev destroyed_row : ℕ → SubjectKey → SubjectKey
destroyed_row now row = record row { wrapped_dek = none; destroyed_at = some now }

-- The rows after the UPDATE of `destroy_due`, and the cache without the keys that it returns.
unfoldable pub shred_due : ℕ → List (String × SubjectKey) → List (String × SubjectKey)
shred_due now [] = []
shred_due now ((k, row) ∷ m) =
    let rest = shred_due now m in
    if is_due now k row then (k, destroyed_row now row) ∷ rest else (k, row) ∷ rest

unfoldable pub pop_due :
    ℕ → List (String × SubjectKey) → List (String × (Octets × ℕ)) → List (String × (Octets × ℕ))
unfolding pop
pop_due now [] cache = cache
pop_due now ((k, row) ∷ m) cache =
    let rest = pop_due now m cache in if is_due now k row then pop k rest else rest

unfoldable pub destroy_due : ℕ → KeyService → KeyService
unfolding shred_due pop_due
destroy_due now s = record {
  subject_key = shred_due now s.subject_key;
  cache = pop_due now s.subject_key s.cache;
}

module _ (seal : Octets → Octets → Octets → String → Octets)
    (unseal : Octets → Octets → Octets → String → Option Octets) (kek : Octets)
    (own_kek_id : String) where
  -- `_insert`, with the key and the nonce that it draws.
  unfoldable pub insert_key :
      String → ℕ → Octets → Octets → List (String × SubjectKey) → List (String × SubjectKey)
  unfolding encrypt
  insert_key k subject dek nonce table =
      insert_new (lookup k table) k
        (record {
          subject_ref = subject;
          wrapped_dek = some (encrypt seal unseal kek nonce dek k);
          kek_id = own_kek_id;
          destroy_after = none;
          destroyed_at = none;
        })
        table

  -- `create_subject_key`, with the uuid7 that it draws for the key.
  unfoldable pub create_subject_key : String → ℕ → Octets → Octets → KeyService → KeyService
  unfolding insert_key
  create_subject_key uuid7 subject dek nonce s = record s {
    subject_key = insert_key uuid7 subject dek nonce s.subject_key;
  }

  abbrev pub unwrapped : ℕ → String → KeyService → Opened → DekResult × KeyService
  unwrapped later k s (Opened.plaintext dek) =
      (found dek, record s { cache = insert k (dek, later + dek_cache_ms) s.cache })
  unwrapped later k s _ = (unreadable, s)

  unfoldable pub read_row : ℕ → String → KeyService → Option SubjectKey → DekResult × KeyService
  unfolding decrypt
  read_row later k s none = (unknown_key, s)
  read_row later k s (some row) = elim row.wrapped_dek [
    | none ↦ (key_destroyed, s)
    | some wrapped ↦
        if not (row.kek_id str_eq own_kek_id)
        then (other_kek, s)
        else unwrapped later k s (decrypt seal unseal kek wrapped k)
  ]

  -- The system key is made when it is first asked for.
  abbrev pub with_system : String → Octets → Octets → KeyService → KeyService
  with_system k dek nonce s = elim (lookup k s.subject_key) [
    | none ↦ if k str_eq system_key then create_subject_key k 0 dek nonce s else s
    | some row ↦ s
  ]

  abbrev pub cached_or :
      ℕ → String → Octets → Octets → KeyService → Option Octets → DekResult × KeyService
  cached_or later k new_dek nonce s (some dek) = (found dek, s)
  cached_or later k new_dek nonce s none =
      let s' = with_system k new_dek nonce s in read_row later k s' (lookup k s'.subject_key)

  unfoldable pub dek : ℕ → ℕ → String → Octets → Octets → KeyService → DekResult × KeyService
  unfolding read_row create_subject_key
  dek now later k new_dek nonce s =
      cached_or later k new_dek nonce s (unexpired now (lookup k s.cache))
