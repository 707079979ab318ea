-- ===== src/Erasure/KeysKept.antt =====
-- graph/handlers/data_erasure.py: the keys that the sweep goes on with.
use mathlib.Core.Path.{subst}
use suraksha_setu.Prelude.{
  ℕ, String, ◌+◌, ◌≡◌, refl, true, false, Option, none, some, List, [], ◌∷◌, ◌str_eq◌, eq_iff,
  arith, Bool-cases, inl, inr, ◌⊎◌, sym,
}
use suraksha_setu.Prelude.Dict.{lookup, insert, lookup-insert}
use suraksha_setu.Crypto.Keys.{
  KeyService, SubjectKey, Written, done, system_key, coalesce, pop, destroy, schedule_destruction,
  DekResult, found, key_destroyed, dek, read_row, unexpired, cached_or, with_system,
}
use suraksha_setu.Crypto.Envelope.{Octets, Opened, decrypt}
use suraksha_setu.Erasure.Session.{Reason, withdraw, minor, erase_key}

module _ (seal : Octets → Octets → Octets → String → Octets)
    (unseal : Octets → Octets → Octets → String → Option Octets) (kek : Octets)
    (own_kek_id : String) where
  -- What is stored for a key: nothing any more, or the key wrapped by this service, which opens.
  abbrev pub StoredKey : String → String → Option Octets → Type 0
  StoredKey k kek_id none = Unit
  StoredKey k kek_id (some wrapped) =
      ((kek_id str_eq own_kek_id) ≡ true)
      × ((plain : Octets) × (decrypt seal unseal kek wrapped k ≡ Opened.plaintext plain))

  abbrev pub SoundRow : String → Option SubjectKey → Type 0
  SoundRow k none = true ≡ false
  SoundRow k (some row) = StoredKey k row.kek_id row.wrapped_dek

  -- The key has a row, and is destroyed or opens; and it is not the system's.
  abbrev pub HasKey : KeyService → String → Type 0
  HasKey ks k = ((k str_eq system_key) ≡ false) × SoundRow k (lookup k ks.subject_key)

  abbrev pub DestroyedRow : Option SubjectKey → Type 0
  DestroyedRow none = true ≡ false
  DestroyedRow (some row) = row.wrapped_dek ≡ none

  abbrev pub IsDestroyed : KeyService → String → Type 0
  IsDestroyed ks k = DestroyedRow (lookup k ks.subject_key)

  abbrev pub AllKeys : KeyService → List (String × String) → Type 0
  AllKeys ks [] = Unit
  AllKeys ks ((sid, k) ∷ ids) = HasKey ks k × AllKeys ks ids

  pub later-AllKeys :
      (before after : KeyService) (ids : List (String × String))
      → ((j : String) → HasKey before j → HasKey after j)
      → AllKeys before ids
      → AllKeys after ids
  later-AllKeys before after [] k h = tt
  later-AllKeys before after ((sid, j) ∷ ids) k h = (k j h.0, later-AllKeys before after ids k h.1)

  has_row :
      (k : String) (o : Option SubjectKey)
      → SoundRow k o
      → (row : SubjectKey) × ((o ≡ some row) × SoundRow k (some row))
  has_row k none h = absurd (ground arith)
  has_row k (some row) h = (row, (refl, h))

  insert-SoundRow :
      (k j : String) (new : SubjectKey) (table : List (String × SubjectKey))
      → SoundRow k (some new)
      → SoundRow j (lookup j table)
      → SoundRow j (lookup j (insert k new table))
  insert-SoundRow k j new table n h =
      let at = lookup-insert table k j new in
      elim (Bool-cases (k str_eq j)) [
        | inr s ↦ rw (at, s) h
        | inl s ↦
            let same : k ≡ j = (eq_iff k j).0 s in
            let here : SoundRow j (some new) = rw (sym same) n in rw (at, s) here
      ]

  abbrev pub Erased : KeyService → Written → Type 0
  Erased ks r =
      (after : KeyService) × ((r ≡ done after) × ((j : String) → HasKey ks j → HasKey after j))

  schedule-done :
      (k : String) (after : ℕ) (row : SubjectKey) (ks : KeyService)
      → lookup k ks.subject_key ≡ some row
      → schedule_destruction k after ks
        ≡ done (record ks {
          subject_key = insert k (record row { destroy_after = some after }) ks.subject_key;
        })
  unfolding schedule_destruction
  schedule-done k after row ks e = rw (e, schedule_destruction) refl

  destroy-done :
      (now : ℕ) (k : String) (row : SubjectKey) (ks : KeyService)
      → (k str_eq system_key) ≡ false
      → lookup k ks.subject_key ≡ some row
      → destroy now k ks
        ≡ done (record {
          subject_key =
              insert k
                (record row { wrapped_dek = none; destroyed_at = coalesce row.destroyed_at now })
                ks.subject_key;
          cache = pop k ks.cache;
        })
  unfolding destroy
  destroy-done now k row ks n e = rw (n, e) refl

  pub erase_key-Erased :
      (now retention : ℕ) (reason : Reason) (k : String) (ks : KeyService)
      → HasKey ks k
      → Erased ks (erase_key now retention reason k ks)
  erase_key-Erased now retention withdraw k ks h =
      let (row, (e, sound)) = has_row k (lookup k ks.subject_key) h.1 in
      let new = record row { destroy_after = some (now + retention) } in
      (
        _,
        (
          schedule-done k (now + retention) row ks e,
          λ j held. (held.0, insert-SoundRow k j new ks.subject_key sound held.1),
        ),
      )
  erase_key-Erased now retention minor k ks h =
      let (row, (e, sound)) = has_row k (lookup k ks.subject_key) h.1 in
      let new = record row { wrapped_dek = none; destroyed_at = coalesce row.destroyed_at now } in
      (
        _,
        (
          destroy-done now k row ks h.0 e,
          λ j held. (held.0, insert-SoundRow k j new ks.subject_key tt held.1),
        ),
      )

  module _ (mono later : ℕ) (new_dek nonce : Octets) where
    -- A call of `dek`, by the readings of the monotonic clock and what it would draw for a new system
    -- key.
    abbrev pub ask : String → KeyService → DekResult × KeyService
    ask k ks = dek seal unseal kek own_kek_id mono later k new_dek nonce ks

    -- What it answers of such a key, the rows being as they were.
    abbrev pub Answers : String → KeyService → DekResult × KeyService → Type 0
    Answers k ks r =
        ((held : Octets) × ((r.0 ≡ found held) × (r.1.subject_key ≡ ks.subject_key)))
        ⊎ ((r.0 ≡ key_destroyed) × ((r.1.subject_key ≡ ks.subject_key) × IsDestroyed ks k))

    unwrapped-Answers :
        (k : String) (ks : KeyService) (row : SubjectKey) (o : Option Octets)
        → lookup k ks.subject_key ≡ some row
        → row.wrapped_dek ≡ o
        → StoredKey k row.kek_id o
        → Answers k ks (read_row seal unseal kek own_kek_id later k ks (some row))
    unfolding read_row
    unwrapped-Answers k ks row none e w h = rw (w, e) (inr (refl, (refl, w)))
    unwrapped-Answers k ks row (some wrapped) e w (own, (plain, opens)) =
        rw (w, own, opens) (inl (plain, (refl, refl)))

    read-Answers :
        (k : String) (ks with_it : KeyService) (row : SubjectKey)
        → with_it ≡ ks
        → lookup k ks.subject_key ≡ some row
        → SoundRow k (some row)
        → Answers k ks
            (read_row seal unseal kek own_kek_id later k with_it (lookup k with_it.subject_key))
    read-Answers k ks with_it row same e h = rw same (
        let read : Answers k ks
            (read_row seal unseal kek own_kek_id later k ks (lookup k ks.subject_key)) =
          subst (λ o. Answers k ks (read_row seal unseal kek own_kek_id later k ks o)) (sym e)
            (unwrapped-Answers k ks row row.wrapped_dek e refl h) in
        read)

    cached-Answers :
        (k : String) (ks : KeyService) (o : Option Octets) (row : SubjectKey)
        → lookup k ks.subject_key ≡ some row
        → SoundRow k (some row)
        → Answers k ks (cached_or seal unseal kek own_kek_id later k new_dek nonce ks o)
    cached-Answers k ks (some held) row e h = inl (held, (refl, refl))
    cached-Answers k ks none row e h =
        let same : with_system seal unseal kek own_kek_id k new_dek nonce ks ≡ ks =
          rw (with_system, e) refl in
        read-Answers k ks (with_system seal unseal kek own_kek_id k new_dek nonce ks) row same e h

    pub ask-Answers : (k : String) (ks : KeyService) → HasKey ks k → Answers k ks (ask k ks)
    unfolding dek
    ask-Answers k ks h =
        let (row, (e, sound)) = has_row k (lookup k ks.subject_key) h.1 in
        cached-Answers k ks (unexpired mono (lookup k ks.cache)) row e sound
