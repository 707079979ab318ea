-- ===== src/Crypto/Shredding.antt =====
-- crypto/keys.py: what a destruction leaves. A shredded key has a row without a wrapped key and no
-- entry in the cache.
use suraksha_setu.Prelude.{
  ℕ, String, ◌≡◌, ◌≤◌, refl, Bool, true, false, Option, none, some, List, [], ◌∷◌, ◌+◌, ◌str_eq◌,
  arith, length, eq_iff, Bool-cases, Option-cases, inl, inr,
}
use suraksha_setu.Prelude.Dict.{lookup, lookup-insert, lookup-insert_self}
use suraksha_setu.Crypto.Envelope.{Octets, Opened, encrypt, decrypt, decrypt-encrypt, nonce_bytes}
use suraksha_setu.Crypto.Keys.{
  dek_cache_ms, SubjectKey, KeyService, coalesce, unwrapped, found, key_destroyed, Written, done,
  pop, insert_new, unexpired, is_due, schedule_destruction, destroy, shred_due, pop_due,
  destroy_due, insert_key, create_subject_key, read_row, dek, with_system,
}

abbrev pub is_shredded : Option SubjectKey → Bool
is_shredded none = false
is_shredded (some row) = elim row.wrapped_dek [ none ↦ true | some wrapped ↦ false ]

abbrev pub Shredded : String → KeyService → Type 0
Shredded k s = (is_shredded (lookup k s.subject_key) ≡ true) × (lookup k s.cache ≡ none)

pub lookup-pop_self : (k : String) (m : List (String × (Octets × ℕ))) → lookup k (pop k m) ≡ none
unfolding lookup pop
lookup-pop_self k [] = refl
lookup-pop_self k ((j, v) ∷ m) = ground (arith, lookup-pop_self k m)

pub lookup-pop-none :
    (k j : String) (m : List (String × (Octets × ℕ)))
    → lookup k m ≡ none
    → lookup k (pop j m) ≡ none
unfolding lookup pop
lookup-pop-none k j [] h = refl
lookup-pop-none k j ((i, v) ∷ m) h = ground (arith, lookup-pop-none k j m)

lookup-shred_due :
    (now : ℕ) (k : String) (m : List (String × SubjectKey))
    → is_shredded (lookup k m) ≡ true
    → is_shredded (lookup k (shred_due now m)) ≡ true
unfolding lookup shred_due
lookup-shred_due now k [] h = h
lookup-shred_due now k ((j, row) ∷ m) h = ground (arith, lookup-shred_due now k m)

lookup-pop_due :
    (now : ℕ) (k : String) (m : List (String × SubjectKey)) (cache : List (String × (Octets × ℕ)))
    → lookup k cache ≡ none
    → lookup k (pop_due now m cache) ≡ none
unfolding pop_due
lookup-pop_due now k [] cache h = h
lookup-pop_due now k ((j, row) ∷ m) cache h = elim (Bool-cases (is_due now j row)) [
  | inl e ↦ rw e (lookup-pop-none k j (pop_due now m cache) (lookup-pop_due now k m cache h))
  | inr e ↦ rw e (lookup-pop_due now k m cache h)
]

insert_new-shredded :
    (m : List (String × SubjectKey)) (j k : String) (row : SubjectKey)
    → is_shredded (lookup k m) ≡ true
    → is_shredded (lookup k (insert_new (lookup j m) j row m)) ≡ true
insert_new-shredded m j k row h = let at = lookup-insert m j k row in ground (arith, eq_iff j k)

module _ (seal : Octets → Octets → Octets → String → Octets)
    (unseal : Octets → Octets → Octets → String → Option Octets) (kek : Octets)
    (own_kek_id : String) where
  -- A destroyed key is shredded, and so is unreadable at once and at every later time, by the
  -- service that destroyed it.
  pub destroy-Shredded :
      (now : ℕ) (k : String) (s after : KeyService)
      → destroy now k s ≡ done after
      → Shredded k after
        × ((t later : ℕ) (new_dek nonce : Octets)
            → (dek seal unseal kek own_kek_id t later k new_dek nonce after).0 ≡ key_destroyed)
  unfolding destroy dek read_row
  destroy-Shredded now k s after h = elim (Option-cases (lookup k s.subject_key)) [
    | inl e ↦ ground arith
    | inr (row, e) ↦
        let at =
          lookup-insert_self k
            (record row { wrapped_dek = none; destroyed_at = coalesce row.destroyed_at now })
            s.subject_key in
        let gone = lookup-pop_self k s.cache in ground arith
  ]

  -- What a client may ask of the service.
  pub data Call : Type 0 where
    create_call : String → ℕ → Octets → Octets → Call
    dek_call : ℕ → ℕ → String → Octets → Octets → Call
    schedule_call : String → ℕ → Call
    destroy_call : ℕ → String → Call
    destroy_due_call : ℕ → Call

  abbrev written : KeyService → Written → KeyService
  written s (done after) = after
  written s _ = s

  unfoldable pub serve : Call → KeyService → KeyService
  unfolding create_subject_key dek schedule_destruction destroy destroy_due
  serve (create_call uuid7 subject new_dek nonce) s =
      create_subject_key seal unseal kek own_kek_id uuid7 subject new_dek nonce s
  serve (dek_call now later k new_dek nonce) s =
      (dek seal unseal kek own_kek_id now later k new_dek nonce s).1
  serve (schedule_call k after) s = written s (schedule_destruction k after s)
  serve (destroy_call now k) s = written s (destroy now k s)
  serve (destroy_due_call now) s = destroy_due now s

  unwrapped-Shredded :
      (later : ℕ) (j k : String) (s : KeyService) (o : Opened)
      → (j str_eq k) ≡ false
      → Shredded k s
      → Shredded k (unwrapped seal unseal kek own_kek_id later j s o).1
  unwrapped-Shredded later j k s (Opened.plaintext key) ne h =
      let at = lookup-insert s.cache j k (key, later + dek_cache_ms) in ground arith
  unwrapped-Shredded later j k s _ ne h = h

  opened_row-Shredded :
      (later : ℕ) (j k : String) (s : KeyService) (row : SubjectKey)
      → Shredded k s
      → lookup j s.subject_key ≡ some row
      → Shredded k (read_row seal unseal kek own_kek_id later j s (some row)).1
  unfolding read_row
  opened_row-Shredded later j k s row h e = elim (Option-cases row.wrapped_dek) [
    | inl w ↦ rw w h
    | inr (blob, w) ↦
        let ne : (j str_eq k) ≡ false = ground (arith, eq_iff j k) in
        let kept = unwrapped-Shredded later j k s (decrypt seal unseal kek blob j) ne h in
        ground arith
  ]

  read_row-Shredded :
      (later : ℕ) (j k : String) (s : KeyService)
      → Shredded k s
      → Shredded k (read_row seal unseal kek own_kek_id later j s (lookup j s.subject_key)).1
  unfolding read_row
  read_row-Shredded later j k s h = elim (Option-cases (lookup j s.subject_key)) [
    | inl e ↦ rw e h
    | inr (row, e) ↦ rw e (opened_row-Shredded later j k s row h e)
  ]

  insert_key-shredded :
      (j k : String) (subject : ℕ) (new_dek nonce : Octets) (m : List (String × SubjectKey))
      → is_shredded (lookup k m) ≡ true
      → is_shredded (lookup k (insert_key seal unseal kek own_kek_id j subject new_dek nonce m))
        ≡ true
  unfolding insert_key
  insert_key-shredded j k subject new_dek nonce m h = insert_new-shredded m j k _ h

  with_system-Shredded :
      (j k : String) (new_dek nonce : Octets) (s : KeyService)
      → Shredded k s
      → Shredded k (with_system seal unseal kek own_kek_id j new_dek nonce s)
  unfolding create_subject_key
  with_system-Shredded j k new_dek nonce s h =
      let made = insert_key-shredded j k 0 new_dek nonce s.subject_key h.0 in ground arith

  dek-Shredded :
      (now later : ℕ) (j k : String) (new_dek nonce : Octets) (s : KeyService)
      → Shredded k s
      → Shredded k (dek seal unseal kek own_kek_id now later j new_dek nonce s).1
  unfolding dek
  dek-Shredded now later j k new_dek nonce s h =
      elim (Option-cases (unexpired now (lookup j s.cache))) [
        | inl e ↦ rw e (
            read_row-Shredded later j k (with_system seal unseal kek own_kek_id j new_dek nonce s)
              (with_system-Shredded j k new_dek nonce s h))
        | inr (key, e) ↦ rw e h
      ]

  serve-Shredded : (c : Call) (k : String) (s : KeyService) → Shredded k s → Shredded k (serve c s)
  unfolding serve create_subject_key insert_key dek schedule_destruction destroy destroy_due
  serve-Shredded (create_call uuid7 subject new_dek nonce) k s h =
      (insert_new-shredded s.subject_key uuid7 k _ h.0, h.1)
  serve-Shredded (dek_call now later j new_dek nonce) k s h =
      dek-Shredded now later j k new_dek nonce s h
  serve-Shredded (schedule_call j after) k s h = elim (Option-cases (lookup j s.subject_key)) [
    | inl e ↦ ground arith
    | inr (row, e) ↦
        let at = lookup-insert s.subject_key j k (record row { destroy_after = some after }) in
        ground (arith, eq_iff j k)
  ]
  serve-Shredded (destroy_call now j) k s h = elim (Option-cases (lookup j s.subject_key)) [
    | inl e ↦ ground arith
    | inr (row, e) ↦
        let at =
          lookup-insert s.subject_key j k
            (record row { wrapped_dek = none; destroyed_at = coalesce row.destroyed_at now }) in
        ground (arith, eq_iff j k, lookup-pop-none k j s.cache h.1)
  ]
  serve-Shredded (destroy_due_call now) k s h =
      (lookup-shred_due now k s.subject_key h.0, lookup-pop_due now k s.subject_key s.cache h.1)

  unfoldable pub serve_all : List Call → KeyService → KeyService
  unfolding serve
  serve_all [] s = s
  serve_all (c ∷ cs) s = serve_all cs (serve c s)

  -- Once a key is shredded, no calls of the service, in any order and number, bring it back: it
  -- stays shredded and is reported as destroyed.
  pub Shredded-forever :
      (cs : List Call) (k : String) (s : KeyService)
      → Shredded k s
      → Shredded k (serve_all cs s)
        × ((now later : ℕ) (new_dek nonce : Octets)
            → (dek seal unseal kek own_kek_id now later k new_dek nonce (serve_all cs s)).0
              ≡ key_destroyed)
  unfolding serve_all dek read_row
  Shredded-forever [] k s h = (h, λ now later new_dek nonce. ground arith)
  Shredded-forever (c ∷ cs) k s h = Shredded-forever cs k (serve c s) (serve-Shredded c k s h)

  -- A key that another process destroyed: its row has no wrapped key, while this service may still
  -- have it in the cache. If no entry of the cache is kept for more than 60 s from `t` on, then from
  -- `t` + 60 s on the key is reported as destroyed.
  pub stale_cache_expires :
      (t : ℕ) (k : String) (s : KeyService)
      → is_shredded (lookup k s.subject_key) ≡ true
      → ((held : Octets) (expires : ℕ)
          → lookup k s.cache ≡ some (held, expires)
          → expires ≤ t + dek_cache_ms)
      → (now later : ℕ) (new_dek nonce : Octets) → t + dek_cache_ms ≤ now
      → (dek seal unseal kek own_kek_id now later k new_dek nonce s).0 ≡ key_destroyed
  unfolding dek read_row
  stale_cache_expires t k s gone fresh now later new_dek nonce h =
      elim (Option-cases (lookup k s.cache)) [
        | inl e ↦ ground arith
        | inr ((held, expires), e) ↦ let bound = fresh held expires e in ground arith
      ]

  -- A key that is created under an unused reference, which is not in the cache, is read back as the
  -- key that was drawn, provided that AES-GCM opens what it sealed and the nonce has 12 bytes.
  pub dek-create_subject_key :
      ((key nonce text : Octets) (aad : String)
        → unseal key nonce (seal key nonce text aad) aad ≡ some text)
      → (k : String) (subject : ℕ) (drawn nonce : Octets) (s : KeyService)
      → length nonce ≡ nonce_bytes
      → lookup k s.subject_key ≡ none
      → lookup k s.cache ≡ none
      → (now later : ℕ) (new_dek other : Octets)
      → (dek seal unseal kek own_kek_id now later k new_dek other
          (create_subject_key seal unseal kek own_kek_id k subject drawn nonce s)).0
        ≡ found drawn
  unfolding dek read_row create_subject_key insert_key
  dek-create_subject_key ok k subject drawn nonce s len fresh uncached now later new_dek other =
      let at =
        lookup-insert_self k
          (record {
            subject_ref = subject;
            wrapped_dek = some (encrypt seal unseal kek nonce drawn k);
            kek_id = own_kek_id;
            destroy_after = none;
            destroyed_at = none;
          })
          s.subject_key in
      let back = decrypt-encrypt seal unseal ok kek nonce drawn k len in
      ground (arith, eq_iff own_kek_id own_kek_id)
