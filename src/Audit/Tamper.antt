-- ===== src/Audit/Tamper.antt =====
-- Why the chain shows an edit: two states of a session's chain that verify, with as many events and
-- the same last hash, hold the same rows, or exhibit a collision of SHA-256.
use suraksha_setu.Prelude.{
  ℕ, ◌≡◌, ◌≢◌, refl, sym, ap, ◌∙◌, ◌⊎◌, inl, inr, List, [], ◌∷◌, ◌++◌, ◌+◌, length, length-append,
  arith, Bool-cases,
}
use suraksha_setu.Audit.Chain.{
  Bytes, Hashed, AuditEvent, same_bytes, genesis, chain_hash, verify_from, verify_session, events,
  tail,
}
use suraksha_setu.Audit.Linked.{
  same_bytes-eq, same_bytes_refl, passed, chain_end, tail-chain_end, Linked, verify_from-Linked,
  Linked-verify_from,
}

pub record Collision (hash : Bytes → Bytes) : Type 0 where
  pub one : Bytes
  pub other : Bytes
  pub differ : one ≢ other
  pub collide : hash one ≡ hash other

pub same_or_Collision :
    (hash : Bytes → Bytes) (x y : Bytes) → hash x ≡ hash y → (x ≡ y) ⊎ Collision hash
same_or_Collision hash x y h = elim (Bool-cases (same_bytes x y)) [
  | inl e ↦ inl (same_bytes-eq x y e)
  | inr d ↦ inr (record {
    one = x;
    other = y;
    differ = λ e. cc (d, same_bytes_refl y, ap (λ z. same_bytes z y) e);
    collide = h;
  })
]

pub append_split : (a b c d : Bytes) → length a ≡ length b → a ++ c ≡ b ++ d → (a ≡ b) × (c ≡ d)
append_split [] [] c d l e = (refl, e)
append_split [] (y ∷ ys) c d l e = absurd (omega arith)
append_split (x ∷ xs) [] c d l e = absurd (omega arith)
append_split (x ∷ xs) (y ∷ ys) c d l e =
    let heads : x ≡ y = cc in let (p, q) = append_split xs ys c d (omega arith) (cc) in (cc, q)

pub append_split_last :
    (a b c d : Bytes) → length c ≡ length d → a ++ c ≡ b ++ d → (a ≡ b) × (c ≡ d)
append_split_last a b c d l e =
    let la : length (a ++ c) ≡ length a + length c = length-append a c in
    let lb : length (b ++ d) ≡ length b + length d = length-append b d in
    let le : length (a ++ c) ≡ length (b ++ d) = ap length e in append_split a b c d (omega arith) e

module _ {Json : Type 0} (sha256 : Bytes → Bytes) (canonical_json : Hashed Json → Bytes)
    (digest : (x : Bytes) → length (sha256 x) ≡ 32) where
  -- Two rows with the same hashed columns, ciphertext and hashes.
  pub record SameRow (e f : AuditEvent Json) : Type 0 where
    pub prev_hash : e.prev_hash ≡ f.prev_hash
    pub columns : canonical_json e.columns ≡ canonical_json f.columns
    pub payload_enc : e.payload_enc ≡ f.payload_enc
    pub hash : e.hash ≡ f.hash

  abbrev pub SameRows : List (AuditEvent Json) → List (AuditEvent Json) → Type 0
  SameRows [] [] = Unit
  SameRows [] (f ∷ fs) = ⊥
  SameRows (e ∷ es) [] = ⊥
  SameRows (e ∷ es) (f ∷ fs) = SameRow e f × SameRows es fs

  same_row :
      (e f : AuditEvent Json)
      → length e.prev_hash ≡ 32
      → length f.prev_hash ≡ 32
      → chain_hash sha256 canonical_json e ≡ e.hash
      → chain_hash sha256 canonical_json f ≡ f.hash
      → e.hash ≡ f.hash
      → SameRow e f ⊎ Collision sha256
  unfolding chain_hash
  same_row e f le lf he hf h =
      elim (same_or_Collision sha256
        (e.prev_hash ++ (canonical_json e.columns ++ sha256 e.payload_enc))
        (f.prev_hash ++ (canonical_json f.columns ++ sha256 f.payload_enc)) (he ∙ h ∙ sym hf)) [
          | inr c ↦ inr c
          | inl same ↦
              let (p, rest) =
                append_split e.prev_hash f.prev_hash
                  (canonical_json e.columns ++ sha256 e.payload_enc)
                  (canonical_json f.columns ++ sha256 f.payload_enc) (omega arith) same in
              let (q, hashes) =
                append_split_last (canonical_json e.columns) (canonical_json f.columns)
                  (sha256 e.payload_enc) (sha256 f.payload_enc)
                  (omega (arith, digest e.payload_enc, digest f.payload_enc)) rest in
              elim (same_or_Collision sha256 e.payload_enc f.payload_enc hashes) [
                | inr c ↦ inr c
                | inl same_payload ↦
                    inl
                      (record { prev_hash = p; columns = q; payload_enc = same_payload; hash = h })
              ]
        ]

  length-hash :
      (e : AuditEvent Json) → chain_hash sha256 canonical_json e ≡ e.hash → length e.hash ≡ 32
  unfolding chain_hash
  length-hash e h = rw (← h) (digest _)

  same_rows :
      (prev prev' : Bytes) (n m : ℕ) (es fs : List (AuditEvent Json))
      → length prev ≡ 32
      → length prev' ≡ 32
      → Linked sha256 canonical_json prev n es
      → Linked sha256 canonical_json prev' m fs
      → length es ≡ length fs
      → (chain_end prev n es).1 ≡ (chain_end prev' m fs).1
      → (SameRows es fs × (prev ≡ prev')) ⊎ Collision sha256
  same_rows prev prev' n m [] [] lp lq he hf l end = inl (tt, end)
  same_rows prev prev' n m [] (f ∷ fs) lp lq he hf l end = absurd (omega arith)
  same_rows prev prev' n m (e ∷ es) [] lp lq he hf l end = absurd (omega arith)
  same_rows prev prev' n m (e ∷ es) (f ∷ fs) lp lq (se, pe, he, re) (sf, pf, hf, rf) l end =
      elim (same_rows e.hash f.hash (n + 1) (m + 1) es fs (length-hash e he) (length-hash f hf) re
        rf (omega arith) (rw (se, sf) at end)) [
          | inr c ↦ inr c
          | inl (rows, hash) ↦ elim (same_row e f (rw pe lp) (rw pf lq) he hf hash) [
            | inr c ↦ inr c
            | inl row ↦ inl ((row, rows), sym pe ∙ row.prev_hash ∙ pf)
          ]
        ]

  count-length :
      (es : List (AuditEvent Json)) (n : ℕ)
      → verify_from sha256 canonical_json genesis 0 es ≡ passed n
      → Linked sha256 canonical_json genesis 0 es × (length es ≡ n)
  count-length es n h =
      let linked = verify_from-Linked sha256 canonical_json genesis 0 es (rw h) in
      let same : passed (0 + length es) ≡ passed n =
        sym (Linked-verify_from sha256 canonical_json genesis 0 es linked) ∙ h in
      (linked, omega (arith, ap (λ r. r.checked) same))

  -- If a session's chain verifies in two states of the ledger, over as many events, and ends in the
  -- same hash in both, then the two hold the same rows (hashed columns, ciphertexts and hashes), or
  -- SHA-256 has a collision, which the proof exhibits.
  pub tamper_evident :
      (before after : List (AuditEvent Json)) (sid n : ℕ)
      → verify_session sha256 canonical_json before sid ≡ passed n
      → verify_session sha256 canonical_json after sid ≡ passed n
      → (tail before sid).1 ≡ (tail after sid).1
      → SameRows (events before sid) (events after sid) ⊎ Collision sha256
  unfolding verify_session
  tamper_evident before after sid n hb ha end =
      let (lb, nb) = count-length (events before sid) n hb in
      let (la, na) = count-length (events after sid) n ha in
      let ends : (chain_end genesis 0 (events before sid)).1
          ≡ (chain_end genesis 0 (events after sid)).1 =
        rw (tail-chain_end before sid, tail-chain_end after sid) at end in
      elim (same_rows genesis genesis 0 0 (events before sid) (events after sid) refl refl lb la
        (omega arith) ends) [ inl (rows, _) ↦ inl rows | inr c ↦ inr c ]
