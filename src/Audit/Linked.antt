-- ===== src/Audit/Linked.antt =====
-- A chain that verifies, described without the loop: the seqs count up from the first, every row
-- carries the hash before it, and its own hash is that of its columns.
use suraksha_setu.Prelude.{
  ℕ, ◌≡◌, refl, ◌≤◌, true, false, none, List, [], ◌∷◌, ◌++◌, ◌+◌, ◌==◌, if◌then◌else◌, length,
  arith,
}
use suraksha_setu.Audit.Chain.{
  Bytes, Hashed, AuditEvent, VerifyResult, same_bytes, genesis, chain_hash, verify_from, of_session,
  insert_by_seq, sorted_by_seq, events, last_event, seq_and_hash, tail,
}

pub same_bytes-eq : (xs ys : Bytes) → same_bytes xs ys ≡ true → xs ≡ ys
same_bytes-eq [] [] h = refl
same_bytes-eq [] (y ∷ ys) h = cc
same_bytes-eq (x ∷ xs) [] h = cc
same_bytes-eq (x ∷ xs) (y ∷ ys) h = ground (arith, same_bytes-eq xs ys)

pub same_bytes_refl : (xs : Bytes) → same_bytes xs xs ≡ true
same_bytes_refl [] = refl
same_bytes_refl (x ∷ xs) = ground (arith, same_bytes_refl xs)

abbrev pub passed : ℕ → VerifyResult
passed n = record { is_ok = true; checked = n; first_bad_seq = none; gap_at = none }

module _ {Json : Type 0} where
  -- The seq and the hash that a chain ends in.
  abbrev pub chain_end : Bytes → ℕ → List (AuditEvent Json) → ℕ × Bytes
  chain_end prev n [] = (n, prev)
  chain_end prev n (e ∷ es) = chain_end e.hash e.seq es

  last-chain_end :
      (e : AuditEvent Json) (es : List (AuditEvent Json))
      → seq_and_hash (last_event (e ∷ es)) ≡ chain_end e.hash e.seq es
  last-chain_end e [] = refl
  last-chain_end e (x ∷ xs) = last-chain_end x xs

  pub tail-chain_end :
      (table : List (AuditEvent Json)) (sid : ℕ)
      → tail table sid ≡ chain_end genesis 0 (events table sid)
  unfolding tail
  tail-chain_end table sid = go (events table sid)
    where
      go : (es : List (AuditEvent Json)) → seq_and_hash (last_event es) ≡ chain_end genesis 0 es
      go [] = refl
      go (e ∷ es) = last-chain_end e es

  abbrev pub SeqsBelow : ℕ → List (AuditEvent Json) → Type 0
  SeqsBelow m [] = Unit
  SeqsBelow m (e ∷ es) = (e.seq ≤ m) × SeqsBelow m es

  below-insert :
      (m : ℕ) (e : AuditEvent Json) (xs : List (AuditEvent Json))
      → SeqsBelow m (insert_by_seq e xs)
      → (e.seq ≤ m) × SeqsBelow m xs
  unfolding insert_by_seq
  below-insert m e [] h = h
  below-insert m e (x ∷ xs) h = ground (arith, below-insert m e xs)

  below-sorted :
      (m : ℕ) (xs : List (AuditEvent Json)) → SeqsBelow m (sorted_by_seq xs) → SeqsBelow m xs
  unfolding sorted_by_seq
  below-sorted m [] h = h
  below-sorted m (x ∷ xs) h =
      let (hx, hxs) = below-insert m x (sorted_by_seq xs) h in (hx, below-sorted m xs hxs)

  insert-last :
      (e x : AuditEvent Json) (xs : List (AuditEvent Json))
      → x.seq ≤ e.seq
      → insert_by_seq x (xs ++ e ∷ []) ≡ insert_by_seq x xs ++ e ∷ []
  unfolding insert_by_seq
  insert-last e x [] h = ground arith
  insert-last e x (y ∷ ys) h = ground (arith, insert-last e x ys h)

  sorted-last :
      (e : AuditEvent Json) (xs : List (AuditEvent Json))
      → SeqsBelow e.seq xs
      → sorted_by_seq (xs ++ e ∷ []) ≡ sorted_by_seq xs ++ e ∷ []
  unfolding sorted_by_seq
  sorted-last e [] h = refl
  sorted-last e (x ∷ xs) h = rw (sorted-last e xs h.1) (insert-last e x (sorted_by_seq xs) h.0)

  of_session-last :
      (sid : ℕ) (e : AuditEvent Json) (xs : List (AuditEvent Json))
      → of_session sid (xs ++ e ∷ [])
        ≡ (if e.session_id == sid then of_session sid xs ++ e ∷ [] else of_session sid xs)
  unfolding of_session
  of_session-last sid e [] = ground arith
  of_session-last sid e (x ∷ xs) = ground (arith, of_session-last sid e xs)

  -- A row of another session changes nothing, and a row of the session whose seq is not below the
  -- others comes last.
  pub events-other :
      (sid : ℕ) (e : AuditEvent Json) (table : List (AuditEvent Json))
      → (e.session_id == sid) ≡ false
      → events (table ++ e ∷ []) sid ≡ events table sid
  unfolding events
  events-other sid e table h = rw (of_session-last sid e table) (rw h)

  pub events-last :
      (sid : ℕ) (e : AuditEvent Json) (table : List (AuditEvent Json))
      → (e.session_id == sid) ≡ true
      → SeqsBelow e.seq (events table sid)
      → events (table ++ e ∷ []) sid ≡ events table sid ++ e ∷ []
  unfolding events
  events-last sid e table h below =
      rw (of_session-last sid e table)
        (rw h (sorted-last e (of_session sid table) (below-sorted e.seq _ below)))

  module _ (sha256 : Bytes → Bytes) (canonical_json : Hashed Json → Bytes) where
    abbrev pub Linked : Bytes → ℕ → List (AuditEvent Json) → Type 0
    Linked prev n [] = Unit
    Linked prev n (e ∷ es) =
        (e.seq ≡ n + 1)
        × (e.prev_hash ≡ prev)
        × (chain_hash sha256 canonical_json e ≡ e.hash)
        × Linked e.hash (n + 1) es

    pub verify_from-Linked :
        (prev : Bytes) (n : ℕ) (es : List (AuditEvent Json))
        → (verify_from sha256 canonical_json prev n es).is_ok ≡ true
        → Linked prev n es
    unfolding verify_from
    verify_from-Linked prev n [] h = tt
    verify_from-Linked prev n (e ∷ es) h = ground (
      arith,
      verify_from-Linked e.hash (n + 1) es,
      same_bytes-eq e.prev_hash prev,
      same_bytes-eq (chain_hash sha256 canonical_json e) e.hash,
    )

    pub Linked-verify_from :
        (prev : Bytes) (n : ℕ) (es : List (AuditEvent Json))
        → Linked prev n es
        → verify_from sha256 canonical_json prev n es ≡ passed (n + length es)
    unfolding verify_from
    Linked-verify_from prev n [] h = ground arith
    Linked-verify_from prev n (e ∷ es) (hs, hp, hh, rest) =
        let ih : verify_from sha256 canonical_json e.hash (n + 1) es ≡ passed (n + 1 + length es) =
          Linked-verify_from e.hash (n + 1) es rest in
        let same_prev : same_bytes e.prev_hash prev ≡ true = rw hp (same_bytes_refl prev) in
        let same_hash : same_bytes (chain_hash sha256 canonical_json e) e.hash ≡ true =
          rw hh (same_bytes_refl e.hash) in
        ground arith

    pub Linked-SeqsBelow :
        (prev : Bytes) (n m : ℕ) (es : List (AuditEvent Json))
        → Linked prev n es
        → n + length es ≤ m
        → SeqsBelow m es
    Linked-SeqsBelow prev n m [] h b = tt
    Linked-SeqsBelow prev n m (e ∷ es) h b =
        (omega arith, Linked-SeqsBelow e.hash (n + 1) m es h.3 (omega arith))

    pub Linked-last :
        (prev : Bytes) (n : ℕ) (es : List (AuditEvent Json)) (e : AuditEvent Json)
        → Linked prev n es
        → Linked (chain_end prev n es).1 (chain_end prev n es).0 (e ∷ [])
        → Linked prev n (es ++ e ∷ [])
    Linked-last prev n [] e h l = l
    Linked-last prev n (x ∷ xs) e (hs, hp, hh, rest) l =
        (hs, hp, hh, Linked-last x.hash (n + 1) xs e rest (rw hs at l))

    pub chain_end-seq :
        (prev : Bytes) (n : ℕ) (es : List (AuditEvent Json))
        → Linked prev n es
        → (chain_end prev n es).0 ≡ n + length es
    chain_end-seq prev n [] h = omega arith
    chain_end-seq prev n (e ∷ es) h =
        let ih : (chain_end e.hash (n + 1) es).0 ≡ n + 1 + length es =
          chain_end-seq e.hash (n + 1) es h.3 in
        rw h.0 (omega arith)
