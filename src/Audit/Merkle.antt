-- ===== src/Audit/Merkle.antt =====
-- audit/anchor.py: leaf and merkle_root, the binary SHA-256 tree of a day's chains.
use suraksha_setu.Prelude.{
  ℕ, zero, suc, ◌≡◌, refl, sym, ap, ◌∙◌, ◌⊎◌, ◌≤◌, ◌<◌, inl, inr, Option, none, some, List, [], ◌∷◌,
  ◌++◌, length, arith,
}
use suraksha_setu.Audit.Chain.{Bytes}
use suraksha_setu.Audit.Tamper.{Collision, same_or_Collision, append_split}

module _ (sha256 : Bytes → Bytes) where
  -- sha256(session_id.bytes + last_hash)
  unfoldable pub leaf : Bytes → Bytes → Bytes
  leaf session_id last_hash = sha256 (session_id ++ last_hash)

  -- One round of the loop: neighbours are hashed together, and an odd node is promoted unchanged.
  unfoldable pub next_level : List Bytes → List Bytes
  next_level [] = []
  next_level (a ∷ []) = a ∷ []
  next_level (a ∷ b ∷ rest) = sha256 (a ++ b) ∷ next_level rest

  -- `while len(level) > 1`, with fuel; `none` means that the fuel ran out.
  unfoldable pub root_within : ℕ → List Bytes → Option Bytes
  root_within fuel [] = none
  root_within fuel (a ∷ []) = some a
  root_within zero (a ∷ b ∷ rest) = none
  root_within (suc fuel) (a ∷ b ∷ rest) = root_within fuel (next_level (a ∷ b ∷ rest))

  -- `leaves or [sha256(b"")]`
  abbrev pub level_of : List Bytes → List Bytes
  level_of [] = sha256 [] ∷ []
  level_of (a ∷ rest) = a ∷ rest

  unfoldable pub merkle_root : List Bytes → Option Bytes
  merkle_root leaves = root_within (length leaves) (level_of leaves)

  next_level-shorter :
      (a b : Bytes) (rest : List Bytes) → length (next_level (a ∷ b ∷ rest)) < length (a ∷ b ∷ rest)
  unfolding next_level
  next_level-shorter a b [] = omega arith
  next_level-shorter a b (c ∷ []) = omega arith
  next_level-shorter a b (c ∷ d ∷ rest) = omega (arith, next_level-shorter c d rest)

  root_within-total :
      (fuel : ℕ) (a : Bytes) (rest : List Bytes)
      → length rest ≤ fuel
      → (r : Bytes) × (root_within fuel (a ∷ rest) ≡ some r)
  unfolding root_within next_level
  root_within-total fuel a [] h = (a, refl)
  root_within-total zero a (b ∷ rest) h = absurd (omega arith)
  root_within-total (suc fuel) a (b ∷ rest) h =
      root_within-total fuel (sha256 (a ++ b)) (next_level rest)
        (omega (arith, next_level-shorter a b rest))

  -- The loop ends, for any leaves: as many rounds as there are leaves are enough, so
  -- the fuel never runs out.
  pub merkle_root_total : (leaves : List Bytes) → (r : Bytes) × (merkle_root leaves ≡ some r)
  unfolding merkle_root root_within
  merkle_root_total [] = (sha256 [], refl)
  merkle_root_total (a ∷ rest) = root_within-total (length (a ∷ rest)) a rest (omega arith)

  abbrev pub AllDigests : List Bytes → Type 0
  AllDigests [] = Unit
  AllDigests (a ∷ rest) = (length a ≡ 32) × AllDigests rest

  next_level-length :
      (xs ys : List Bytes) → length xs ≡ length ys → length (next_level xs) ≡ length (next_level ys)
  unfolding next_level
  next_level-length [] [] h = refl
  next_level-length (a ∷ []) (b ∷ []) h = refl
  next_level-length (a ∷ b ∷ xs) (c ∷ d ∷ ys) h = ap suc (next_level-length xs ys (omega arith))
  next_level-length [] (b ∷ ys) h = absurd (omega arith)
  next_level-length (a ∷ xs) [] h = absurd (omega arith)
  next_level-length (a ∷ []) (c ∷ d ∷ ys) h = absurd (omega arith)
  next_level-length (a ∷ b ∷ xs) (c ∷ []) h = absurd (omega arith)

  module _ (digest : (x : Bytes) → length (sha256 x) ≡ 32) where
    next_level-AllDigests : (xs : List Bytes) → AllDigests xs → AllDigests (next_level xs)
    unfolding next_level
    next_level-AllDigests [] h = tt
    next_level-AllDigests (a ∷ []) h = h
    next_level-AllDigests (a ∷ b ∷ xs) h = (digest (a ++ b), next_level-AllDigests xs h.1.1)

    level_binds :
        (xs ys : List Bytes)
        → AllDigests xs
        → AllDigests ys
        → length xs ≡ length ys
        → next_level xs ≡ next_level ys
        → (xs ≡ ys) ⊎ Collision sha256
    unfolding next_level
    level_binds [] [] hx hy l e = inl refl
    level_binds (a ∷ []) (b ∷ []) hx hy l e = inl e
    level_binds (a ∷ b ∷ xs) (c ∷ d ∷ ys) (la, (lb, hx)) (lc, (ld, hy)) l e =
        elim (same_or_Collision sha256 (a ++ b) (c ++ d) (cc)) [
          | inr k ↦ inr k
          | inl same ↦
              let (p, q) = append_split a c b d (la ∙ sym lc) same in
              elim (level_binds xs ys hx hy (omega arith) (cc)) [ inr k ↦ inr k | inl r ↦ inl (cc) ]
        ]
    level_binds [] (b ∷ ys) hx hy l e = absurd (omega arith)
    level_binds (a ∷ xs) [] hx hy l e = absurd (omega arith)
    level_binds (a ∷ []) (c ∷ d ∷ ys) hx hy l e = absurd (omega arith)
    level_binds (a ∷ b ∷ xs) (c ∷ []) hx hy l e = absurd (omega arith)

    root_binds :
        (fuel : ℕ) (xs ys : List Bytes) (r : Bytes)
        → AllDigests xs
        → AllDigests ys
        → length xs ≡ length ys
        → root_within fuel xs ≡ some r
        → root_within fuel ys ≡ some r
        → (xs ≡ ys) ⊎ Collision sha256
    unfolding root_within
    root_binds fuel [] ys r hx hy l ex ey = cc
    root_binds fuel (a ∷ xs) [] r hx hy l ex ey = absurd (omega arith)
    root_binds fuel (a ∷ []) (b ∷ []) r hx hy l ex ey = inl (cc)
    root_binds fuel (a ∷ []) (c ∷ d ∷ ys) r hx hy l ex ey = absurd (omega arith)
    root_binds fuel (a ∷ b ∷ xs) (c ∷ []) r hx hy l ex ey = absurd (omega arith)
    root_binds zero (a ∷ b ∷ xs) (c ∷ d ∷ ys) r hx hy l ex ey = cc
    root_binds (suc fuel) (a ∷ b ∷ xs) (c ∷ d ∷ ys) r hx hy l ex ey =
        elim (root_binds fuel (next_level (a ∷ b ∷ xs)) (next_level (c ∷ d ∷ ys)) r
          (next_level-AllDigests (a ∷ b ∷ xs) hx) (next_level-AllDigests (c ∷ d ∷ ys) hy)
          (next_level-length (a ∷ b ∷ xs) (c ∷ d ∷ ys) l) ex ey) [
            | inr k ↦ inr k
            | inl e ↦ level_binds (a ∷ b ∷ xs) (c ∷ d ∷ ys) hx hy l e
          ]

    -- The anchored root binds the day: two lists of equally many leaves, each as long as a digest,
    -- that have one root are the same list, or SHA-256 has a collision, which the proof exhibits.
    pub merkle_root_binds :
        (xs ys : List Bytes) (r : Bytes)
        → AllDigests xs
        → AllDigests ys
        → length xs ≡ length ys
        → merkle_root xs ≡ some r
        → merkle_root ys ≡ some r
        → (xs ≡ ys) ⊎ Collision sha256
    unfolding merkle_root
    merkle_root_binds [] [] r hx hy l ex ey = inl refl
    merkle_root_binds [] (b ∷ ys) r hx hy l ex ey = absurd (omega arith)
    merkle_root_binds (a ∷ xs) [] r hx hy l ex ey = absurd (omega arith)
    merkle_root_binds (a ∷ xs) (b ∷ ys) r hx hy l ex ey =
        root_binds (length (a ∷ xs)) (a ∷ xs) (b ∷ ys) r hx hy l ex (rw (← l) at ey)
