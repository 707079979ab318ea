-- ===== src/Audit/Anchored.antt =====
-- audit/anchor.py: what anchor_day keeps of the anchored days.
use suraksha_setu.Prelude.{
  sym, ℕ, ◌≡◌, ◌≤◌, refl, true, false, Option, none, some, List, [], ◌∷◌, ◌++◌, ◌+◌, ◌*◌, leb→le,
  arith, length, Bool-cases, Option-cases, inl, inr, Bool, ◌==◌, ltb, ap, ◌∙◌, if◌then◌else◌,
}
use mathlib.Core.List.{Memᴰ}
use suraksha_setu.Audit.Chain.{
  Bytes, Hashed, AuditEvent, events, last_event, seq_and_hash, verify_session,
}
use suraksha_setu.Audit.Linked.{same_bytes-eq}
use suraksha_setu.Audit.Merkle.{leaf, merkle_root, merkle_root_total}
use suraksha_setu.Audit.Anchor.{
  day_us, ChainAnchor, Anchor, AnchorOutcome, anchored, chain_broken, ActiveSession, find_anchor,
  active_ids, active_sessions, total_count, leaves, all_verify, settle_day, anchor_day, add_id,
  occurs_on, before_end,
}

find_anchor-append :
    (day : ℕ) (anchors : List ChainAnchor) (a b : ChainAnchor)
    → find_anchor day anchors ≡ some a
    → find_anchor day (anchors ++ b ∷ []) ≡ some a
unfolding find_anchor
find_anchor-append day [] a b h = cc
find_anchor-append day (x ∷ xs) a b h = ground (arith, find_anchor-append day xs a b)

find_anchor-append_new :
    (day : ℕ) (anchors : List ChainAnchor) (b : ChainAnchor)
    → find_anchor day anchors ≡ none
    → b.anchor_date ≡ day
    → find_anchor day (anchors ++ b ∷ []) ≡ some b
unfolding find_anchor
find_anchor-append_new day [] b h e = ground arith
find_anchor-append_new day (x ∷ xs) b h e = ground (arith, find_anchor-append_new day xs b)

settle_day-keeps :
    (anchors : List ChainAnchor) (day now : ℕ) (rows : List ActiveSession) (root : Bytes) (d : ℕ)
    (a : ChainAnchor)
    → find_anchor d anchors ≡ some a
    → find_anchor d (settle_day anchors day now rows root (find_anchor day anchors)).1 ≡ some a
unfolding settle_day
settle_day-keeps anchors day now rows root d a h = elim (Option-cases (find_anchor day anchors)) [
  | inl e ↦ rw e (find_anchor-append d anchors a _ h)
  | inr (x, e) ↦ ground arith
]

settle_day-broken :
    (anchors : List ChainAnchor) (day now : ℕ) (rows : List ActiveSession) (root : Bytes)
    (existing : Option ChainAnchor)
    → (settle_day anchors day now rows root existing).0 ≡ chain_broken
    → (settle_day anchors day now rows root existing).1 ≡ anchors
unfolding settle_day
settle_day-broken anchors day now rows root none h = cc
settle_day-broken anchors day now rows root (some x) h = ground arith

settle_day-anchored :
    (anchors : List ChainAnchor) (day now : ℕ) (rows : List ActiveSession) (root : Bytes)
    (result : Anchor) (after : List ChainAnchor)
    → settle_day anchors day now rows root (find_anchor day anchors) ≡ (anchored result, after)
    → (root ≡ result.root)
      × (a : ChainAnchor) × (find_anchor day after ≡ some a)
      × ((day + 1) * day_us ≤ a.created_at → a.root ≡ result.root)
unfolding settle_day
settle_day-anchored anchors day now rows root result after h =
    elim (Option-cases (find_anchor day anchors)) [
      | inl e ↦
          let row : ChainAnchor = record {
            anchor_date = day;
            root = root;
            sessions = length rows;
            events = total_count rows;
            created_at = now;
          } in
          let found = find_anchor-append_new day anchors row e refl in
          (ground arith, row, ground arith, λ l. ground arith)
      | inr (x, e) ↦ (
        ground arith,
        x,
        ground arith,
        λ l. ground (arith, same_bytes-eq x.root root, leb→le ((day + 1) * day_us) x.created_at),
      )
    ]

add_id_self : (i : ℕ) (js : List ℕ) → Memᴰ i (add_id i js)
unfolding add_id
add_id_self i [] = Memᴰ.head refl
add_id_self i (j ∷ js) = elim (Bool-cases (i == j)) [
  | inl e ↦ rw e (Memᴰ.head (ground arith))
  | inr e ↦ elim (Bool-cases (ltb i j)) [
    | inl l ↦ rw (e, l) (Memᴰ.head refl)
    | inr l ↦ rw (e, l) (Memᴰ.tail (add_id_self i js))
  ]
]

add_id_other : (i k : ℕ) (js : List ℕ) → Memᴰ k js → Memᴰ k (add_id i js)
unfolding add_id
add_id_other i k [] m = elim m [ ]
add_id_other i k (j ∷ js) m = elim (Bool-cases (i == j)) [
  | inl e ↦ rw e m
  | inr e ↦ elim (Bool-cases (ltb i j)) [
    | inl l ↦ rw (e, l) (Memᴰ.tail m)
    | inr l ↦
        rw (e, l)
          (elim m [
            | Memᴰ.head same ↦ Memᴰ.head same
            | Memᴰ.tail later ↦ Memᴰ.tail (add_id_other i k js later)
          ])
  ]
]

if_id : (b : Bool) (i k : ℕ) (js : List ℕ) → Memᴰ k js → Memᴰ k (if b then add_id i js else js)
if_id true i k js m = add_id_other i k js m
if_id false i k js m = m

module _ {Json : Type 0} (sha256 : Bytes → Bytes) (canonical_json : Hashed Json → Bytes)
    (session_bytes : ℕ → Bytes) (table : List (AuditEvent Json)) (anchors : List ChainAnchor)
    (day now : ℕ) where
  abbrev rows : List ActiveSession
  rows = active_sessions day table (active_ids day table)

  -- `anchor_day` always returns; and whatever it returns, every day that was anchored keeps its row.
  -- When it reports a broken chain, nothing is written at all.
  pub anchor_day_keeps :
      (outcome : AnchorOutcome) × (after : List ChainAnchor) × (anchor_day sha256 canonical_json
          session_bytes table anchors day now
        ≡ some (outcome, after))
      × ((d : ℕ) (a : ChainAnchor) → find_anchor d anchors ≡ some a → find_anchor d after ≡ some a)
      × (outcome ≡ chain_broken → after ≡ anchors)
  unfolding anchor_day
  anchor_day_keeps =
      let (root, e) = merkle_root_total sha256 (leaves sha256 canonical_json session_bytes rows) in
      elim (Bool-cases (all_verify sha256 canonical_json session_bytes table rows)) [
        | inr v ↦ (chain_broken, anchors, rw v refl, λ d a h. h, λ h. refl)
        | inl v ↦
            let settled = settle_day anchors day now rows root (find_anchor day anchors) in
            (
              settled.0,
              settled.1,
              rw (v, e) refl,
              λ d a h. settle_day-keeps anchors day now rows root d a h,
              settle_day-broken anchors day now rows root (find_anchor day anchors),
            )
      ]

  -- The session of every event of the day is one of the day's sessions.
  active_ids-Mem :
      (es : List (AuditEvent Json)) (e : AuditEvent Json)
      → Memᴰ e es
      → occurs_on day e ≡ true
      → Memᴰ e.session_id (active_ids day es)
  unfolding active_ids
  active_ids-Mem [] e m o = elim m [ ]
  active_ids-Mem (x ∷ es) e (Memᴰ.head same) o =
      rw (sym same, o) (add_id_self e.session_id (active_ids day es))
  active_ids-Mem (x ∷ es) e (Memᴰ.tail m) o =
      if_id (occurs_on day x) x.session_id e.session_id (active_ids day es)
        (active_ids-Mem es e m o)

  -- The leaf of a session: of its last hash before the day's end.
  abbrev session_leaf : ℕ → Bytes
  session_leaf sid =
      leaf sha256 (session_bytes sid)
        (seq_and_hash (last_event (events (before_end day table) sid))).1

  leaves-Mem :
      (sids : List ℕ) (sid : ℕ)
      → Memᴰ sid sids
      → Memᴰ
          (session_leaf sid)
          (leaves sha256 canonical_json session_bytes (active_sessions day table sids))
  unfolding active_sessions
  leaves-Mem [] sid m = elim m [ ]
  leaves-Mem (x ∷ sids) sid (Memᴰ.head same) = Memᴰ.head (ap session_leaf same)
  leaves-Mem (x ∷ sids) sid (Memᴰ.tail m) = Memᴰ.tail (leaves-Mem sids sid m)

  all_verify-Mem :
      (sids : List ℕ) (sid : ℕ)
      → Memᴰ sid sids
      → all_verify sha256 canonical_json session_bytes table (active_sessions day table sids) ≡ true
      → (verify_session sha256 canonical_json table sid).is_ok ≡ true
  unfolding active_sessions all_verify
  all_verify-Mem [] sid m v = elim m [ ]
  all_verify-Mem (x ∷ sids) sid (Memᴰ.head same) v = rw same (ground arith)
  all_verify-Mem (x ∷ sids) sid (Memᴰ.tail m) v = all_verify-Mem sids sid m (ground arith)

  -- When `anchor_day` succeeds, the root it returns is the Merkle root over the day's sessions; the
  -- session of every event of the day has a chain that verifies, and its last hash before the day's end
  -- is under one of the leaves; the day has an anchored row, and a row that was made after the day had
  -- ended has that root: a closed day whose root has changed is never reported as anchored.
  pub anchor_day_succeeds :
      (result : Anchor) (after : List ChainAnchor)
      → anchor_day sha256 canonical_json session_bytes table anchors day now
        ≡ some (anchored result, after)
      → (merkle_root sha256 (leaves sha256 canonical_json session_bytes rows) ≡ some result.root)
        × ((e : AuditEvent Json)
            → Memᴰ e table
            → occurs_on day e ≡ true
            → ((verify_session sha256 canonical_json table e.session_id).is_ok ≡ true)
              × Memᴰ
                  (leaf sha256
                    (session_bytes e.session_id)
                    (seq_and_hash (last_event (events (before_end day table) e.session_id))).1)
                  (leaves sha256 canonical_json session_bytes rows))
        × (a : ChainAnchor) × (find_anchor day after ≡ some a)
        × ((day + 1) * day_us ≤ a.created_at → a.root ≡ result.root)
  unfolding anchor_day
  anchor_day_succeeds result after h =
      let (root, e) = merkle_root_total sha256 (leaves sha256 canonical_json session_bytes rows) in
      let (same, a, found, closed) =
        settle_day-anchored anchors day now rows root result after (ground arith) in
      let verified : all_verify sha256 canonical_json session_bytes table rows ≡ true =
        ground arith in
      (
        e ∙ ap some same,
        λ x m o.
            let active = active_ids-Mem table x m o in
            (
              all_verify-Mem (active_ids day table) x.session_id active verified,
              leaves-Mem (active_ids day table) x.session_id active,
            ),
        a,
        found,
        closed,
      )
