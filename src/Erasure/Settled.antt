-- ===== src/Erasure/Settled.antt =====
-- graph/handlers/data_erasure.py: what the sweep leaves.
use mathlib.Core.Path.{subst}
use mathlib.Core.List.{append-nil, append_assoc}
use suraksha_setu.Prelude.{
  ℕ, String, ◌≡◌, refl, ap, ◌∙◌, Bool, true, false, Option, List, [], ◌∷◌, ◌++◌, eq_refl, arith,
  Bool-cases, inl, inr, ◌⊎◌, sym,
}
use suraksha_setu.Prelude.Dict.{lookup}
use suraksha_setu.Crypto.Keys.{KeyService, Written, done, DekResult}
use suraksha_setu.Crypto.Envelope.{Octets}
use suraksha_setu.Erasure.Session.{
  Event, consent_withdrawn, World, Swept, swept, erase_session, with_keys, erase_key, erase,
}
use suraksha_setu.Erasure.Sweep.{
  leftovers, last_reason, reason_of, has_withdrawn, pending_sessions, then_next, append_withdrawn,
  retry, retry_each, erase_leftovers, sweep,
}
use suraksha_setu.Erasure.Left.{leftovers-erase_session, drop_all, drop_all_self}
use suraksha_setu.Erasure.KeysKept.{
  SoundRow, DestroyedRow, HasKey, IsDestroyed, AllKeys, later-AllKeys, erase_key-Erased, ask,
  Answers, ask-Answers,
}
use suraksha_setu.Erasure.Pending.{
  All, All-map, Tried, has_withdrawn-++, only_withdrawn, pending_sessions-only_withdrawn,
  pending_sessions-Open, only_withdrawn-++,
}

-- A step ends without an error, appends these withdrawals, and leaves all else but the cache.
record Grown (w : World) (r : Swept) (ws : List Event) : Type 0 where
  after : World
  ends : r ≡ swept after
  rows : after.rows ≡ w.rows
  grown : after.events ≡ w.events ++ ws
  only : only_withdrawn ws ≡ true
  table : after.keys.subject_key ≡ w.keys.subject_key

module _ (seal : Octets → Octets → Octets → String → Octets)
    (unseal : Octets → Octets → Octets → String → Option Octets) (kek : Octets)
    (own_kek_id : String) (now retention mono later : ℕ) (new_dek nonce : Octets)
    (withdraws : String → Bool) where
  abbrev key_of : String → KeyService → DekResult × KeyService
  key_of = ask seal unseal kek own_kek_id mono later new_dek nonce

  abbrev Held : KeyService → String → Type 0
  Held = HasKey seal unseal kek own_kek_id

  abbrev Keys : KeyService → List (String × String) → Type 0
  Keys = AllKeys seal unseal kek own_kek_id

  -- The erasures of the sessions end, and leave none of them.
  abbrev Cleared : List (String × String) → World → Swept → Type 0
  Cleared ids w r =
      (after : World) × ((r ≡ swept after)
        × ((leftovers after.rows ≡ drop_all ids (leftovers w.rows))
            × ((after.events ≡ w.events) × ((j : String) → Held w.keys j → Held after.keys j))))

  erased-next :
      (sid k : String) (ids : List (String × String)) (w : World) (r : Written)
      (later : World → Swept)
      → (ks : KeyService) → r ≡ done ks
      → ((j : String) → Held w.keys j → Held ks j)
      → Cleared ids
          (record w { rows = erase_session sid w.rows; keys = ks })
          (later (record w { rows = erase_session sid w.rows; keys = ks }))
      → Cleared ((sid, k) ∷ ids) w (
          then_next now retention key_of withdraws
            (with_keys r (record w { rows = erase_session sid w.rows }))
            later)
  unfolding drop_all
  erased-next sid k ids w r later ks e m c = rw e (
    c.0,
    (
      c.1.0,
      (
        c.1.1.0 ∙ ap (drop_all ids) (leftovers-erase_session sid w.rows),
        (c.1.1.1.0, λ j held. c.1.1.1.1 j (m j held)),
      ),
    ),
  )

  erase_leftovers-Cleared :
      (ids : List (String × String)) (w : World)
      → Keys w.keys ids
      → Cleared ids w (erase_leftovers now retention key_of withdraws ids w)
  unfolding erase_leftovers erase drop_all
  erase_leftovers-Cleared [] w h = (w, (refl, (refl, (refl, λ j held. held))))
  erase_leftovers-Cleared ((sid, k) ∷ ids) w h =
      let reason = reason_of (last_reason sid w.events) in
      let done_keys =
        erase_key-Erased seal unseal kek own_kek_id now retention reason k w.keys h.0 in
      erased-next sid k ids w (erase_key now retention reason k w.keys)
        (erase_leftovers now retention key_of withdraws ids) done_keys.0 done_keys.1.0 done_keys.1.1
        (erase_leftovers-Cleared ids _
          (later-AllKeys seal unseal kek own_kek_id w.keys done_keys.0 ids done_keys.1.1 h.1))

  -- A withdrawal stays open when the service does not record it, or when the key is destroyed.
  abbrev pub Open : KeyService → String → String → Type 0
  Open ks sid k = (withdraws sid ≡ false) ⊎ IsDestroyed seal unseal kek own_kek_id ks k

  answered :
      (sid k : String) (w : World) (r : DekResult) (ks : KeyService)
      → Answers seal unseal kek own_kek_id mono later new_dek nonce k w.keys (r, ks)
      → (ws : List Event) × Grown w
          (append_withdrawn now retention key_of withdraws sid w (r, ks))
          ws
        × Tried ws (Open w.keys) sid k
  unfolding has_withdrawn only_withdrawn
  answered sid k w r ks (inl (held, (e, t))) = (
    consent_withdrawn sid ∷ [],
    rw e (record {
      after = record w { keys = ks; events = w.events ++ consent_withdrawn sid ∷ [] };
      ends = refl;
      rows = refl;
      grown = refl;
      only = refl;
      table = t;
    }),
    inl (rw (eq_refl sid) refl),
  )
  answered sid k w r ks (inr (e, (t, d))) = (
    [],
    rw e (record {
      after = record w { keys = ks };
      ends = refl;
      rows = refl;
      grown = sym (append-nil w.events);
      only = refl;
      table = t;
    }),
    inr (inr d),
  )

  retry-Grown :
      (sid k : String) (w : World)
      → Held w.keys k
      → (ws : List Event) × Grown w (retry now retention key_of withdraws sid k w) ws
        × Tried ws (Open w.keys) sid k
  unfolding only_withdrawn
  retry-Grown sid k w h =
      let r = key_of k w.keys in
      elim (Bool-cases (withdraws sid)) [
        | inl e ↦
            let (ws, g, tried) =
              answered sid k w r.0 r.1
                (ask-Answers seal unseal kek own_kek_id mono later new_dek nonce k w.keys h) in
            (ws, rw e g, tried)
        | inr e ↦ (
          [],
          record {
            after = w;
            ends = rw e refl;
            rows = refl;
            grown = sym (append-nil w.events);
            only = refl;
            table = refl;
          },
          inr (inl e),
        )
      ]

  Tried-earlier :
      (w after : World) (ws more : List Event)
      → after.keys.subject_key ≡ w.keys.subject_key
      → (sid k : String) → Tried more (Open after.keys) sid k
      → Tried (ws ++ more) (Open w.keys) sid k
  Tried-earlier w after ws more t sid k (inl h) =
      let both = has_withdrawn-++ sid ws more in inl (ground arith)
  Tried-earlier w after ws more t sid k (inr (inl h)) = inr (inl h)
  Tried-earlier w after ws more t sid k (inr (inr d)) =
      inr (inr (subst (λ table. DestroyedRow seal unseal kek own_kek_id (lookup k table)) t d))

  Tried-after :
      (w after : World) (ws : List Event)
      → after.keys.subject_key ≡ w.keys.subject_key
      → (sid k : String) → Tried ws (Open w.keys) sid k
      → Tried ws (Open after.keys) sid k
  Tried-after w after ws t sid k (inl h) = inl h
  Tried-after w after ws t sid k (inr (inl h)) = inr (inl h)
  Tried-after w after ws t sid k (inr (inr d)) =
      inr
        (inr (subst (λ table. DestroyedRow seal unseal kek own_kek_id (lookup k table)) (sym t) d))

  Tried-later :
      (w : World) (ws more : List Event) (sid k : String)
      → Tried ws (Open w.keys) sid k
      → Tried (ws ++ more) (Open w.keys) sid k
  Tried-later w ws more sid k (inl h) =
      let both = has_withdrawn-++ sid ws more in inl (ground arith)
  Tried-later w ws more sid k (inr o) = inr o

  same_keys :
      (w after : World) (ids : List (String × String))
      → after.keys.subject_key ≡ w.keys.subject_key
      → Keys w.keys ids
      → Keys after.keys ids
  same_keys w after ids t h =
      later-AllKeys seal unseal kek own_kek_id w.keys after.keys ids
        (λ j held. (
          held.0,
          subst (λ table. SoundRow seal unseal kek own_kek_id j (lookup j table)) (sym t) held.1,
        ))
        h

  retry_each-Grown :
      (ids : List (String × String)) (w : World)
      → Keys w.keys ids
      → (ws : List Event) × Grown w (retry_each now retention key_of withdraws ids w) ws
        × All (Tried ws (Open w.keys)) ids
  unfolding retry_each only_withdrawn
  retry_each-Grown [] w h = (
    [],
    record {
      after = w;
      ends = refl;
      rows = refl;
      grown = sym (append-nil w.events);
      only = refl;
      table = refl;
    },
    tt,
  )
  retry_each-Grown ((sid, k) ∷ ids) w h =
      let (ws, g, tried) = retry-Grown sid k w h.0 in
      let (more, g', rest) = retry_each-Grown ids g.after (same_keys w g.after ids g.table h.1) in
      (
        ws ++ more,
        record {
          after = g'.after;
          ends = rw g.ends g'.ends;
          rows = g'.rows ∙ g.rows;
          grown = g'.grown ∙ ap (λ es. es ++ more) g.grown ∙ append_assoc w.events ws more;
          only = only_withdrawn-++ ws more g.only g'.only;
          table = g'.table ∙ g.table;
        },
        (
          Tried-later w ws more sid k tried,
          All-map (Tried more (Open g.after.keys)) (Tried (ws ++ more) (Open w.keys)) ids
              (Tried-earlier w g.after ws more g.table) rest,
        ),
      )

  -- A sweep finishes what erasures left open: where the key of every session that is left over, and of
  -- every withdrawal that is pending, has a row, is not the system's, and is destroyed or opens under
  -- this service's own KEK, the sweep ends without an error; no session is then marked erased; and a
  -- withdrawal is still pending only when the Consent Service did not record it, or when its key is
  -- destroyed, as a minor's is.
  pub sweep_settles :
      (w : World)
      → Keys w.keys (leftovers w.rows)
      → Keys w.keys (pending_sessions w.events)
      → (after : World) × (sweep now retention key_of withdraws w ≡ swept after)
        × (leftovers after.rows ≡ [])
        × All (Open after.keys) (pending_sessions after.events)
  unfolding sweep
  sweep_settles w keys pending_keys =
      let (cleared, (ends, (left, (same, kept)))) =
        erase_leftovers-Cleared (leftovers w.rows) w keys in
      let asked : Keys cleared.keys (pending_sessions cleared.events) = rw same (
        later-AllKeys seal unseal kek own_kek_id w.keys cleared.keys (pending_sessions w.events)
          kept pending_keys) in
      let (ws, g, tried) = retry_each-Grown (pending_sessions cleared.events) cleared asked in
      (
        g.after,
        rw ends g.ends,
        rw g.rows (left ∙ drop_all_self (leftovers w.rows)),
        rw g.grown (
            pending_sessions-Open (Open g.after.keys) cleared.events ws
              (pending_sessions-only_withdrawn ws g.only)
              (All-map (Tried ws (Open cleared.keys)) (Tried ws (Open g.after.keys)) _
                (Tried-after cleared g.after ws g.table) tried)),
      )
