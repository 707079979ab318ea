-- ===== src/Screening/Written.antt =====
-- graph/states/s1.py: what a turn of the screen writes.
use suraksha_setu.Prelude.{
  String, ◌≡◌, refl, sym, Bool, true, false, not, ◌&&◌, ◌||◌, Option, none, some, List, [], ◌∷◌,
  ◌++◌, ltb, eq_iff, arith,
}
use suraksha_setu.Prelude.Dict.{lookup, insert, lookup-insert}
use suraksha_setu.Prelude.Texts.{in_texts}
use suraksha_setu.Screening.State.{
  Value, SlotStatus, confirmed, is_confirmed, SlotRow, PromptId, TurnInput, Setup, Screen,
}
use suraksha_setu.Screening.Take.{Known, is_rule, is_under_age, status_of, write}
use suraksha_setu.Screening.Respond.{is_readback, respond, said}
use suraksha_setu.Screening.Kept.{Property, KeptByWrites}
use suraksha_setu.Screening.Keeps.{respond-Keeps}

-- The overlay of `Screen.load`: the stored slots with the turn's rows over them.
unfoldable pub overlay : Known → List SlotRow → Known
overlay stored [] = stored
overlay stored (r ∷ rs) = overlay (insert r.slot (r.status, r.value) stored) rs

overlay-last :
    (stored : Known) (rs : List SlotRow) (r : SlotRow)
    → overlay stored (rs ++ r ∷ []) ≡ insert r.slot (r.status, r.value) (overlay stored rs)
unfolding overlay
overlay-last stored [] r = refl
overlay-last stored (x ∷ rs) r = overlay-last (insert x.slot (x.status, x.value) stored) rs r

abbrev AllRows : (SlotRow → Type 0) → List SlotRow → Type 0
AllRows Q [] = Unit
AllRows Q (r ∷ rs) = Q r × AllRows Q rs

AllRows-last :
    (Q : SlotRow → Type 0) (rs : List SlotRow) (r : SlotRow)
    → AllRows Q rs
    → Q r
    → AllRows Q (rs ++ r ∷ [])
AllRows-last Q [] r h q = (q, tt)
AllRows-last Q (x ∷ rs) r h q = (h.0, AllRows-last Q rs r h.1 q)

abbrev pub is_adult_at : String → Option (SlotStatus × Value) → Bool
is_adult_at slot none = true
is_adult_at slot (some (status, value)) = not (is_under_age slot value)

-- No known age is under 18.
abbrev pub Adult : Known → Type 0
Adult known = (slot : String) → is_adult_at slot (lookup slot known) ≡ true

Adult-insert :
    (known : Known) (slot : String) (status : SlotStatus) (value : Value)
    → Adult known
    → is_under_age slot value ≡ false
    → Adult (insert slot (status, value) known)
Adult-insert known slot status value h young other =
    let at = lookup-insert known slot other (status, value) in
    let before = h other in ground (arith, eq_iff slot other)

module _ (setup : Setup) (input : TurnInput) where
  -- What is recorded of a slot: never an age under 18; a confirmation only after a yes to the
  -- read-back; and otherwise only a slot that the rules ask for or the state allows, heard with at
  -- least the confidence of a read-back.
  pub record IsEvidenced (prompt : Option PromptId) (r : SlotRow) : Type 0 where
    pub adult : is_under_age r.slot r.value ≡ false
    pub confirmed_by_customer :
        is_confirmed r.status ≡ true
        → (is_readback setup input prompt ≡ true) × (said input ≡ some true)
    pub asked_and_heard :
        is_confirmed r.status ≡ false
        → ((is_rule r.slot setup.attrs || in_texts r.slot setup.extra) ≡ true)
          × (ltb r.confidence setup.settings.confidence_readback_floor ≡ false)

  abbrev pub Evidenced : Option PromptId → List SlotRow → Type 0
  Evidenced prompt = AllRows (IsEvidenced prompt)

  abbrev Overlays : Known → Property
  Overlays stored known rows engine needs result count = known ≡ overlay stored rows

  write-Overlays :
      (stored : Known) (prompt : Option PromptId)
      → KeptByWrites setup input prompt (Overlays stored)
  unfolding write
  write-Overlays stored prompt = record {
    on_answer = λ slot evidence raw confidence a s rule sure e adult h.
        rw h (sym (overlay-last stored s.slot_rows _));
    on_confirm = λ slot value status s r y e h. rw h (sym (overlay-last stored s.slot_rows _));
  }

  -- The slots that a screen knows are at every end of a turn those that a new screen would load: the
  -- stored ones, with the turn's rows laid over them in order. It holds also for a turn that a failure
  -- of the domain services cuts short.
  pub known_is_reloaded :
      (stored : Known) (s : Screen)
      → s.known ≡ overlay stored s.slot_rows
      → (respond setup input s).1.known ≡ overlay stored (respond setup input s).1.slot_rows
  known_is_reloaded stored s h =
      respond-Keeps setup input s.last_prompt_id (Overlays stored)
        (write-Overlays stored s.last_prompt_id) s refl h

  abbrev Recorded : Option PromptId → Property
  Recorded prompt known rows engine needs result count = Adult known × Evidenced prompt rows

  write-Recorded : (prompt : Option PromptId) → KeptByWrites setup input prompt (Recorded prompt)
  unfolding write
  write-Recorded prompt = record {
    on_answer = λ slot evidence raw confidence a s rule sure e adult h. (
      Adult-insert s.known slot _ a.value h.0 adult,
      AllRows-last (IsEvidenced prompt) s.slot_rows _ h.1 (record {
        adult = adult;
        confirmed_by_customer = λ c. absurd (ground arith);
        asked_and_heard = λ c. (rule, sure);
      }),
    );
    on_confirm = λ slot value status s r y e h.
        let adult : is_under_age slot value ≡ false = let at = h.0 slot in ground arith in
        (
          Adult-insert s.known slot confirmed value h.0 adult,
          AllRows-last (IsEvidenced prompt) s.slot_rows _ h.1 (record {
            adult = adult;
            confirmed_by_customer = λ c. (r, y);
            asked_and_heard = λ c. cc;
          }),
        );
  }

  -- Every row that a turn writes is evidenced, if the slots known before hold no age under 18: a
  -- minor's age is never recorded (V2), nor anything confirmed without a yes to the read-back, nor a
  -- slot that is not asked for or was not heard with enough confidence.
  pub rows-Evidenced :
      (s : Screen)
      → Adult s.known
      → s.slot_rows ≡ []
      → Evidenced s.last_prompt_id (respond setup input s).1.slot_rows
  rows-Evidenced s adult fresh =
      (respond-Keeps setup input s.last_prompt_id (Recorded s.last_prompt_id)
        (write-Recorded s.last_prompt_id) s refl (adult, rw fresh tt)).1

  -- A row that leaves the engine's result out of date: an eligibility slot that is not confirmed.
  abbrev is_stale : SlotRow → Bool
  is_stale r = not (is_confirmed r.status) && in_texts r.slot setup.eligibility_slots

  abbrev pub any_stale : List SlotRow → Bool
  any_stale [] = false
  any_stale (r ∷ rs) = is_stale r || any_stale rs

  any_stale-last :
      (rs : List SlotRow) (r : SlotRow) → any_stale (rs ++ r ∷ []) ≡ (any_stale rs || is_stale r)
  any_stale-last [] r = ground arith
  any_stale-last (x ∷ rs) r = ground (arith, any_stale-last rs r)

  abbrev Dropped : Property
  Dropped known rows engine needs result count = any_stale rows ≡ true → engine ≡ none

  write-Dropped : (prompt : Option PromptId) → KeptByWrites setup input prompt Dropped
  unfolding write
  write-Dropped prompt = record {
    on_answer = λ slot evidence raw confidence a s rule sure e adult h stale.
        let last = any_stale-last s.slot_rows (record {
          slot = slot;
          value = a.value;
          confidence = confidence;
          status = status_of a (lookup slot s.known);
        }) in
        ground arith;
    on_confirm = λ slot value status s r y e h stale.
        let last = any_stale-last s.slot_rows (record {
          slot = slot;
          value = value;
          confidence = setup.full_confidence;
          status = confirmed;
        }) in
        ground arith;
  }

  -- V4: once a turn has written an eligibility slot that is not confirmed, the session holds no result
  -- of the eligibility engine, so that no later state can decide on the old one.
  pub stale_result_dropped :
      (s : Screen)
      → s.slot_rows ≡ []
      → any_stale (respond setup input s).1.slot_rows ≡ true
      → (respond setup input s).1.eligibility ≡ none
  stale_result_dropped s fresh =
      respond-Keeps setup input s.last_prompt_id Dropped (write-Dropped s.last_prompt_id) s refl
        (rw fresh (λ h. cc))
