-- ===== src/Needs/Kept.antt =====
-- graph/states/s2.py: what S2's answers and notes keep: a property that no bound record is needed for,
-- and that the writes keep.
use suraksha_setu.Prelude.{
  ℕ, String, ◌≡◌, refl, Bool, true, false, not, ◌&&◌, ◌||◌, Option, none, some, List, [], ◌∷◌,
  Bool-cases, inl, inr,
}
use suraksha_setu.Prelude.Dict.{lookup}
use suraksha_setu.Prelude.Texts.{in_texts}
use suraksha_setu.Turn.State.{EligibilityPayload, Intent}
use suraksha_setu.Turn.Facts.{has}
use suraksha_setu.Screening.State.{
  Value, flag, text, SlotStatus, proposed, confirmed, is_confirmed, SlotCandidate, PromptId,
  Message, TurnInput, Setup, Screen, ok, ◌>>=◌, ret,
}
use suraksha_setu.Screening.Take.{note, pending, is_pending, status_of, write, take}
use suraksha_setu.Screening.Prompt.{is_nil}
use suraksha_setu.Screening.Respond.{mark_noted, is_question, is_readback, said}
use suraksha_setu.Screening.Kept.{
  Property, Holds, Keeps, KeptByWrites, Keeps-after, if-Holds, if-Keeps, when-Holds, note-Holds,
}
use suraksha_setu.Screening.Keeps.{take-Keeps}
use suraksha_setu.Screening.Corrected.{status_of-unconfirmed}
use suraksha_setu.Needs.Setup.{distress_slot, is_distress}
use suraksha_setu.Needs.Take.{
  lead_once, after_take, take_needs, take_candidates, answer_pending, note_distress, answer,
  slot_action, record_distress, distressed, confused, may_shorten, note_purpose, note_distressed,
  note_confused, note_short, note_redirect, note_question, notes_of, notes_in, notes,
}
use suraksha_setu.Needs.Own.{is_bound}

module _ (setup : Setup) (input : TurnInput) (prompt : Option PromptId) (P : Property) where
  -- It holds where no record is bound, it does not rest on the engine's result, and both kinds of
  -- write keep it.
  pub record KeptByNeeds : Type 0 where
    pub on_unbound : (s : Screen) → is_bound s.needs ≡ false → Holds setup input prompt P s
    pub on_engine :
        (e : Option EligibilityPayload) (s : Screen)
        → Holds setup input prompt P s
        → Holds setup input prompt P (record s { eligibility = e })
    pub on_unconfirmed :
        (slot : String) (value : Value) (status : SlotStatus) (confidence : ℕ) (s : Screen)
        → is_confirmed status ≡ false
        → Holds setup input prompt P s
        → Holds setup input prompt P (write setup slot value status confidence s)
    pub on_confirm :
        (slot : String) (value : Value) (status : SlotStatus) (s : Screen)
        → is_readback setup input prompt ≡ true
        → said input ≡ some true
        → lookup slot s.known ≡ some (status, value)
        → Holds setup input prompt P s
        → Holds setup input prompt P (write setup slot value confirmed setup.full_confidence s)

module _ (setup : Setup) (input : TurnInput) (prompt : Option PromptId) (P : Property)
    (kept : KeptByNeeds setup input prompt P) where
  pub as_writes : KeptByWrites setup input prompt P
  as_writes = record {
    on_answer = λ slot evidence raw confidence a s rule sure e adult h.
        kept.on_unconfirmed slot a.value (status_of a (lookup slot s.known)) confidence s
          (status_of-unconfirmed setup a (lookup slot s.known)) h;
    on_confirm = kept.on_confirm;
  }

  after_take-Holds :
      (slot : String) (filled : Bool) (s : Screen)
      → Holds setup input prompt P s
      → Holds setup input prompt P (after_take slot filled s)
  unfolding after_take lead_once
  after_take-Holds slot filled s h = if-Holds setup input prompt P _ _ s h h

  pub take_needs-Keeps :
      (slot evidence : String) (raw : Value) (confidence : ℕ)
      → Keeps setup input prompt P (take_needs setup slot raw evidence confidence)
  unfolding take_needs
  take_needs-Keeps slot evidence raw confidence s h =
      Keeps-after setup input prompt P (take setup slot raw evidence confidence s)
        (λ filled t. (ok filled, after_take slot filled t))
        (take-Keeps setup input prompt P as_writes slot evidence raw confidence s h)
        (λ filled t. after_take-Holds slot filled t)

  pub take_candidates-Keeps :
      (cs : List SlotCandidate) → Keeps setup input prompt P (take_candidates setup cs)
  unfolding take_candidates
  take_candidates-Keeps [] s h = h
  take_candidates-Keeps (c ∷ cs) s h =
      let slot = setup.alias c.slot in
      elim (Bool-cases (in_texts slot setup.kinds)) [
        | inr k ↦ rw k (take_candidates-Keeps cs s h)
        | inl k ↦ rw k (
            Keeps-after setup input prompt P
              (take_needs setup slot c.value c.evidence_span c.confidence
                (record s { offered = slot ∷ s.offered }))
              (λ taken. take_candidates setup cs)
              (take_needs-Keeps slot c.evidence_span c.value c.confidence
                (record s { offered = slot ∷ s.offered }) h)
              (λ taken. take_candidates-Keeps cs))
      ]

  take_open-Keeps :
      (slot evidence : String) (raw : Value)
      → Keeps setup input prompt P
          (take_needs setup slot raw evidence setup.full_confidence >>= λ taken. ret tt)
  take_open-Keeps slot evidence raw s h =
      Keeps-after setup input prompt P (take_needs setup slot raw evidence setup.full_confidence s)
        (λ taken. ret tt) (take_needs-Keeps slot evidence raw setup.full_confidence s h)
        (λ taken t k. k)

  answer_pending-Keeps :
      (m : Option Message) (slot : Option String)
      → Keeps setup input prompt P (answer_pending setup m slot)
  unfolding answer_pending
  answer_pending-Keeps none slot s h = h
  answer_pending-Keeps (some m) none s h = h
  answer_pending-Keeps (some m) (some slot) s h =
      if-Keeps setup input prompt P _ _ _
        (take_open-Keeps slot m.stored_raw (text m.stored_raw) s h) h

  pub answer-Keeps : (m : Option Message) → Keeps setup input prompt P (answer setup m)
  unfolding answer
  answer-Keeps m s h =
      Keeps-after setup input prompt P (answer_pending setup m (pending setup s) s)
        (λ done t. (ok tt, note_distress setup t)) (answer_pending-Keeps m (pending setup s) s h)
        (λ done t k.
          when-Holds setup input prompt P (t.distressed_now && is_nil t.filled) mark_noted t
            (λ u l. l) k)

  pub slot_action-Keeps :
      (slot shown : String) (value : Value)
      → Keeps setup input prompt P (slot_action setup slot value shown)
  unfolding slot_action
  slot_action-Keeps slot shown value s h =
      if-Keeps setup input prompt P (is_pending setup slot (pending setup s)) _ _
        (take_open-Keeps slot shown value s h) h

  record_distress-Holds :
      (s : Screen)
      → Holds setup input prompt P s
      → Holds setup input prompt P (record_distress setup s)
  record_distress-Holds s h =
      if-Holds setup input prompt P (is_distress s.known) s _ h
        (kept.on_unconfirmed distress_slot (flag true) proposed setup.full_confidence s refl h)

  distressed-Holds :
      (s : Screen) → Holds setup input prompt P s → Holds setup input prompt P (distressed setup s)
  unfolding distressed lead_once
  distressed-Holds s h = record_distress-Holds s h

  confused-Holds : (s : Screen) → Holds setup input prompt P (confused setup s)
  unfolding confused
  confused-Holds s = kept.on_unbound (confused setup s) refl

  note_question-Holds :
      (m : Message) (s : Screen)
      → Holds setup input prompt P s
      → Holds setup input prompt P (note_question setup input m s)
  unfolding note_question
  note_question-Holds m s h =
      when-Holds setup input prompt P
        (is_question setup input m
          && is_nil s.lead
          && is_nil s.filled
          && not s.offer_short
          && not s.rephrased
          && not input.handled)
        (note "side_query_caveat") s (note-Holds setup input prompt P "side_query_caveat") h

  note_purpose-Holds :
      (m : Message) (s : Screen)
      → Holds setup input prompt P s
      → Holds setup input prompt P (note_purpose setup input m s)
  unfolding note_purpose
  note_purpose-Holds m s h =
      when-Holds setup input prompt P m.pushes_back
        (λ t. record (note "suitability_purpose" t) { is_answered = true }) s
        (λ t k. note-Holds setup input prompt P "suitability_purpose" t k) h

  note_distressed-Holds :
      (m : Message) (s : Screen)
      → Holds setup input prompt P s
      → Holds setup input prompt P (note_distressed setup input m s)
  unfolding note_distressed
  note_distressed-Holds m s h =
      when-Holds setup input prompt P (has Intent.financial_distress m.intents || m.is_distressed)
        (distressed setup) s distressed-Holds h

  note_confused-Holds :
      (m : Message) (s : Screen)
      → Holds setup input prompt P s
      → Holds setup input prompt P (note_confused setup input m s)
  unfolding note_confused
  note_confused-Holds m s h =
      when-Holds setup input prompt P
        (has Intent.comprehension_difficulty m.intents || m.is_confused) (confused setup) s
        (λ t k. confused-Holds t) h

  note_short-Holds :
      (m : Message) (s : Screen)
      → Holds setup input prompt P s
      → Holds setup input prompt P (note_short setup input m s)
  unfolding note_short
  note_short-Holds m s h =
      when-Holds setup input prompt P (may_shorten setup input m s)
        (λ t. record t { offer_short = true; noted = true }) s (λ t k. k) h

  note_redirect-Holds :
      (m : Message) (s : Screen)
      → Holds setup input prompt P s
      → Holds setup input prompt P (note_redirect setup input m s)
  unfolding note_redirect
  note_redirect-Holds m s h =
      when-Holds setup input prompt P (has Intent.off_topic m.intents) (note "redirect") s
        (note-Holds setup input prompt P "redirect") h

  notes_of-Holds :
      (m : Message) (s : Screen)
      → Holds setup input prompt P s
      → Holds setup input prompt P (notes_of setup input m s)
  unfolding notes_of
  notes_of-Holds m s h = if-Holds setup input prompt P (m.blocked || input.identity) _ _ h (
      note_question-Holds m _ (
        note_redirect-Holds m _ (
          note_short-Holds m _ (
            note_confused-Holds m _ (
              note_distressed-Holds m _ (
                note_purpose-Holds m _
                  (when-Holds setup input prompt P input.handled mark_noted s (λ t k. k) h)))))))

  notes_in-Holds :
      (o : Option Message) (s : Screen)
      → Holds setup input prompt P s
      → Holds setup input prompt P (notes_in setup input o s)
  notes_in-Holds none s h = h
  notes_in-Holds (some m) s h = notes_of-Holds m s h

  pub notes-Holds :
      (s : Screen) → Holds setup input prompt P s → Holds setup input prompt P (notes setup input s)
  unfolding notes
  notes-Holds = notes_in-Holds input.pipeline
