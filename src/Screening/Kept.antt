-- ===== src/Screening/Kept.antt =====
-- What every step of a turn's screen keeps: a property of the known slots, of the rows to be written
-- and of the engine's result, at the prompts and the notes, which write no slot.
use suraksha_setu.Prelude.{
  ℕ, String, ◌≡◌, Bool, true, false, not, ◌&&◌, ◌||◌, Option, none, some, List, ltb, if◌then◌else◌,
}
use suraksha_setu.Prelude.Dict.{lookup, insert}
use suraksha_setu.Prelude.Texts.{in_texts}
use suraksha_setu.Turn.State.{EligibilityPayload, SuitabilityResult, Intent}
use suraksha_setu.Turn.Facts.{has}
use suraksha_setu.Screening.State.{
  Value, SlotStatus, confirmed, SlotRow, HeldNeeds, Answer, answered, RequiredAttribute, PromptId,
  QuickReply, Message, TurnInput, Setup, Screen, Result, ok, raised, M, after, ◌>>=◌, ret,
}
use suraksha_setu.Screening.Take.{
  Known, is_rule, is_under_age, status_of, note, disclosed, asked, write, count_invalid,
}
use suraksha_setu.Screening.Prompt.{
  is_nil, ask_with, confirm_one, readback, choice_offered, next_question, next_attr, next_confirm,
  next_choice, can_read_all, can_read_known, next,
}
use suraksha_setu.Screening.Respond.{
  when, mark_noted, is_express, is_question, note_pushback, note_concealment, note_illness,
  note_express, note_redirect, note_question, notes_of, is_readback, notes_in, said,
}

-- A property of the known slots, the rows to be written, the engine's result, the needs record, its
-- result and the count of difficulties.
abbrev pub Property : Type 1
Property =
    Known
    → List SlotRow
    → Option EligibilityPayload
    → Option HeldNeeds
    → Option SuitabilityResult
    → ℕ
    → Type 0

module _ (setup : Setup) (input : TurnInput) (prompt : Option PromptId) (P : Property) where
  abbrev pub Holds : Screen → Type 0
  Holds s = P s.known s.slot_rows s.eligibility s.needs s.suitability s.comprehension

  -- The two kinds of write: an answer that was understood, and the confirmation of a value after a
  -- yes to the read-back.
  pub record KeptByWrites : Type 0 where
    pub on_answer :
        (slot evidence : String) (raw : Value) (confidence : ℕ) (a : Answer) (s : Screen)
        → (is_rule slot setup.attrs || in_texts slot setup.extra) ≡ true
        → ltb confidence setup.settings.confidence_readback_floor ≡ false
        → setup.understand slot raw evidence ≡ answered a
        → is_under_age slot a.value ≡ false
        → Holds s
        → Holds (write setup slot a.value (status_of a (lookup slot s.known)) confidence s)
    pub on_confirm :
        (slot : String) (value : Value) (status : SlotStatus) (s : Screen)
        → is_readback setup input prompt ≡ true
        → said input ≡ some true
        → lookup slot s.known ≡ some (status, value)
        → Holds s
        → Holds (write setup slot value confirmed setup.full_confidence s)

  abbrev pub Keeps : {A : Type 0} → M A → Type 0
  Keeps m = (s : Screen) → Holds s → Holds (m s).1

  pub Keeps-after :
      {A B : Type 0} (r : Result A × Screen) (f : A → M B)
      → Holds r.1
      → ((a : A) → Keeps (f a))
      → Holds (after r f).1
  Keeps-after (ok a, s) f h k = k a s h
  Keeps-after (raised, s) f h k = h

  pub if-Holds : (b : Bool) (s t : Screen) → Holds s → Holds t → Holds (if b then s else t)
  if-Holds true s t hs ht = hs
  if-Holds false s t hs ht = ht

  pub if-Keeps :
      {A : Type 0} (b : Bool) (r t : Result A × Screen)
      → Holds r.1
      → Holds t.1
      → Holds (if b then r else t).1
  if-Keeps true r t hr ht = hr
  if-Keeps false r t hr ht = ht

  pub when-Holds :
      (b : Bool) (f : Screen → Screen) (s : Screen)
      → ((t : Screen) → Holds t → Holds (f t))
      → Holds s
      → Holds (when b f s)
  unfolding when
  when-Holds true f s k h = k s h
  when-Holds false f s k h = h

  pub note-Holds : (part : String) (s : Screen) → Holds s → Holds (note part s)
  unfolding note
  note-Holds part s h = h

  pub disclosed-Holds : (s : Screen) → Holds s → Holds (disclosed s)
  unfolding disclosed
  disclosed-Holds s h = h

  pub count_invalid-Holds : (reset : Bool) (s : Screen) → Holds s → Holds (count_invalid reset s)
  unfolding count_invalid
  count_invalid-Holds reset s h = if-Holds _ _ s h h

  pub ask_with-Holds :
      (a : RequiredAttribute) (quick : List QuickReply) (instead : Option String) (s : Screen)
      → Holds s
      → Holds (ask_with setup a quick instead s)
  unfolding ask_with
  ask_with-Holds a quick instead s h = if-Holds _ _ _ h h

  pub readback-Keeps : Keeps (readback setup)
  unfolding readback
  readback-Keeps s h = if-Keeps (can_read_all setup (asked setup s) s) _ _ h h

  pub confirm_one-Keeps : (slot : String) → Keeps (confirm_one setup slot)
  unfolding confirm_one
  confirm_one-Keeps slot s h = if-Keeps (can_read_known setup slot s) _ _ h h

  pub next_attr-Keeps : (o : Option RequiredAttribute) → Keeps (next_attr setup o)
  next_attr-Keeps (some a) s h = ask_with-Holds a (setup.choices a.attribute) none s h
  next_attr-Keeps none s h =
      if-Keeps _ (ok true, s) ((readback setup >>= λ done. ret false) s) h
        (Keeps-after (readback setup s) (λ done. ret false) (readback-Keeps s h) (λ done t k. k))

  pub next_confirm-Keeps : (o : Option String) → Keeps (next_confirm setup o)
  next_confirm-Keeps (some slot) s h =
      Keeps-after (confirm_one setup slot s) (λ done. ret false) (confirm_one-Keeps slot s h)
        (λ done t k. k)
  next_confirm-Keeps none s h = next_attr-Keeps (next_question setup s) s h

  pub next_choice-Keeps :
      (o : Option (RequiredAttribute × List QuickReply)) → Keeps (next_choice setup o)
  next_choice-Keeps (some (a, quick)) s h = ask_with-Holds a quick none s h
  next_choice-Keeps none s h = next_confirm-Keeps s.confirm s h

  pub next-Keeps : Keeps (next setup)
  unfolding next
  next-Keeps s h = next_choice-Keeps (choice_offered setup s.options s) s h

  pub note_pushback-Holds :
      (m : Message) (s : Screen) → Holds s → Holds (note_pushback setup input m s)
  unfolding note_pushback
  note_pushback-Holds m s h =
      when-Holds m.pushes_back (λ t. record (note "material_fact_note" t) { is_answered = true }) s
        (λ t k. note-Holds "material_fact_note" t k) h

  pub note_concealment-Holds :
      (m : Message) (s : Screen) → Holds s → Holds (note_concealment setup input m s)
  unfolding note_concealment
  note_concealment-Holds m s h =
      when-Holds m.conceals (note "nondisclosure_note") s (note-Holds "nondisclosure_note") h

  pub note_illness-Holds :
      (m : Message) (s : Screen) → Holds s → Holds (note_illness setup input m s)
  unfolding note_illness
  note_illness-Holds m s h =
      when-Holds m.names_illness
        (λ t. if is_question setup input m then note "underwriting_note" t else disclosed t) s
        (λ t k.
          if-Holds (is_question setup input m) (note "underwriting_note" t) (disclosed t)
            (note-Holds "underwriting_note" t k) (disclosed-Holds t k))
        h

  pub note_express-Holds :
      (m : Message) (s : Screen) → Holds s → Holds (note_express setup input m s)
  unfolding note_express
  note_express-Holds m s h =
      when-Holds (is_express setup.prefix s m.intents)
        (λ t. note "express_offer" (record t { counters = insert "express_path" 1 t.counters })) s
        (λ t k.
          note-Holds "express_offer" (record t { counters = insert "express_path" 1 t.counters }) k)
        h

  pub note_redirect-Holds :
      (m : Message) (s : Screen) → Holds s → Holds (note_redirect setup input m s)
  unfolding note_redirect
  note_redirect-Holds m s h =
      when-Holds (has Intent.off_topic m.intents) (note "redirect") s (note-Holds "redirect") h

  pub note_question-Holds :
      (m : Message) (s : Screen) → Holds s → Holds (note_question setup input m s)
  unfolding note_question
  note_question-Holds m s h =
      when-Holds
        (is_question setup input m && is_nil s.lead && is_nil s.filled && not input.handled)
        (note "side_query_caveat") s (note-Holds "side_query_caveat") h

  pub notes_of-Holds : (m : Message) (s : Screen) → Holds s → Holds (notes_of setup input m s)
  unfolding notes_of
  notes_of-Holds m s h = if-Holds (m.blocked || input.identity) _ _ h (
      note_question-Holds m _ (
        note_redirect-Holds m _ (
          note_express-Holds m _ (
            note_illness-Holds m _ (
              note_concealment-Holds m _
                (note_pushback-Holds m _ (when-Holds input.handled mark_noted s (λ t k. k) h)))))))

  pub notes_in-Holds :
      (o : Option Message) (s : Screen) → Holds s → Holds (notes_in setup input o s)
  notes_in-Holds none s h = h
  notes_in-Holds (some m) s h = notes_of-Holds m s h
