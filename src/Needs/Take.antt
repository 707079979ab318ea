-- ===== src/Needs/Take.antt =====
-- graph/states/s2.py: what the customer says, as S2 takes it: the answers, the period of an amount,
-- distress, difficulty, and the wish for the short path.
use suraksha_setu.Prelude.{
  ℕ, String, Bool, true, not, ◌&&◌, ◌||◌, Option, none, some, List, [], ◌∷◌, ◌++◌, ◌+◌, ◌==◌,
  if◌then◌else◌,
}
use suraksha_setu.Prelude.Dict.{lookup, count_of}
use suraksha_setu.Prelude.Texts.{in_texts}
use suraksha_setu.Turn.State.{Intent}
use suraksha_setu.Turn.Facts.{has}
use suraksha_setu.Screening.State.{
  Value, flag, text, proposed, SlotCandidate, human_reply, continue_reply, Message, TurnInput,
  Setup, Screen, ok, M, ◌>>=◌, ◌>>◌, ret, modify,
}
use suraksha_setu.Screening.Take.{note, has_human_reply, write, pending, take, is_pending}
use suraksha_setu.Screening.Prompt.{is_nil}
use suraksha_setu.Screening.Respond.{when, mark_noted, is_question}
use suraksha_setu.Needs.Setup.{distress_slot, is_short, is_distress, has_no_earnings, drop}

unfoldable pub lead_once : String → Screen → Screen
lead_once part s = record s { lead = if in_texts part s.lead then s.lead else s.lead ++ part ∷ [] }

unfoldable pub after_take : String → Bool → Screen → Screen
unfolding lead_once
after_take slot filled s =
    if filled && has_no_earnings slot (lookup slot s.known)
    then lead_once "non_earning_basis" s
    else s

module _ (setup : Setup) where
  unfoldable pub take_needs : String → Value → String → ℕ → M Bool
  unfolding take after_take
  take_needs slot raw evidence confidence =
      take setup slot raw evidence confidence >>= λ filled s. (ok filled, after_take slot filled s)

  unfoldable pub take_candidates : List SlotCandidate → M (Unit {0})
  unfolding take_needs
  take_candidates [] = ret tt
  take_candidates (c ∷ cs) =
      let slot = setup.alias c.slot in
      let rest = take_candidates cs in
      (if in_texts slot setup.kinds
        then (modify (λ s. record s { offered = slot ∷ s.offered })
            >> (take_needs slot c.value c.evidence_span c.confidence >>= λ taken. rest))
        else rest)

  unfoldable pub answer_pending : Option Message → Option String → M (Unit {0})
  unfolding take_needs
  answer_pending (some m) (some slot) s =
      if not (in_texts slot s.offered || in_texts slot s.filled) && not s.noted
      then (take_needs slot (text m.stored_raw) m.stored_raw setup.full_confidence >>= λ taken.
            ret tt)
          s
      else (ok tt, s)
  answer_pending _ _ s = (ok tt, s)

  -- A message about distress is not an answer that could not be used.
  abbrev pub note_distress : Screen → Screen
  note_distress s = when (s.distressed_now && is_nil s.filled) mark_noted s

  unfoldable pub answer : Option Message → M (Unit {0})
  unfolding answer_pending when
  answer message s =
      (answer_pending message (pending setup s) >>= λ done t. (ok tt, note_distress t)) s

  unfoldable pub slot_action : String → Value → String → M (Unit {0})
  unfolding take_needs
  slot_action slot value shown s =
      if is_pending setup slot (pending setup s)
      then (take_needs slot value shown setup.full_confidence >>= λ taken. ret tt) s
      else (ok tt, s)

  abbrev pub record_distress : Screen → Screen
  record_distress s =
      if is_distress s.known
      then s
      else write setup distress_slot (flag true) proposed setup.full_confidence s

  abbrev pub offer_advisor : Screen → Screen
  offer_advisor s = record s {
    replies =
        if has_human_reply s.replies
        then s.replies
        else s.replies ++ human_reply ∷ continue_reply ∷ [];
  }

  unfoldable pub distressed : Screen → Screen
  unfolding write lead_once
  distressed s =
      offer_advisor
        (record (lead_once "distress_ack" (record_distress s)) { distressed_now = true })

  -- Counted for the vulnerability rules; the count is a needs input.
  unfoldable pub confused : Screen → Screen
  confused s =
      drop (record s { comprehension = s.comprehension + 1; rephrased = true; noted = true })

module _ (setup : Setup) (input : TurnInput) where
  unfoldable pub note_purpose : Message → Screen → Screen
  unfolding note when
  note_purpose m =
      when m.pushes_back (λ t. record (note "suitability_purpose" t) { is_answered = true })

  unfoldable pub note_distressed : Message → Screen → Screen
  unfolding distressed when
  note_distressed m =
      when (has Intent.financial_distress m.intents || m.is_distressed) (distressed setup)

  unfoldable pub note_confused : Message → Screen → Screen
  unfolding confused when
  note_confused m =
      when (has Intent.comprehension_difficulty m.intents || m.is_confused) (confused setup)

  abbrev pub may_shorten : Message → Screen → Bool
  may_shorten m s =
      (has Intent.express_path m.intents || m.wants_short_path)
      && not (is_short s)
      && (count_of "short_offered" s.counters == 0)

  unfoldable pub note_short : Message → Screen → Screen
  unfolding count_of when
  note_short m s = when (may_shorten m s) (λ t. record t { offer_short = true; noted = true }) s

  unfoldable pub note_redirect : Message → Screen → Screen
  unfolding note when
  note_redirect m = when (has Intent.off_topic m.intents) (note "redirect")

  unfoldable pub note_question : Message → Screen → Screen
  unfolding note when
  note_question m s =
      when
        (is_question setup input m
          && is_nil s.lead
          && is_nil s.filled
          && not s.offer_short
          && not s.rephrased
          && not input.handled)
        (note "side_query_caveat") s

  -- What the turn is, beyond an answer.
  unfoldable pub notes_of : Message → Screen → Screen
  unfolding note_purpose note_distressed note_confused note_short note_redirect note_question when
  notes_of m s =
      if m.blocked || input.identity
      then mark_noted s
      else note_question m (
          note_redirect m (
            note_short m (
              note_confused m
                (note_distressed m (note_purpose m (when input.handled mark_noted s))))))

  abbrev pub notes_in : Option Message → Screen → Screen
  notes_in none s = s
  notes_in (some m) s = notes_of m s

  unfoldable pub notes : Screen → Screen
  unfolding notes_of
  notes = notes_in input.pipeline
