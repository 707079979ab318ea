-- ===== src/Screening/Take.antt =====
-- graph/states/s1.py: what a screen knows, and how it takes an answer.
use suraksha_setu.Prelude.{
  ℕ, String, Bool, true, false, not, ◌&&◌, ◌||◌, Option, none, some, List, [], ◌∷◌, ◌++◌, ◌+◌, ltb,
  ◌str_eq◌, if◌then◌else◌,
}
use suraksha_setu.Prelude.Dict.{lookup, insert, count_of}
use suraksha_setu.Prelude.Texts.{in_texts}
use suraksha_setu.Fsm.Facts.{is_some}
use suraksha_setu.Turn.Decide.{minor}
use suraksha_setu.Screening.State.{
  Value, number, text, health, same_value, SlotStatus, proposed, corrected, declined, is_confirmed,
  Answer, Understood, answered, several, unusable, domain_down, left_open, RequiredAttribute,
  SlotCandidate, same_prefix, PromptId, ask_prompt, is_human_reply, QuickReply, human_reply,
  Message, Setup, Screen, ok, raised, M, ◌>>=◌, ◌>>◌, ret, modify,
}

abbrev pub Known : Type 0
Known = List (String × (SlotStatus × Value))

-- `_applies`: the condition's slot is known, with the condition's literal.
abbrev pub applies : Option (String × Value) → Known → Bool
applies none known = true
applies (some (slot, literal)) known = elim (lookup slot known) [
  | none ↦ false
  | some (status, value) ↦ same_value value literal
]

unfoldable pub asked_of : List RequiredAttribute → Known → List RequiredAttribute
asked_of [] known = []
asked_of (a ∷ as') known =
    let rest = asked_of as' known in if applies a.asked_if known then a ∷ rest else rest

-- `next(a for a in attrs if a.attribute == slot)`
unfoldable pub find_attr : String → List RequiredAttribute → Option RequiredAttribute
find_attr slot [] = none
find_attr slot (a ∷ as') =
    let rest = find_attr slot as' in if a.attribute str_eq slot then some a else rest

unfoldable pub first_missing : List RequiredAttribute → Known → Option RequiredAttribute
first_missing [] known = none
first_missing (a ∷ as') known =
    let rest = first_missing as' known in
    if is_some (lookup a.attribute known) then rest else some a

abbrev pub holds_confirmed : Option (SlotStatus × Value) → Bool
holds_confirmed none = false
holds_confirmed (some (status, value)) = is_confirmed status

unfoldable pub all_confirmed : List RequiredAttribute → Known → Bool
all_confirmed [] known = true
all_confirmed (a ∷ as') known =
    holds_confirmed (lookup a.attribute known) && all_confirmed as' known

abbrev pub is_rule : String → List RequiredAttribute → Bool
is_rule slot [] = false
is_rule slot (a ∷ as') = a.attribute str_eq slot || is_rule slot as'

-- V2: an age under 18.
abbrev pub is_under_age : String → Value → Bool
is_under_age slot (number n) = (slot str_eq "age_years") && ltb n 18
is_under_age slot _ = false

abbrev pub said_again : Option (SlotStatus × Value) → Value → Bool
said_again none v = false
said_again (some (status, value)) v = same_value value v

abbrev pub is_ill : Value → Bool
is_ill (health (some true)) = true
is_ill _ = false

abbrev pub status_of : Answer → Option (SlotStatus × Value) → SlotStatus
status_of a prior =
    if a.is_declined then declined else if is_some prior then corrected else proposed

-- `note`: a lead part, once.
unfoldable pub note : String → Screen → Screen
note part s = record s {
  lead = if in_texts part s.lead then s.lead else s.lead ++ part ∷ [];
  noted = true;
}

abbrev pub has_human_reply : List QuickReply → Bool
has_human_reply [] = false
has_human_reply (r ∷ rs) = is_human_reply r || has_human_reply rs

unfoldable pub disclosed : Screen → Screen
unfolding note
disclosed s = record (note "medical_ack" s) {
  replies = if has_human_reply s.replies then s.replies else s.replies ++ human_reply ∷ [];
}

module _ (setup : Setup) where
  abbrev pub asked : Screen → List RequiredAttribute
  asked s = asked_of setup.attrs s.known

  abbrev pub attr : String → Screen → Option RequiredAttribute
  attr slot s = find_attr slot (asked s)

  abbrev pub is_all_confirmed : Screen → Bool
  is_all_confirmed s = all_confirmed (asked s) s.known

  -- With `invalidate`, for S1 and for S2: the engine's result no longer matches an eligibility slot
  -- that is not yet confirmed (V4), nor the needs record and its result such a needs slot.
  unfoldable pub write : String → Value → SlotStatus → ℕ → Screen → Screen
  write slot value status confidence s = record s {
    slot_rows =
        s.slot_rows
        ++ record { slot = slot; value = value; confidence = confidence; status = status } ∷ [];
    known = insert slot (status, value) s.known;
    eligibility =
        if not (is_confirmed status) && in_texts slot setup.eligibility_slots
        then none
        else s.eligibility;
    needs = if not (is_confirmed status) && in_texts slot setup.needs_slots then none else s.needs;
    suitability =
        if not (is_confirmed status) && in_texts slot setup.needs_slots
        then none
        else s.suitability;
  }

  -- An answer that is new: it is written, and read back at once if it is derived or not sure.
  unfoldable pub record_answer : String → ℕ → Answer → Screen → Screen
  unfolding write disclosed
  record_answer slot confidence a s =
      let written = write slot a.value (status_of a (lookup slot s.known)) confidence s in
      let checked = record written {
        confirm =
            if a.is_derived || ltb confidence setup.settings.confidence_accept
            then some slot
            else written.confirm;
      } in
      if (slot str_eq "health_flags") && is_ill a.value then disclosed checked else checked

  unfoldable pub take_understood : String → ℕ → Understood → M Bool
  unfolding record_answer
  take_understood slot confidence (several found) s =
      (ok false, record s { options = some (slot, found) })
  take_understood slot confidence unusable s = (ok false, s)
  take_understood slot confidence domain_down s = (raised, s)
  take_understood slot confidence (left_open amount) s =
      (ok false, record s { period = some (slot, amount); noted = true })
  take_understood slot confidence (answered a) s =
      if is_under_age slot a.value
      then (ok false, record s { signals = s.signals ++ minor ∷ [] })
      else let heard = record s { filled = slot ∷ s.filled } in
        if said_again (lookup slot s.known) a.value
        then (ok true, heard)
        else (ok true, record_answer slot confidence a heard)

  -- One evidenced value, or a verified quick reply; true when it fills the slot.
  unfoldable pub take : String → Value → String → ℕ → M Bool
  unfolding take_understood
  take slot raw evidence confidence s =
      if not (is_rule slot setup.attrs || in_texts slot setup.extra)
      then (ok false, s)
      else if ltb confidence setup.settings.confidence_readback_floor
      then (ok false, s)
      else take_understood slot confidence (setup.understand slot raw evidence) s

  unfoldable pub take_candidates : List SlotCandidate → M (Unit {0})
  unfolding take
  take_candidates [] = ret tt
  take_candidates (c ∷ cs) =
      let slot = setup.alias c.slot in
      let rest = take_candidates cs in
      (if in_texts slot setup.kinds
        then (modify (λ s. record s { offered = slot ∷ s.offered })
            >> (take slot c.value c.evidence_span c.confidence >>= λ taken. rest))
        else rest)

  -- The slot of the open question.
  abbrev pub pending_of : Option PromptId → Option String
  pending_of (some (ask_prompt prefix slot)) =
      if same_prefix prefix setup.prefix then some slot else none
  pending_of _ = none

  abbrev pub pending : Screen → Option String
  pending s = pending_of s.last_prompt_id

  -- The open question, read from the whole message.
  unfoldable pub answer_pending : Option Message → Option String → M (Unit {0})
  unfolding take
  answer_pending (some m) (some slot) s =
      if not (in_texts slot s.offered || in_texts slot s.filled) && not s.noted
      then (take slot (text m.stored_raw) m.stored_raw setup.full_confidence >>= λ taken. ret tt) s
      else (ok tt, s)
  answer_pending _ _ s = (ok tt, s)

  abbrev pub is_pending : String → Option String → Bool
  is_pending slot none = false
  is_pending slot (some p) = slot str_eq p

  -- A SLOT quick reply: only for the open question.
  unfoldable pub slot_action : String → Value → String → M (Unit {0})
  unfolding take
  slot_action slot value shown s =
      if is_pending slot (pending s)
      then (take slot value shown setup.full_confidence >>= λ taken. ret tt) s
      else (ok tt, s)

-- `_count_invalid`
unfoldable pub count_invalid : Bool → Screen → Screen
unfolding count_of
count_invalid reset s =
    let count = if reset then 0 else count_of "invalid_input" s.counters + 1 in
    if ltb 0 count || ltb 0 (count_of "invalid_input" s.counters)
    then record s { counters = insert "invalid_input" count s.counters }
    else s
