-- ===== src/Screening/Respond.antt =====
-- graph/states/s1.py: notes, respond and the node's evaluation.
use suraksha_setu.Prelude.{
  String, Bool, true, false, not, ◌&&◌, ◌||◌, Option, none, some, List, [], ◌∷◌, ◌++◌, ◌+◌, leb,
  ◌==◌, if◌then◌else◌,
}
use suraksha_setu.Prelude.Dict.{insert, count_of}
use suraksha_setu.Fsm.Facts.{is_some}
use suraksha_setu.Turn.State.{Intent}
use suraksha_setu.Turn.Facts.{has}
use suraksha_setu.Turn.Decide.{Signal, minor, human_request}
use suraksha_setu.Screening.State.{
  Prefix, same_prefix, PromptId, ask_prompt, confirm_prompt, readback_prompt, advisor_prompt,
  human_reply, continue_reply, Action, no_action, slot_answer, reask, confirm_answer, Message,
  RequiredAttribute, TurnInput, Setup, Screen, Result, ok, M, ◌>>=◌, ◌>>◌, ret, modify,
}
use suraksha_setu.Screening.Take.{
  pending, note, disclosed, attr, take_candidates, answer_pending, slot_action, count_invalid,
}
use suraksha_setu.Screening.Prompt.{reply, is_nil, ask, ask_with, fix, confirm_all, next}

unfoldable pub when : Bool → (Screen → Screen) → Screen → Screen
when true f s = f s
when false f s = s

abbrev pub intents_of_message : Option Message → List Intent
intents_of_message none = []
intents_of_message (some m) = m.intents

-- `self.noted = True`
abbrev pub mark_noted : Screen → Screen
mark_noted s = record s { noted = true }

abbrev is_minor : Signal → Bool
is_minor minor = true
is_minor _ = false

-- `turn.signals.get("minor")`
abbrev pub has_minor : List Signal → Bool
has_minor [] = false
has_minor (s ∷ ss) = is_minor s || has_minor ss

abbrev pub add_signal : Signal → Screen → Screen
add_signal signal s = record s { signals = s.signals ++ signal ∷ [] }

-- An answer to the open prompt: the CONFIRM quick reply, or a whole-message yes or no.
abbrev pub said : TurnInput → Option Bool
said input = elim input.action [
  | confirm_answer b ↦ b
  | _ ↦ elim input.pipeline [ none ↦ none | some m ↦ if input.is_text then m.yes_no else none ]
]

abbrev pub is_express : Prefix → Screen → List Intent → Bool
is_express prefix s intents =
    has Intent.express_path intents
    && same_prefix prefix Prefix.s1
    && (count_of "express_path" s.counters == 0)

module _ (setup : Setup) (input : TurnInput) where
  abbrev pub is_question : Message → Bool
  is_question m =
      m.has_question_mark || has Intent.side_query m.intents || has Intent.general_faq m.intents

  unfoldable pub note_pushback : Message → Screen → Screen
  unfolding note when
  note_pushback m =
      when m.pushes_back (λ t. record (note "material_fact_note" t) { is_answered = true })

  unfoldable pub note_concealment : Message → Screen → Screen
  unfolding note when
  note_concealment m = when m.conceals (note "nondisclosure_note")

  unfoldable pub note_illness : Message → Screen → Screen
  unfolding note disclosed when
  note_illness m =
      when m.names_illness (λ t. if is_question m then note "underwriting_note" t else disclosed t)

  unfoldable pub note_express : Message → Screen → Screen
  unfolding note when count_of
  note_express m s =
      when (is_express setup.prefix s m.intents)
        (λ t. note "express_offer" (record t { counters = insert "express_path" 1 t.counters })) s

  unfoldable pub note_redirect : Message → Screen → Screen
  unfolding note when
  note_redirect m = when (has Intent.off_topic m.intents) (note "redirect")

  -- Any other question, unless it was an answer phrased as one.
  unfoldable pub note_question : Message → Screen → Screen
  unfolding note when
  note_question m s =
      when (is_question m && is_nil s.lead && is_nil s.filled && not input.handled)
        (note "side_query_caveat") s

  -- What the turn is, beyond an answer.
  unfoldable pub notes_of : Message → Screen → Screen
  unfolding note_pushback note_concealment note_illness note_express note_redirect note_question
      when
  notes_of m s =
      if m.blocked || input.identity
      then mark_noted s
      else note_question m (
          note_redirect m (
            note_express m (
              note_illness m
                (note_concealment m (note_pushback m (when input.handled mark_noted s))))))

  abbrev pub notes_in : Option Message → Screen → Screen
  notes_in none s = s
  notes_in (some m) s = notes_of m s

  unfoldable pub notes : Screen → Screen
  unfolding notes_of
  notes = notes_in input.pipeline

  abbrev pub is_text_turn : Action → Bool
  is_text_turn no_action = true
  is_text_turn _ = false

  -- `_invalid`, at an open question whose attribute is asked: the hint, and at the limit the offer
  -- of an advisor.
  unfoldable pub invalid_answer : RequiredAttribute → Screen → Screen
  unfolding count_invalid count_of reply ask_with
  invalid_answer a s =
      let counted = count_invalid false s in
      if leb setup.settings.invalid_input_limit (count_of "invalid_input" s.counters + 1)
      then reply ("advisor_offer" ∷ []) (human_reply ∷ continue_reply ∷ [])
          (record (count_invalid true counted) {
            last_prompt_id = some (advisor_prompt setup.prefix);
          })
      else ask_with setup a (setup.choices a.attribute) (some "format_hint") counted

  -- The attribute that an unusable answer was for, where `_invalid` is the reply.
  abbrev pub invalid_for : Option PromptId → Screen → Option RequiredAttribute
  invalid_for (some (ask_prompt prefix slot)) s =
      if not (is_text_turn input.action)
        || not (same_prefix prefix setup.prefix)
        || s.noted
        || is_some s.options
      then none
      else attr setup slot s
  invalid_for _ s = none

  abbrev pub or_next : Option RequiredAttribute → M Bool
  or_next none s = next setup s
  or_next (some a) s = (ok false, invalid_answer a s)

  abbrev pub re_asked :
      Option RequiredAttribute → Screen → Result Bool × Screen → Result Bool × Screen
  re_asked none s otherwise = otherwise
  re_asked (some a) s otherwise = (ok false, ask setup a s)

  abbrev pub is_readback : Option PromptId → Bool
  is_readback (some (readback_prompt prefix)) = same_prefix prefix setup.prefix
  is_readback _ = false

  abbrev pub is_advisor : Option PromptId → Bool
  is_advisor (some (advisor_prompt prefix)) = same_prefix prefix setup.prefix
  is_advisor _ = false

  abbrev pub confirm_slot : Option PromptId → Option String
  confirm_slot (some (confirm_prompt prefix slot)) =
      if same_prefix prefix setup.prefix then some slot else none
  confirm_slot _ = none

  abbrev pub after_advisor : Option Bool → M Bool
  after_advisor (some true) s = (ok false, add_signal human_request s)
  after_advisor _ s = next setup (count_invalid true s)

  -- After the advisor's offer, and else: an unusable answer, or the next prompt.
  unfoldable pub after_prompt : Option PromptId → Option Bool → M Bool
  unfolding next count_invalid invalid_answer
  after_prompt prompt answer s =
      if is_advisor prompt then after_advisor answer s else or_next (invalid_for prompt s) s

  abbrev pub confirm_attr : Option String → Screen → Option RequiredAttribute
  confirm_attr none s = none
  confirm_attr (some slot) s = attr setup slot s

  -- A no to the read-back of one value: its question again.
  unfoldable pub after_confirm : Option PromptId → Option Bool → M Bool
  unfolding after_prompt ask_with
  after_confirm prompt (some false) s =
      re_asked (confirm_attr (confirm_slot prompt) s) s (after_prompt prompt (some false) s)
  after_confirm prompt answer s = after_prompt prompt answer s

  -- A yes to the read-back of all confirms them.
  unfoldable pub after_readback : Option PromptId → Option Bool → M Bool
  unfolding after_confirm fix next
  after_readback prompt (some answer) s =
      if is_readback prompt
      then (if answer then next setup (confirm_all setup s) else (ok false, fix setup s))
      else after_confirm prompt (some answer) s
  after_readback prompt none s = after_confirm prompt none s

  unfoldable pub respond_rest : Option PromptId → M Bool
  unfolding after_readback count_invalid next
  respond_rest prompt s =
      if has_minor s.signals
      then (ok false, s)
      else if not (is_nil s.filled)
      then next setup (count_invalid true s)
      else after_readback prompt (said input) s

  abbrev pub re_ask : Option RequiredAttribute → M Bool
  re_ask none s = (ok false, s)
  re_ask (some a) s = (ok true, ask setup a s)

  abbrev pub take_message : M Bool
  take_message =
      take_candidates setup input.slots_pending
      >> (modify notes
          >> ((λ t. answer_pending setup input.pipeline (pending setup t) t) >>= λ done. ret false))

  abbrev pub take_action : Action → M Bool
  take_action (slot_answer slot value shown) =
      slot_action setup slot value shown >>= λ done. ret false
  take_action (reask slot) = λ s. re_ask (attr setup slot s) s
  take_action no_action = take_message
  take_action _ = ret false

  -- Takes the turn; true when it has put its reply already (a REASK).
  unfoldable pub take_turn : M Bool
  unfolding take_candidates answer_pending slot_action notes ask_with
  take_turn = take_action input.action

  unfoldable pub respond : M Bool
  unfolding take_turn respond_rest
  respond s =
      (take_turn >>= λ stopped. if stopped then ret false else respond_rest s.last_prompt_id) s
