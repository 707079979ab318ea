-- ===== src/Needs/Respond.antt =====
-- graph/states/s2.py: a turn of S2's screen. It is S1's `respond`, with the methods that S2 overrides
-- in their place; the read-back is that of the node.
use suraksha_setu.Prelude.{
  String, Bool, true, false, not, Option, none, some, [], ◌∷◌, ◌+◌, leb, if◌then◌else◌,
}
use suraksha_setu.Prelude.Dict.{count_of}
use suraksha_setu.Turn.Decide.{human_request}
use suraksha_setu.Screening.State.{
  RequiredAttribute, PromptId, advisor_prompt, human_reply, continue_reply, Action, no_action,
  slot_answer, reask, TurnInput, Setup, Screen, Result, ok, M, ◌>>=◌, ◌>>◌, ret, modify,
}
use suraksha_setu.Screening.Take.{asked, attr, count_invalid}
use suraksha_setu.Screening.Prompt.{reply, is_nil, fix, confirm_each}
use suraksha_setu.Screening.Respond.{
  is_readback, is_advisor, confirm_slot, invalid_for, has_minor, add_signal, said,
}
use suraksha_setu.Needs.Setup.{on_path_setup}
use suraksha_setu.Needs.Take.{take_candidates, notes, answer, slot_action}
use suraksha_setu.Needs.Prompt.{ask, ask_needs, next}

module _ (setup : Setup) (input : TurnInput) (readback : M (Unit {0})) where
  abbrev pub attr_of : String → Screen → Option RequiredAttribute
  attr_of slot s = attr (on_path_setup setup s) slot s

  unfoldable pub invalid_answer : RequiredAttribute → Screen → Screen
  unfolding count_invalid count_of reply ask_needs
  invalid_answer a s =
      let counted = count_invalid false s in
      if leb setup.settings.invalid_input_limit (count_of "invalid_input" s.counters + 1)
      then reply ("advisor_offer" ∷ []) (human_reply ∷ continue_reply ∷ [])
          (record (count_invalid true counted) {
            last_prompt_id = some (advisor_prompt setup.prefix);
          })
      else ask_needs setup a (setup.choices a.attribute) (some "format_hint") counted

  abbrev pub or_next : Option RequiredAttribute → M Bool
  or_next none s = next setup readback s
  or_next (some a) s = (ok false, invalid_answer a s)

  abbrev pub re_asked :
      Option RequiredAttribute → Screen → Result Bool × Screen → Result Bool × Screen
  re_asked none s otherwise = otherwise
  re_asked (some a) s otherwise = (ok false, ask setup a s)

  abbrev pub after_advisor : Option Bool → M Bool
  after_advisor (some true) s = (ok false, add_signal human_request s)
  after_advisor _ s = next setup readback (count_invalid true s)

  unfoldable pub after_prompt : Option PromptId → Option Bool → M Bool
  unfolding next count_invalid invalid_answer
  after_prompt prompt yes_no s =
      if is_advisor setup input prompt
      then after_advisor yes_no s
      else or_next (invalid_for (on_path_setup setup s) input prompt s) s

  abbrev pub confirm_attr : Option String → Screen → Option RequiredAttribute
  confirm_attr none s = none
  confirm_attr (some slot) s = attr_of slot s

  unfoldable pub after_confirm : Option PromptId → Option Bool → M Bool
  unfolding after_prompt ask_needs
  after_confirm prompt (some false) s =
      re_asked (confirm_attr (confirm_slot setup input prompt) s) s
        (after_prompt prompt (some false) s)
  after_confirm prompt yes_no s = after_prompt prompt yes_no s

  -- `confirm_all`, over the attributes of the path.
  abbrev pub confirm_all : Screen → Screen
  confirm_all s = confirm_each setup (asked (on_path_setup setup s) s) s

  unfoldable pub after_readback : Option PromptId → Option Bool → M Bool
  unfolding after_confirm fix next confirm_each
  after_readback prompt (some agreed) s =
      if is_readback setup input prompt
      then (if agreed
          then next setup readback (confirm_all s)
          else (ok false, fix (on_path_setup setup s) s))
      else after_confirm prompt (some agreed) s
  after_readback prompt none s = after_confirm prompt none s

  unfoldable pub respond_rest : Option PromptId → M Bool
  unfolding after_readback count_invalid next
  respond_rest prompt s =
      if has_minor s.signals
      then (ok false, s)
      else if not (is_nil s.filled)
      then next setup readback (count_invalid true s)
      else after_readback prompt (said input) s

  abbrev pub re_ask : Option RequiredAttribute → M Bool
  re_ask none s = (ok false, s)
  re_ask (some a) s = (ok true, ask setup a s)

  abbrev pub take_message : M Bool
  take_message =
      take_candidates setup input.slots_pending
      >> (modify (notes setup input) >> (answer setup input.pipeline >>= λ done. ret false))

  abbrev pub take_action : Action → M Bool
  take_action (slot_answer slot value shown) =
      slot_action setup slot value shown >>= λ done. ret false
  take_action (reask slot) = λ s. re_ask (attr_of slot s) s
  take_action no_action = take_message
  take_action _ = ret false

  unfoldable pub take_turn : M Bool
  unfolding take_candidates answer slot_action notes ask_needs
  take_turn = take_action input.action

  unfoldable pub respond : M Bool
  unfolding take_turn respond_rest
  respond s =
      (take_turn >>= λ stopped. if stopped then ret false else respond_rest s.last_prompt_id) s
