-- ===== src/Screening/Prompt.antt =====
-- graph/states/s1.py: the prompts that a screen puts. Of a reply its part ids and its quick replies
-- are kept: the texts are the bundle's.
use suraksha_setu.Prelude.{
  String, Bool, true, false, not, ◌&&◌, Option, none, some, List, [], ◌∷◌, ◌++◌, if◌then◌else◌,
}
use suraksha_setu.Prelude.Dict.{lookup}
use suraksha_setu.Fsm.Facts.{is_some}
use suraksha_setu.Screening.State.{
  Value, nothing, SlotStatus, confirmed, is_confirmed, RequiredAttribute, Prefix, ask_prompt,
  confirm_prompt, readback_prompt, fix_prompt, QuickReply, code_reply, reask_reply, confirm_reply,
  Setup, Screen, ok, raised, M, ◌>>=◌, ret,
}
use suraksha_setu.Screening.Take.{
  Known, first_missing, asked, attr, is_all_confirmed, pending, write,
}

unfoldable pub reply : List String → List QuickReply → Screen → Screen
reply parts quick s = record s { parts = s.lead ++ parts; quick_replies = quick ++ s.replies }

-- S1 and S2 lead with a generated sentence; Quote-Only is never phrased.
abbrev pub is_phrased : Prefix → Bool
is_phrased Prefix.qo = false
is_phrased _ = true

abbrev pub is_nil {ℓ} : {A : Type ℓ} → List A → Bool
is_nil [] = true
is_nil (x ∷ xs) = false

abbrev pub or_text : Option String → String → String
or_text none t = t
or_text (some c) t = c

abbrev pub code_replies : String → List String → List QuickReply
code_replies slot [] = []
code_replies slot (c ∷ cs) = code_reply slot c ∷ code_replies slot cs

abbrev pub reask_replies : List RequiredAttribute → List QuickReply
reask_replies [] = []
reask_replies (a ∷ as') = reask_reply a.attribute ∷ reask_replies as'

abbrev pub yes_no_replies : List QuickReply
yes_no_replies = confirm_reply true ∷ confirm_reply false ∷ []

abbrev pub value_of : Option (SlotStatus × Value) → Value
value_of none = nothing
value_of (some (status, value)) = value

module _ (setup : Setup) where
  -- `ask`, with the question's own choices or with `quick`, and a clarification in place of the
  -- question.
  unfoldable pub ask_with : RequiredAttribute → List QuickReply → Option String → Screen → Screen
  unfolding reply
  ask_with a quick instead s =
      let opened = record s {
        pending_slot = some a.attribute;
        last_prompt_id = some (ask_prompt setup.prefix a.attribute);
      } in
      let said = reply (or_text instead a.reason_line_id ∷ []) quick opened in
      if not (is_some instead) && is_phrased setup.prefix && is_nil s.lead
      then record said { phrase = some a.reason_line_id }
      else said

  abbrev pub ask : RequiredAttribute → Screen → Screen
  ask a = ask_with a (setup.choices a.attribute) none

  abbrev pub can_read_known : String → Screen → Bool
  can_read_known slot s = setup.can_read slot (value_of (lookup slot s.known))

  abbrev pub can_read_all : List RequiredAttribute → Screen → Bool
  can_read_all [] s = true
  can_read_all (a ∷ as') s = can_read_known a.attribute s && can_read_all as' s

  unfoldable pub confirm_one : String → M (Unit {0})
  unfolding reply
  confirm_one slot s =
      let opened = record s {
        pending_slot = some slot;
        last_prompt_id = some (confirm_prompt setup.prefix slot);
      } in
      if can_read_known slot s
      then (ok tt, reply ("readback" ∷ []) yes_no_replies opened)
      else (raised, opened)

  unfoldable pub readback : M (Unit {0})
  unfolding reply
  readback s =
      if can_read_all (asked setup s) s
      then (
        ok tt,
        reply ("readback" ∷ []) yes_no_replies (record s {
          pending_slot = none;
          last_prompt_id = some (readback_prompt setup.prefix);
        }),
      )
      else (raised, s)

  unfoldable pub fix : Screen → Screen
  unfolding reply
  fix s =
      reply ("readback_fix" ∷ []) (reask_replies (asked setup s))
        (record s { pending_slot = none; last_prompt_id = some (fix_prompt setup.prefix) })

  -- The loop of `confirm_all` over the attributes that were asked. The read-back is put only when
  -- each of them has a value.
  unfoldable pub confirm_each : List RequiredAttribute → Screen → Screen
  unfolding write
  confirm_each [] s = s
  confirm_each (a ∷ as') s = elim (lookup a.attribute s.known) [
    | none ↦ confirm_each as' s
    | some (status, value) ↦
        let kept = confirm_each as' s in
        let confirmed_now =
          confirm_each as' (write setup a.attribute value confirmed setup.full_confidence s) in
        if is_confirmed status then kept else confirmed_now
  ]

  abbrev pub confirm_all : Screen → Screen
  confirm_all s = confirm_each (asked setup s) s

  abbrev pub unknown_pending : Option String → Known → Option String
  unknown_pending none known = none
  unknown_pending (some slot) known = if is_some (lookup slot known) then none else some slot

  abbrev pub open_question : Screen → Option RequiredAttribute
  open_question s = elim (unknown_pending (pending setup s) s.known) [
    | none ↦ none
    | some slot ↦ attr setup slot s
  ]

  abbrev pub or_attr :
      Option RequiredAttribute → Option RequiredAttribute → Option RequiredAttribute
  or_attr none b = b
  or_attr (some a) b = some a

  abbrev pub next_question : Screen → Option RequiredAttribute
  next_question s = or_attr (open_question s) (first_missing (asked setup s) s.known)

  abbrev pub choice_offered :
      Option (String × List String) → Screen → Option (RequiredAttribute × List QuickReply)
  choice_offered none s = none
  choice_offered (some (slot, codes)) s = elim (attr setup slot s) [
    | none ↦ none
    | some a ↦ some (a, code_replies slot codes)
  ]

  -- A read-back at once, the open question again or the first missing one, or the read-back of all.
  abbrev pub next_attr : Option RequiredAttribute → M Bool
  next_attr (some a) s = (ok false, ask a s)
  next_attr none s =
      if is_all_confirmed setup s then (ok true, s) else (readback >>= λ done. ret false) s

  abbrev pub next_confirm : Option String → M Bool
  next_confirm (some slot) s = (confirm_one slot >>= λ done. ret false) s
  next_confirm none s = next_attr (next_question s) s

  abbrev pub next_choice : Option (RequiredAttribute × List QuickReply) → M Bool
  next_choice (some (a, quick)) s = (ok false, ask_with a quick none s)
  next_choice none s = next_confirm s.confirm s

  -- The next prompt after the lead parts. True when every asked slot is confirmed.
  unfoldable pub next : M Bool
  unfolding ask_with confirm_one readback
  next s = next_choice (choice_offered s.options s) s
