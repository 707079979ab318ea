-- ===== src/Needs/Current.antt =====
-- graph/states/s2.py: the bound needs record is that of the slots as they are known (I2).
use suraksha_setu.Prelude.{
  ℕ, String, ◌≡◌, refl, Bool, true, false, not, ◌&&◌, ◌||◌, Option, none, some, List, ◌str_eq◌,
  eq_iff, arith, Bool-cases, inl, inr, ◌⊎◌,
}
use suraksha_setu.Prelude.Dict.{lookup, insert}
use suraksha_setu.Prelude.Texts.{in_texts}
use suraksha_setu.Fsm.Facts.{is_some}
use suraksha_setu.Turn.State.{EligibilityResult, SuitabilityResult}
use suraksha_setu.Screening.State.{
  Value, SlotStatus, confirmed, is_confirmed, RequiredAttribute, PromptId, HeldNeeds, NeedsBody,
  TurnInput, Setup, Screen,
}
use suraksha_setu.Screening.Take.{is_rule, status_of, write}
use suraksha_setu.Screening.Evaluate.{correction}
use suraksha_setu.Screening.Kept.{Property, KeptByWrites}
use suraksha_setu.Needs.Setup.{sent_slots, NeedsRules, setup_of, payload}
use suraksha_setu.Needs.Prompt.{bind}
use suraksha_setu.Needs.Own.{is_bound}
use suraksha_setu.Needs.Node.{screen_of, node}
use suraksha_setu.Needs.Payload.{Agrees, Agrees-insert_other, Agrees-insert_same, payload-cong}
use suraksha_setu.Needs.Kept.{KeptByNeeds}
use suraksha_setu.Needs.Turns.{route-Holds}
use suraksha_setu.Needs.NodeKept.{correction-Keeps, node-Holds}

abbrev pub inputs_of : Option SuitabilityResult → Option String
inputs_of none = none
inputs_of (some result) = some result.inputs_sha256

-- S1's rules ask no slot that the needs are read from.
abbrev pub Apart : Setup → Type 0
Apart screening =
    (slot : String)
    → (is_rule slot screening.attrs || in_texts slot screening.extra) ≡ true
    → in_texts slot sent_slots ≡ false

module _ (rules : NeedsRules) where
  abbrev pub BoundTo : Option String → NeedsBody → Option SuitabilityResult → Type 0
  BoundTo none body result = Unit
  BoundTo (some digest) body result =
      (digest ≡ rules.needs_sha256 body) × (inputs_of result ≡ some digest)

  abbrev pub CurrentFor : Option HeldNeeds → NeedsBody → Option SuitabilityResult → Type 0
  CurrentFor none body result = Unit
  CurrentFor (some held) body result = BoundTo held.slots_sha256 body result

  abbrev CurrentProperty : Property
  CurrentProperty known rows engine needs result count =
      CurrentFor needs (payload known count) result

  -- I2: a bound record has the hash of the needs as the slots now give them, and the result that is
  -- held is the one for that hash.
  abbrev pub Current : Screen → Type 0
  Current s = CurrentFor s.needs (payload s.known s.comprehension) s.suitability

  BoundTo-none :
      (digest : Option String) (body : NeedsBody) (result : Option SuitabilityResult)
      → is_some digest ≡ false
      → BoundTo digest body result
  BoundTo-none none body result h = tt
  BoundTo-none (some d) body result h = absurd (ground arith)

  CurrentFor-unbound :
      (needs : Option HeldNeeds) (body : NeedsBody) (result : Option SuitabilityResult)
      → is_bound needs ≡ false
      → CurrentFor needs body result
  CurrentFor-unbound none body result h = tt
  CurrentFor-unbound (some held) body result h = BoundTo-none held.slots_sha256 body result h

  -- A write that drops the record, or leaves the values of the needs slots.
  write-Current :
      (setup : Setup) (slot : String) (value : Value) (status : SlotStatus) (confidence : ℕ)
      (s : Screen)
      → ((not (is_confirmed status) && in_texts slot setup.needs_slots) ≡ true)
        ⊎ Agrees sent_slots (insert slot (status, value) s.known) s.known
      → Current s
      → Current (write setup slot value status confidence s)
  unfolding write
  write-Current setup slot value status confidence s (inl dropped) h = rw dropped tt
  write-Current setup slot value status confidence s (inr agrees) h =
      elim (Bool-cases (not (is_confirmed status) && in_texts slot setup.needs_slots)) [
        | inl d ↦ rw d tt
        | inr d ↦ rw (d, payload-cong _ _ s.comprehension agrees) h
      ]

  kept_current :
      (required : List RequiredAttribute) (input : TurnInput) (prompt : Option PromptId)
      → KeptByNeeds (setup_of rules required) input prompt CurrentProperty
  kept_current required input prompt = record {
    on_unbound = λ s. CurrentFor-unbound s.needs (payload s.known s.comprehension) s.suitability;
    on_engine = λ e s h. h;
    on_unconfirmed = λ slot value status confidence s c h.
        write-Current (setup_of rules required) slot value status confidence s
          (elim (Bool-cases (in_texts slot sent_slots)) [
            | inl k ↦ inl (rw (c, k) refl)
            | inr k ↦ inr (Agrees-insert_other sent_slots s.known slot (status, value) k)
          ])
          h;
    on_confirm = λ slot value status s r y e h.
        write-Current (setup_of rules required) slot value confirmed rules.full_confidence s
          (inr (Agrees-insert_same sent_slots s.known slot status value e)) h;
  }

  screening_writes :
      (screening : Setup) (input : TurnInput) (prompt : Option PromptId)
      → Apart screening
      → KeptByWrites screening input prompt CurrentProperty
  screening_writes screening input prompt apart = record {
    on_answer = λ slot evidence raw confidence a s rule sure e adult h.
        write-Current screening slot a.value (status_of a (lookup slot s.known)) confidence s
          (inr (Agrees-insert_other sent_slots s.known slot _ (apart slot rule))) h;
    on_confirm = λ slot value status s r y e h.
        write-Current screening slot value confirmed screening.full_confidence s
          (inr (Agrees-insert_same sent_slots s.known slot status value e)) h;
  }

  bind-Current :
      (required : List RequiredAttribute) (input : TurnInput) (result : SuitabilityResult)
      (s : Screen)
      → s.suitability ≡ some result
      → Current (bind rules (setup_of rules required) result s).1
  unfolding bind
  bind-Current required input result s e =
      let body = payload s.known s.comprehension in
      let digest = rules.needs_sha256 body in
      let prompt = s.last_prompt_id in
      let setup = setup_of rules required in
      elim (Bool-cases (digest str_eq result.inputs_sha256)) [
        | inr k ↦ rw k tt
        | inl k ↦
            let same : digest ≡ result.inputs_sha256 = (eq_iff digest result.inputs_sha256).0 k in
            rw k (
              route-Holds rules setup input prompt CurrentProperty false result
                (record s { needs = some (record { body = body; slots_sha256 = some digest }) })
                (refl, rw (e, same) refl))
      ]

  -- I2 is kept by every turn of S2: after it, a needs record is bound only to the hash of the needs
  -- as the known slots give them, and the suitability result that is held answered for that hash;
  -- whatever was said, and also when a service is down or the turn fails. S1's rules must ask no slot
  -- of the needs.
  pub node-Current :
      (screening : Setup) (engine : List (String × Value) → Option EligibilityResult)
      (input : TurnInput) (is_valid asks_human overlong : Bool) (s : Screen)
      → Apart screening
      → Current s
      → Current (screen_of (node rules screening engine input is_valid asks_human overlong s))
  node-Current screening engine input is_valid asks_human overlong s apart h =
      let prompt = (correction screening engine input is_valid s).1.last_prompt_id in
      node-Holds rules screening engine input prompt CurrentProperty
        (λ required. kept_current required input prompt)
        (λ required result t r y e k. bind-Current required input result t e) is_valid asks_human
        overlong s refl
        (correction-Keeps screening engine input prompt CurrentProperty
          (screening_writes screening input prompt apart) is_valid s h)
