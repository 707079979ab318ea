-- ===== src/Handlers/Objection.antt =====
-- graph/handlers/objection.py. Of a reply its part ids and its quick replies are kept. The side query
-- and S3's lower-cost versions are functions of the turn, of which the parts that they put and the
-- outcome of the side query are kept.
use suraksha_setu.Prelude.{
  ℕ, String, ◌+◌, Bool, true, false, not, ◌&&◌, ◌||◌, Option, none, some, List, [], ◌∷◌, ◌++◌, leb,
  if◌then◌else◌,
}
use suraksha_setu.Prelude.Dict.{insert, count_of}
use suraksha_setu.Fsm.States.{FsmState, s1, quote_only, s2, s3, same_state, in_states}
use suraksha_setu.Turn.State.{Intent}
use suraksha_setu.Turn.Facts.{has}
use suraksha_setu.Turn.Decide.{Signal, end_requested, need_time, set_objection}

pub data Kind : Type 0 where
  price trust competitor guarantee other deferral end : Kind

pub data ActionType : Type 0 where
  end_action save_action some_action : ActionType

-- What `detect` reads of the turn: its action, and of its message the intents and the lexicons that
-- it matches.
pub record Heard : Type 0 where
  pub action : Option ActionType
  pub is_text : Bool
  pub is_blocked : Bool
  pub intents : List Intent
  pub asks_for_time : Bool
  pub asks_for_cheaper : Bool
  pub asks_for_guarantee : Bool
  pub names_competitor : Bool

abbrev pub engaged : List FsmState
engaged = s1 ∷ quote_only ∷ s2 ∷ s3 ∷ []

-- `TYPES`, in its order.
abbrev types : List (Intent × Kind)
types =
    (Intent.objection_price, price)
    ∷ (Intent.objection_guarantee, guarantee)
    ∷ (Intent.objection_competitor, competitor)
    ∷ (Intent.objection_trust, trust)
    ∷ (Intent.objection_other, other)
    ∷ []

unfoldable pub first_type : List (Intent × Kind) → List Intent → Option Kind
first_type [] intents = none
first_type ((intent, kind) ∷ rest) intents =
    let later = first_type rest intents in if has intent intents then some kind else later

abbrev in_lexicons : Heard → Option Kind
in_lexicons h =
    if h.asks_for_cheaper
    then some price
    else if h.asks_for_guarantee
    then some guarantee
    else if h.names_competitor
    then some competitor
    else none

abbrev or_lexicons : Option Kind → Heard → Option Kind
or_lexicons none h = in_lexicons h
or_lexicons (some kind) h = some kind

abbrev of_message : FsmState → Heard → Option Kind
of_message state h =
    if not h.is_text || h.is_blocked
    then none
    else if not (same_state state s3) && (has Intent.need_time h.intents || h.asks_for_time)
    then some deferral
    else or_lexicons (first_type types h.intents) h

abbrev of_action : Option ActionType → FsmState → Heard → Option Kind
of_action (some end_action) state h = some end
of_action (some save_action) state h = if same_state state s3 then none else some deferral
of_action _ state h = of_message state h

unfoldable pub detect : FsmState → Heard → Option Kind
unfolding first_type
detect state h = if in_states state engaged then of_action h.action state h else none

pub data Response : Type 0 where
  exit_response pause_response offer_pause_exit state_response alternatives no_figure
        declined_response no_promise acknowledged :
      Response
  -- with the outcome of the side query
  cited wording : String → Response

-- The objection's name in the key of its counter.
abbrev pub kind_key : Kind → String
kind_key price = "objection_price"
kind_key trust = "objection_trust"
kind_key competitor = "objection_competitor"
kind_key guarantee = "objection_guarantee"
kind_key other = "objection_other"
kind_key deferral = "objection_deferral"
kind_key end = "objection_end"

pub record Talk : Type 0 where
  -- the session's
  pub fsm_state : FsmState
  pub has_p3 : Bool
  pub has_recommendation : Bool
  pub focus_uins : List String
  pub counters : List (String × ℕ)
  -- the turn's
  pub has_render : Bool
  pub degraded : Bool
  pub signals : List Signal
  pub parts : List String
  pub quick_replies : List String
  pub phrase : Option String
  pub objection : Option Kind
  pub objection_response : Option Response

-- What the side query puts, and its outcome.
pub record SideAnswer : Type 0 where
  pub parts : List String
  pub outcome : String

abbrev pub is_nil : List String → Bool
is_nil [] = true
is_nil (x ∷ xs) = false

-- `_lead`
abbrev pub lead : String → Talk → Talk
lead part t = record t { parts = part ∷ t.parts; phrase = none }

-- `_reply`
abbrev pub reply : List String → List String → Talk → Talk
reply parts quick t = record t { parts = parts; quick_replies = quick; phrase = none }

abbrev reengage : Talk → List String
reengage t =
    if t.has_p3 && (same_state t.fsm_state quote_only || same_state t.fsm_state s3)
    then "reengage" ∷ []
    else []

abbrev answered : Response → Talk → Talk
answered response t = record t { objection_response = some response }

module _ (repeat_limit : ℕ) (side_query : List String → List String → Talk → SideAnswer)
    (cheaper : Talk → List String) where
  abbrev by_side_query : List String → List String → (String → Response) → Talk → Talk
  by_side_query entities leads response t =
      let answer = side_query entities leads t in
      answered (response answer.outcome) (record t { parts = answer.parts })

  -- The answer to an objection that is not repeated too often.
  unfoldable pub rebut : Kind → Talk → Talk
  rebut price t =
      if same_state t.fsm_state s3 && t.has_recommendation
      then answered alternatives (record t { parts = cheaper t })
      else answered no_figure (lead "objection_price_early" t)
  rebut trust t = by_side_query ("claims" ∷ []) [] cited t
  rebut competitor t = answered declined_response (lead "competitor_note" t)
  rebut guarantee t =
      if (same_state t.fsm_state s3 && t.has_recommendation) || not (is_nil t.focus_uins)
      then by_side_query [] ("guarantee_note" ∷ []) wording t
      else answered no_promise (lead "guarantee_note" t)
  rebut _ t = answered acknowledged (lead "objection_other" t)

  abbrev offer : Talk → Talk
  offer t =
      answered offer_pause_exit
        (reply ("objection_repeat" ∷ []) ("SAVE" ∷ "END" ∷ "CONTINUE" ∷ []) t)

  abbrev raised : Kind → Talk → Talk
  raised kind t = record t { objection = some kind }

  -- An objection, counted.
  unfoldable pub respond_counted : Kind → Talk → Talk
  unfolding rebut count_of
  respond_counted kind t =
      let count = count_of (kind_key kind) t.counters + 1 in
      let counted = record (raised kind t) { counters = insert (kind_key kind) count t.counters } in
      if leb repeat_limit count
      then offer counted
      else if t.has_render || t.degraded
      then answered state_response counted
      else rebut kind counted

  unfoldable pub respond : Kind → Talk → Talk
  unfolding respond_counted
  respond end t = answered exit_response (
      reply ("declined_exit" ∷ reengage t) []
        (record (raised end t) { signals = t.signals ++ end_requested ∷ [] }))
  respond deferral t = answered pause_response (
      reply (reengage t) [] (record (raised deferral t) {
        signals = t.signals ++ need_time ∷ set_objection false ∷ [];
      }))
  respond kind t = respond_counted kind t
