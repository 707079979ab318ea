-- ===== src/Handlers/Pause.antt =====
-- graph/handlers/pause.py. The domain services are functions that answer or fail; dates are counted
-- in days.
use suraksha_setu.Prelude.{
  ℕ, String, Bool, true, false, not, ◌&&◌, ◌||◌, Option, none, some, List, [], ◌∷◌, ltb, ◌str_eq◌,
  if◌then◌else◌,
}
use suraksha_setu.Prelude.Texts.{in_texts}

pub record Product : Type 0 where
  pub status : String
  pub effective_to : Option ℕ

pub data ProductReply : Type 0 where
  found : Product → ProductReply
  not_found failed : ProductReply

pub record OptionShown : Type 0 where
  pub uin : String
  -- the day until which its quote is valid
  pub quote_until : Option ℕ

pub data Stale : Type 0 where
  product_kill_switch product_withdrawn quote_expired : Stale

pub data Checked (A : Type 0) : Type 0 where
  checked : A → Checked A
  raised : Checked A

pub record Session (Consent : Type 0) : Type 0 where
  pub consent : Option Consent
  pub recommendation : Option (List OptionShown)
  pub quote : Option ℕ

-- `pause`: the parts of the reply.
unfoldable pub pause_parts : Bool → List String → List String
pause_parts true parts = "dependency_down" ∷ "paused" ∷ parts
pause_parts false parts = "paused" ∷ parts

abbrev pub ended_by : ℕ → Option ℕ → Bool
ended_by today none = false
ended_by today (some day) = ltb day today

abbrev pub is_sold : ℕ → Product → Bool
is_sold today p = p.status str_eq "in_force" && not (ended_by today p.effective_to)

abbrev pub any_killed : List String → List OptionShown → Bool
any_killed switches [] = false
any_killed switches (o ∷ os) = in_texts o.uin switches || any_killed switches os

abbrev pub any_expired : ℕ → List OptionShown → Bool
any_expired today [] = false
any_expired today (o ∷ os) = ended_by today o.quote_until || any_expired today os

module _ (kill_switches : List String) (get_product : String → ProductReply) (today : ℕ) where
  abbrev pub after_product : ProductReply → Checked Bool → Checked Bool
  after_product (found p) rest = if is_sold today p then rest else checked true
  after_product not_found rest = checked true
  after_product failed rest = raised

  -- Whether a product is withdrawn, the first that is not sold deciding.
  unfoldable pub any_withdrawn : List OptionShown → Checked Bool
  any_withdrawn [] = checked false
  any_withdrawn (o ∷ os) = after_product (get_product o.uin) (any_withdrawn os)

  abbrev pub or_expired : List OptionShown → Checked Bool → Checked (Option Stale)
  or_expired os raised = raised
  or_expired os (checked true) = checked (some product_withdrawn)
  or_expired os (checked false) =
      checked (if any_expired today os then some quote_expired else none)

  -- `_stale`
  unfoldable pub stale : List OptionShown → Checked (Option Stale)
  unfolding any_withdrawn
  stale os =
      if any_killed kill_switches os
      then checked (some product_kill_switch)
      else or_expired os (any_withdrawn os)

  module _ {Consent : Type 0} (get_consent : Consent → Checked Consent) where
    abbrev pub drop_quote : Session Consent → Session Consent
    drop_quote s = record s { quote = if ended_by today s.quote then none else s.quote }

    abbrev pub kept_options : List OptionShown → Option Stale → Option (List OptionShown)
    kept_options os none = some os
    kept_options os (some reason) = none

    abbrev pub with_stale :
        List OptionShown → Session Consent → Checked (Option Stale) → Checked (Session Consent)
    with_stale os s (checked reason) =
        checked (drop_quote (record s { recommendation = kept_options os reason }))
    with_stale os s raised = raised

    abbrev pub revalidated : Option (List OptionShown) → Session Consent → Checked (Session Consent)
    revalidated none s = checked (drop_quote s)
    revalidated (some os) s = with_stale os s (stale os)

    abbrev pub with_consent : Session Consent → Checked Consent → Checked (Session Consent)
    with_consent s (checked c) = revalidated s.recommendation (record s { consent = some c })
    with_consent s raised = raised

    abbrev pub resume_from : Option Consent → Session Consent → Checked (Session Consent)
    resume_from none s = revalidated s.recommendation s
    resume_from (some c) s = with_consent s (get_consent c)

    -- `resume`: an error ends the turn.
    unfoldable pub resume : Session Consent → Checked (Session Consent)
    unfolding stale
    resume s = resume_from s.consent s
