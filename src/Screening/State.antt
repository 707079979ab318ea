-- ===== src/Screening/State.antt =====
-- graph/states/s1.py: the state of one turn of `Screen`, with the fields of the session and of the
-- turn that it reads or writes. A slot holds one kind of value, so that Python's equality of a
-- number and a flag never decides; a prompt id is its parts; a confidence is its multiple of a fixed
-- unit. A rule's asked_if is the slot and the literal of its one form: any other fails the turn.
use suraksha_setu.Prelude.{
  ℕ, String, Bool, true, false, not, ◌&&◌, Option, none, some, List, [], ◌∷◌, ◌==◌, ◌str_eq◌,
}
use suraksha_setu.Fsm.States.{FsmState}
use suraksha_setu.Fsm.Facts.{Score}
use suraksha_setu.Turn.State.{EligibilityPayload, SuitabilityResult, Intent}
use suraksha_setu.Turn.Decide.{Signal}

pub data Value : Type 0 where
  nothing : Value
  flag : Bool → Value
  number : ℕ → Value
  text : String → Value
  -- {HEALTH: flag}
  health : Option Bool → Value
  -- S2's: the goals in their rank, each dependant with the age, each loan with the amount owed and
  -- the years left
  goals : List String → Value
  dependants : List (String × ℕ) → Value
  liabilities : List (String × (String × ℕ)) → Value

abbrev same_flag : Bool → Bool → Bool
same_flag true b = b
same_flag false b = not b

abbrev same_health : Option Bool → Option Bool → Bool
same_health none none = true
same_health (some a) (some b) = same_flag a b
same_health none (some b) = false
same_health (some a) none = false

abbrev same_list {ℓ} : {A : Type ℓ} → (A → A → Bool) → List A → List A → Bool
same_list same [] [] = true
same_list same (x ∷ xs) (y ∷ ys) = same x y && same_list same xs ys
same_list same _ _ = false

abbrev same_dependant : String × ℕ → String × ℕ → Bool
same_dependant (r, a) (s, b) = (r str_eq s) && (a == b)

abbrev same_loan : String × (String × ℕ) → String × (String × ℕ) → Bool
same_loan (k, (a, m)) (l, (b, n)) = (k str_eq l) && (a str_eq b) && (m == n)

abbrev pub same_value : Value → Value → Bool
same_value nothing nothing = true
same_value (flag a) (flag b) = same_flag a b
same_value (number a) (number b) = a == b
same_value (text a) (text b) = a str_eq b
same_value (health a) (health b) = same_health a b
same_value (goals a) (goals b) = same_list (λ g h. g str_eq h) a b
same_value (dependants a) (dependants b) = same_list same_dependant a b
same_value (liabilities a) (liabilities b) = same_list same_loan a b
same_value _ _ = false

pub data SlotStatus : Type 0 where
  proposed corrected declined confirmed : SlotStatus

abbrev pub is_confirmed : SlotStatus → Bool
is_confirmed confirmed = true
is_confirmed _ = false

pub record SlotRow : Type 0 where
  pub slot : String
  pub value : Value
  pub confidence : ℕ
  pub status : SlotStatus

pub record Answer : Type 0 where
  pub value : Value
  pub is_declined : Bool
  pub is_derived : Bool

-- What `understand` returns; `domain_down` is the DomainError that it raises.
pub data Understood : Type 0 where
  answered : Answer → Understood
  several : List String → Understood
  unusable domain_down : Understood
  -- S2's Period: a yearly amount that was said without its period
  left_open : ℕ → Understood

pub record RequiredAttribute : Type 0 where
  pub attribute : String
  pub reason_line_id : String
  pub asked_if : Option (String × Value)

-- nlu-extract's SlotCandidate.
pub record SlotCandidate : Type 0 where
  pub slot : String
  pub value : Value
  pub evidence_span : String
  pub confidence : ℕ

pub data Prefix : Type 0 where
  s1 qo s2 : Prefix

abbrev prefix_number : Prefix → ℕ
prefix_number s1 = 0
prefix_number qo = 1
prefix_number s2 = 2

abbrev pub same_prefix : Prefix → Prefix → Bool
same_prefix a b = prefix_number a == prefix_number b

-- "<prefix>.ask:<slot>", "<prefix>.confirm:<slot>", "<prefix>.readback" and so on.
pub data PromptId : Type 0 where
  ask_prompt confirm_prompt : Prefix → String → PromptId
  readback_prompt fix_prompt advisor_prompt : Prefix → PromptId
  -- S2's: "s2.period:<slot>:<amount>", "s2.short", "s2.elect", "s2.amber" and "s2.done"
  period_prompt : String → ℕ → PromptId
  short_prompt elect_prompt amber_prompt done_prompt : PromptId
  other_prompt : String → PromptId

-- Of a yearly amount: said for a month or for a year.
pub data Period : Type 0 where
  month year : Period

pub data QuickReply : Type 0 where
  slot_reply : String → Value → QuickReply
  code_reply : String → String → QuickReply
  reask_reply : String → QuickReply
  confirm_reply : Bool → QuickReply
  human_reply continue_reply retry_reply : QuickReply
  period_reply : Period → QuickReply
  elect_reply : Bool → QuickReply

abbrev pub is_human_reply : QuickReply → Bool
is_human_reply human_reply = true
is_human_reply _ = false

-- The turn's structured action, as the screen reads it.
pub data Action : Type 0 where
  no_action : Action
  -- with the value as a text
  slot_answer : String → Value → String → Action
  reask : String → Action
  confirm_answer : Option Bool → Action
  -- S2's ELECT and PERIOD
  elect_answer : Option Bool → Action
  period_answer : Option Period → Action
  other_action : Action

-- What is read of the customer's message: the texts that the bundle's lexicons find in it, and what
-- parse_yes_no makes of the whole.
pub record Message : Type 0 where
  pub stored_raw : String
  pub intents : List Intent
  pub blocked : Bool
  pub has_question_mark : Bool
  pub pushes_back : Bool
  pub conceals : Bool
  pub names_illness : Bool
  pub yes_no : Option Bool
  -- the texts of S2's lexicon, and the period that the message names
  pub is_distressed : Bool
  pub is_confused : Bool
  pub wants_short_path : Bool
  pub period_said : Option Period

pub record TurnInput : Type 0 where
  pub action : Action
  pub pipeline : Option Message
  pub slots_pending : List SlotCandidate
  pub is_text : Bool
  pub identity : Bool
  -- routed to the side query or the objection handler, or a language switch
  pub handled : Bool

pub record ScreenSettings : Type 0 where
  pub confidence_readback_floor : ℕ
  pub confidence_accept : ℕ
  pub invalid_input_limit : ℕ

-- The fixed parts of a turn's screen, and the hooks that S2 overrides.
pub record Setup : Type 0 where
  pub prefix : Prefix
  pub attrs : List RequiredAttribute
  pub extra : List String
  pub settings : ScreenSettings
  pub kinds : List String
  pub alias : String → String
  pub eligibility_slots : List String
  pub needs_slots : List String
  pub understand : String → Value → String → Understood
  -- whether the domain answers for a value that is read back
  pub can_read : String → Value → Bool
  pub choices : String → List QuickReply
  -- the confidence 1, in its unit
  pub full_confidence : ℕ

-- The needs as they are sent to the Suitability Service: the slots, the flag and the count.
pub record NeedsBody : Type 0 where
  pub slots : List (String × Value)
  pub financial_distress : Bool
  pub comprehension_difficulty_count : ℕ

-- The session's needs record, bound once it has its hash.
pub record HeldNeeds : Type 0 where
  pub body : NeedsBody
  pub slots_sha256 : Option String

-- The audit events that S2 appends.
pub data NeedsEvent : Type 0 where
  engine_decision : NeedsBody → String → SuitabilityResult → NeedsEvent
  sufficiency_election : Score → Score → ℕ → Bool → NeedsEvent

pub record Screen : Type 0 where
  -- the session's
  pub fsm_state : FsmState
  pub counters : List (String × ℕ)
  pub last_prompt_id : Option PromptId
  pub pending_slot : Option String
  pub eligibility : Option EligibilityPayload
  pub needs : Option HeldNeeds
  pub suitability : Option SuitabilityResult
  -- the counter "comprehension_difficulty", apart from the others
  pub comprehension : ℕ
  -- the turn's
  pub needs_events : List NeedsEvent
  pub slot_rows : List SlotRow
  pub signals : List Signal
  pub parts : List String
  pub quick_replies : List QuickReply
  pub phrase : Option String
  pub is_answered : Bool
  -- the screen's own
  pub known : List (String × (SlotStatus × Value))
  pub lead : List String
  pub replies : List QuickReply
  pub filled : List String
  pub offered : List String
  pub confirm : Option String
  pub options : Option (String × List String)
  pub noted : Bool
  -- of the subclass of S2
  pub period : Option (String × ℕ)
  pub offer_short : Bool
  pub rephrased : Bool
  pub distressed_now : Bool

pub data Result (A : Type 0) : Type 0 where
  ok : A → Result A
  -- a DomainError, which the node answers with the retry
  raised : Result A

-- Steps on the screen, which a DomainError cuts short.
abbrev pub M : Type 0 → Type 0
M A = Screen → Result A × Screen

abbrev pub after : {A B : Type 0} → Result A × Screen → (A → M B) → Result B × Screen
after (ok a, s) f = f a s
after (raised, s) f = (raised, s)

infixl 5 ◌>>=◌ ◌>>◌
abbrev pub ◌>>=◌ : {A B : Type 0} → M A → (A → M B) → M B
◌>>=◌ m f s = after (m s) f

abbrev pub ◌>>◌ : {A B : Type 0} → M A → M B → M B
m >> k = m >>= λ _. k

abbrev pub ret : {A : Type 0} → A → M A
ret a s = (ok a, s)

-- A step that only changes the screen.
abbrev pub modify : (Screen → Screen) → M (Unit {0})
modify f s = (ok tt, f s)
