-- ===== src/Rails/Redact.antt =====
-- rails/redact.py: `entities` and `redact`. What Presidio's analyzer finds in a text is an argument;
-- a score is its multiple of a fixed unit. A text is the list of its characters, and an output is its
-- parts before they are joined.
use suraksha_setu.Prelude.{
  ℕ, zero, suc, String, ◌+◌, Bool, true, false, not, ◌||◌, List, [], ◌∷◌, leb, ltb, if◌then◌else◌,
}
use Prim.Native.Char.{Char}
use suraksha_setu.Prelude.Dict.{insert, count_of}

pub data EntityType : Type 0 where
  aadhaar card pan in_mobile ifsc bank_account email_address : EntityType

abbrev pub entity_name : EntityType → String
entity_name aadhaar = "AADHAAR"
entity_name card = "CARD"
entity_name pan = "PAN"
entity_name in_mobile = "IN_MOBILE"
entity_name ifsc = "IFSC"
entity_name bank_account = "BANK_ACCOUNT"
entity_name email_address = "EMAIL_ADDRESS"

-- `NEVER_STORE`
abbrev pub never_store : EntityType → Bool
never_store aadhaar = true
never_store card = true
never_store bank_account = true
never_store _ = false

pub record RecognizerResult : Type 0 where
  pub entity_type : EntityType
  pub start : ℕ
  pub stop : ℕ
  pub score : ℕ

pub record Entity : Type 0 where
  pub entity_type : EntityType
  pub start : ℕ
  pub stop : ℕ

abbrev is_bank_account : EntityType → Bool
is_bank_account bank_account = true
is_bank_account _ = false

-- A bank account needs a context word nearby.
abbrev pub scored : ℕ → RecognizerResult → Bool
scored min_score r = not (is_bank_account r.entity_type) || leb min_score r.score

unfoldable pub insert_result : RecognizerResult → List RecognizerResult → List RecognizerResult
insert_result r [] = r ∷ []
insert_result r (x ∷ xs) =
    let later = insert_result r xs in if leb r.start x.start then r ∷ x ∷ xs else x ∷ later

-- The results that count, sorted by start; the sort is stable.
unfoldable pub sorted_results : ℕ → List RecognizerResult → List RecognizerResult
unfolding insert_result
sorted_results min_score [] = []
sorted_results min_score (r ∷ rs) =
    let rest = sorted_results min_score rs in
    if scored min_score r then insert_result r rest else rest

-- Without those that begin before the end of the last one kept.
unfoldable pub keep_disjoint : ℕ → List RecognizerResult → List Entity
keep_disjoint last [] = []
keep_disjoint last (r ∷ rs) =
    let skipped = keep_disjoint last rs in
    let kept = keep_disjoint r.stop rs in
    if ltb r.start last
    then skipped
    else record { entity_type = r.entity_type; start = r.start; stop = r.stop } ∷ kept

unfoldable pub entities : ℕ → List RecognizerResult → List Entity
unfolding keep_disjoint sorted_results
entities min_score results = keep_disjoint 0 (sorted_results min_score results)

abbrev pub Text : Type 0
Text = List Char

-- `text[a:b]`
unfoldable pub slice : ℕ → ℕ → Text → Text
slice a zero t = []
slice a (suc b) [] = []
slice zero (suc b) (x ∷ t) = x ∷ slice zero b t
slice (suc a) (suc b) (x ∷ t) = slice a b t

-- `text[a:]`
unfoldable pub slice_from : ℕ → Text → Text
slice_from zero t = t
slice_from (suc a) [] = []
slice_from (suc a) (x ∷ t) = slice_from a t

pub data Part : Type 0 where
  verbatim : Text → Part
  -- "[REDACTED]"
  mask : Part
  -- "<TYPE_n>"
  token : EntityType → ℕ → Part

abbrev pub stored_part : EntityType → Text → Part
stored_part kind span = if never_store kind then mask else verbatim span

pub record RedactResult : Type 0 where
  pub stored_raw : List Part
  pub redacted : List Part
  pub reminder : Bool

-- The loop, from a cursor and the counts.
unfoldable pub redact_from : Text → ℕ → List (String × ℕ) → List Entity → RedactResult
unfolding slice slice_from count_of
redact_from t cursor counts [] = record {
  stored_raw = verbatim (slice_from cursor t) ∷ [];
  redacted = verbatim (slice_from cursor t) ∷ [];
  reminder = false;
}
redact_from t cursor counts (e ∷ es) =
    let gap = verbatim (slice cursor e.start t) in
    let n = count_of (entity_name e.entity_type) counts + 1 in
    let rest = redact_from t e.stop (insert (entity_name e.entity_type) n counts) es in
    record {
      stored_raw = gap ∷ stored_part e.entity_type (slice e.start e.stop t) ∷ rest.stored_raw;
      redacted = gap ∷ token e.entity_type n ∷ rest.redacted;
      reminder = never_store e.entity_type || rest.reminder;
    }

unfoldable pub redact : ℕ → List RecognizerResult → Text → RedactResult
unfolding redact_from entities
redact min_score results t = redact_from t 0 [] (entities min_score results)
