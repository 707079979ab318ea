-- ===== src/Rails/Verhoeff.antt =====
-- rails/redact.py: the Verhoeff checksum of an Aadhaar number. A text is the list of its code points,
-- and `decimal` is Python's reading of a decimal digit of any script: `isdigit()` of the character with
-- its `int()`, or none. A digit that is no decimal, such as a superscript, for which `int()` raises, is
-- left out: the pattern of the recogniser matches decimals only.
use suraksha_setu.Fsm.Facts.{is_some}
use suraksha_setu.Prelude.{
  ℕ, Bool, true, false, not, ◌&&◌, ◌||◌, List, [], ◌∷◌, ◌++◌, ◌+◌, ◌%◌, ◌==◌, Option, none, some,
  if◌then◌else◌, length, get_or,
}

abbrev pub Digits : Type 0
Digits = List ℕ

unfoldable pub verhoeff_d : List (List ℕ)
verhoeff_d =
    (0 ∷ 1 ∷ 2 ∷ 3 ∷ 4 ∷ 5 ∷ 6 ∷ 7 ∷ 8 ∷ 9 ∷ [])
    ∷ (1 ∷ 2 ∷ 3 ∷ 4 ∷ 0 ∷ 6 ∷ 7 ∷ 8 ∷ 9 ∷ 5 ∷ [])
    ∷ (2 ∷ 3 ∷ 4 ∷ 0 ∷ 1 ∷ 7 ∷ 8 ∷ 9 ∷ 5 ∷ 6 ∷ [])
    ∷ (3 ∷ 4 ∷ 0 ∷ 1 ∷ 2 ∷ 8 ∷ 9 ∷ 5 ∷ 6 ∷ 7 ∷ [])
    ∷ (4 ∷ 0 ∷ 1 ∷ 2 ∷ 3 ∷ 9 ∷ 5 ∷ 6 ∷ 7 ∷ 8 ∷ [])
    ∷ (5 ∷ 9 ∷ 8 ∷ 7 ∷ 6 ∷ 0 ∷ 4 ∷ 3 ∷ 2 ∷ 1 ∷ [])
    ∷ (6 ∷ 5 ∷ 9 ∷ 8 ∷ 7 ∷ 1 ∷ 0 ∷ 4 ∷ 3 ∷ 2 ∷ [])
    ∷ (7 ∷ 6 ∷ 5 ∷ 9 ∷ 8 ∷ 2 ∷ 1 ∷ 0 ∷ 4 ∷ 3 ∷ [])
    ∷ (8 ∷ 7 ∷ 6 ∷ 5 ∷ 9 ∷ 3 ∷ 2 ∷ 1 ∷ 0 ∷ 4 ∷ [])
    ∷ (9 ∷ 8 ∷ 7 ∷ 6 ∷ 5 ∷ 4 ∷ 3 ∷ 2 ∷ 1 ∷ 0 ∷ [])
    ∷ []

unfoldable pub verhoeff_p : List (List ℕ)
verhoeff_p =
    (0 ∷ 1 ∷ 2 ∷ 3 ∷ 4 ∷ 5 ∷ 6 ∷ 7 ∷ 8 ∷ 9 ∷ [])
    ∷ (1 ∷ 5 ∷ 7 ∷ 6 ∷ 2 ∷ 8 ∷ 3 ∷ 0 ∷ 9 ∷ 4 ∷ [])
    ∷ (5 ∷ 8 ∷ 0 ∷ 3 ∷ 7 ∷ 9 ∷ 6 ∷ 1 ∷ 4 ∷ 2 ∷ [])
    ∷ (8 ∷ 9 ∷ 1 ∷ 6 ∷ 0 ∷ 4 ∷ 3 ∷ 5 ∷ 2 ∷ 7 ∷ [])
    ∷ (9 ∷ 4 ∷ 5 ∷ 3 ∷ 1 ∷ 2 ∷ 6 ∷ 8 ∷ 7 ∷ 0 ∷ [])
    ∷ (4 ∷ 2 ∷ 8 ∷ 6 ∷ 5 ∷ 7 ∷ 3 ∷ 9 ∷ 0 ∷ 1 ∷ [])
    ∷ (2 ∷ 7 ∷ 9 ∷ 3 ∷ 8 ∷ 0 ∷ 6 ∷ 4 ∷ 1 ∷ 5 ∷ [])
    ∷ (7 ∷ 0 ∷ 4 ∷ 6 ∷ 9 ∷ 1 ∷ 3 ∷ 2 ∷ 5 ∷ 8 ∷ [])
    ∷ []

-- `T[i][j]`; every index that the checksum takes is in its table.
abbrev pub entry : List (List ℕ) → ℕ → ℕ → ℕ
entry rows i j = get_or (get_or rows i []) j 0

unfoldable pub reverse : Digits → Digits
reverse [] = []
reverse (c ∷ cs) = reverse cs ++ c ∷ []

abbrev pub value_or_zero : Option ℕ → ℕ
value_or_zero none = 0
value_or_zero (some v) = v

module _ (decimal : ℕ → Option ℕ) where
  -- `int(ch)`, of a digit.
  abbrev pub digit_value : ℕ → ℕ
  digit_value c = value_or_zero (decimal c)

  abbrev pub is_digit : ℕ → Bool
  is_digit c = is_some (decimal c)

  abbrev pub all_digits : Digits → Bool
  all_digits [] = true
  all_digits (c ∷ cs) = is_digit c && all_digits cs

  unfoldable pub step : ℕ → ℕ → ℕ → ℕ
  step checksum i c = entry verhoeff_d checksum (entry verhoeff_p (i % 8) (digit_value c))

  -- The loop over the reversed digits, from the checksum and the index so far.
  unfoldable pub checksum_from : ℕ → ℕ → Digits → ℕ
  unfolding step
  checksum_from checksum i [] = checksum
  checksum_from checksum i (c ∷ cs) = checksum_from (step checksum i c) (i + 1) cs

  unfoldable pub verhoeff_valid : Digits → Bool
  unfolding checksum_from reverse
  verhoeff_valid digits =
      if not (length digits == 12) || not (all_digits digits)
      then false
      else checksum_from 0 0 (reverse digits) == 0
