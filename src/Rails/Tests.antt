-- ===== src/Rails/Tests.antt =====
-- The checksum on concrete numbers.
use suraksha_setu.Rails.Redact.{
  aadhaar, RecognizerResult, never_store, entities, sorted_results, insert_result, keep_disjoint,
  Text, redact,
}
use suraksha_setu.Rails.Hidden.{
  all_types, is_covered, char_at, redacted_hides_entities, stored_hides_never_stored,
}
use suraksha_setu.Prelude.{
  ℕ, ◌≡◌, ◌≢◌, refl, true, false, [], ◌∷◌, ◌++◌, arith, List, suc, zero, Option, none, some, ◌-◌,
  ◌<◌, ◌&&◌, leb, if◌then◌else◌,
}
use suraksha_setu.Rails.Verhoeff.{
  Digits, verhoeff_valid, checksum_from, reverse, step, verhoeff_d, verhoeff_p,
}
use suraksha_setu.Rails.Errors.{single_error_detected}

-- 234123412346 as code points, in two parts around its fourth digit.
abbrev front : Digits
front = 50 ∷ 51 ∷ 52 ∷ []

abbrev back : Digits
back = 50 ∷ 51 ∷ 52 ∷ 49 ∷ 50 ∷ 51 ∷ 52 ∷ 54 ∷ []

-- The decimal digits of ASCII and of Devanagari.
abbrev decimal : ℕ → Option ℕ
decimal c =
    if leb 48 c && leb c 57
    then some (c - 48)
    else if leb 2406 c && leb c 2415
    then some (c - 2406)
    else none

decimal_lt : (c v : ℕ) → decimal c ≡ some v → v < 10
decimal_lt c v h = ground arith

valid_number : verhoeff_valid decimal (front ++ 49 ∷ back) ≡ true
unfolding verhoeff_valid checksum_from reverse step verhoeff_d verhoeff_p
valid_number = refl

-- The digit one of another script in its place is the same number.
other_script : verhoeff_valid decimal (front ++ 2407 ∷ back) ≡ true
unfolding verhoeff_valid checksum_from reverse step verhoeff_d verhoeff_p
other_script = refl

abbrev one : ℕ
one = 49

abbrev two : ℕ
two = 50

one_is_not_two : decimal one ≢ decimal two
one_is_not_two e = ground arith

single_error_detected_example : verhoeff_valid decimal (front ++ 50 ∷ back) ≡ false
single_error_detected_example =
    single_error_detected decimal decimal_lt front back one two valid_number one_is_not_two

-- A number from the second character on, in two texts.
abbrev one_number : List RecognizerResult
one_number = record { entity_type = aadhaar; start = 1; stop = 2; score = 9 } ∷ []

abbrev with_one : Text
with_one = "a" ∷ "1" ∷ []

abbrev with_two : Text
with_two = "a" ∷ "2" ∷ []

same_outside :
    (i : ℕ)
    → is_covered all_types (entities 5 one_number) i ≡ false
    → char_at i with_one ≡ char_at i with_two
unfolding entities sorted_results insert_result keep_disjoint char_at
same_outside zero h = refl
same_outside (suc zero) h = absurd (ground arith)
same_outside (suc (suc i)) h = refl

same_outside_stored :
    (i : ℕ)
    → is_covered never_store (entities 5 one_number) i ≡ false
    → char_at i with_one ≡ char_at i with_two
unfolding entities sorted_results insert_result keep_disjoint char_at
same_outside_stored zero h = refl
same_outside_stored (suc zero) h = absurd (ground arith)
same_outside_stored (suc (suc i)) h = refl

redacted_hides_entities_example :
    (redact 5 one_number with_one).redacted ≡ (redact 5 one_number with_two).redacted
redacted_hides_entities_example =
    redacted_hides_entities 5 one_number with_one with_two (omega arith, tt) same_outside

stored_hides_never_stored_example :
    (redact 5 one_number with_one).stored_raw ≡ (redact 5 one_number with_two).stored_raw
stored_hides_never_stored_example =
    stored_hides_never_stored 5 one_number with_one with_two (omega arith, tt) same_outside_stored
