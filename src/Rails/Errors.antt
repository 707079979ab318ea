-- ===== src/Rails/Errors.antt =====
-- rails/redact.py: what the Verhoeff checksum detects. Its tables are small enough to be searched.
use suraksha_setu.Prelude.{
  ℕ, zero, suc, ◌≡◌, ◌≢◌, ◌<◌, refl, sym, ap, ◌∙◌, Bool, true, false, not, ◌&&◌, ◌||◌, [], ◌∷◌,
  ◌++◌, ◌+◌, ◌%◌, ◌==◌, ltb, ltb→lt, arith, length, Bool-cases, inl, inr, Option, none, some,
}
use suraksha_setu.Fsm.Facts.{is_some}
use suraksha_setu.Rails.Verhoeff.{
  value_or_zero, Digits, verhoeff_d, verhoeff_p, digit_value, is_digit, all_digits, entry, step,
  checksum_from, reverse, verhoeff_valid,
}

abbrev all_below : ℕ → (ℕ → Bool) → Bool
all_below zero p = true
all_below (suc n) p = p n && all_below n p

all_below-at : (n : ℕ) (p : ℕ → Bool) (i : ℕ) → all_below n p ≡ true → i < n → p i ≡ true
all_below-at zero p i h l = absurd (omega arith)
all_below-at (suc n) p i h l = elim (Bool-cases (i == n)) [
  | inl e ↦ let same : i ≡ n = ground arith in rw same (ground arith)
  | inr e ↦ all_below-at n p i (ground arith) (ground arith)
]

all_pairs-at :
    (n m : ℕ) (p : ℕ → ℕ → Bool) (i j : ℕ)
    → all_below n (λ a. all_below m (p a)) ≡ true
    → i < n
    → j < m
    → p i j ≡ true
all_pairs-at n m p i j h hi hj =
    all_below-at m (p i) j (all_below-at n (λ a. all_below m (p a)) i h hi) hj

all_triples-at :
    (n : ℕ) (p : ℕ → ℕ → ℕ → Bool) (i j k : ℕ)
    → all_below n (λ a. all_below 10 (λ b. all_below 10 (p a b))) ≡ true
    → i < n
    → j < 10
    → k < 10
    → p i j k ≡ true
all_triples-at n p i j k h hi hj hk =
    all_pairs-at 10 10 (p i) j k
      (all_below-at n (λ a. all_below 10 (λ b. all_below 10 (p a b))) i h hi) hj hk

abbrev d_at : ℕ → ℕ → ℕ
d_at = entry verhoeff_d

abbrev p_at : ℕ → ℕ → ℕ
p_at = entry verhoeff_p

abbrev column_test : ℕ → ℕ → ℕ → Bool
column_test x a b = not (d_at a x == d_at b x) || a == b

abbrev row_test : ℕ → ℕ → ℕ → Bool
row_test c x y = not (d_at c x == d_at c y) || x == y

abbrev permutation_test : ℕ → ℕ → ℕ → Bool
permutation_test i x y = not (p_at i x == p_at i y) || x == y

columns_differ : all_below 10 (λ x. all_below 10 (λ a. all_below 10 (column_test x a))) ≡ true
unfolding verhoeff_d
columns_differ = refl

rows_differ : all_below 10 (λ c. all_below 10 (λ x. all_below 10 (row_test c x))) ≡ true
unfolding verhoeff_d
rows_differ = refl

permutations_differ :
    all_below 8 (λ i. all_below 10 (λ x. all_below 10 (permutation_test i x))) ≡ true
unfolding verhoeff_p
permutations_differ = refl

d_digits : all_below 10 (λ c. all_below 10 (λ x. ltb (d_at c x) 10)) ≡ true
unfolding verhoeff_d
d_digits = refl

p_digits : all_below 8 (λ i. all_below 10 (λ x. ltb (p_at i x) 10)) ≡ true
unfolding verhoeff_p
p_digits = refl

d_at-digit : (c x : ℕ) → c < 10 → x < 10 → d_at c x < 10
d_at-digit c x hc hx =
    ltb→lt (d_at c x) 10 (all_pairs-at 10 10 (λ a b. ltb (d_at a b) 10) c x d_digits hc hx)

p_at-digit : (i x : ℕ) → i < 8 → x < 10 → p_at i x < 10
p_at-digit i x hi hx =
    ltb→lt (p_at i x) 10 (all_pairs-at 8 10 (λ a b. ltb (p_at a b) 10) i x p_digits hi hx)

column_injective : (x a b : ℕ) → x < 10 → a < 10 → b < 10 → d_at a x ≡ d_at b x → a ≡ b
column_injective x a b hx ha hb e =
    let t : column_test x a b ≡ true =
      all_triples-at 10 column_test x a b columns_differ hx ha hb in
    ground arith

row_injective : (c x y : ℕ) → c < 10 → x < 10 → y < 10 → d_at c x ≡ d_at c y → x ≡ y
row_injective c x y hc hx hy e =
    let t : row_test c x y ≡ true = all_triples-at 10 row_test c x y rows_differ hc hx hy in
    ground arith

permutation_injective : (i x y : ℕ) → i < 8 → x < 10 → y < 10 → p_at i x ≡ p_at i y → x ≡ y
permutation_injective i x y hi hx hy e =
    let t : permutation_test i x y ≡ true =
      all_triples-at 8 permutation_test i x y permutations_differ hi hx hy in
    ground arith

mod_lt : (i : ℕ) → i % 8 < 8
mod_lt i = omega arith

append_assoc : (xs ys zs : Digits) → (xs ++ ys) ++ zs ≡ xs ++ (ys ++ zs)
append_assoc [] ys zs = refl
append_assoc (x ∷ xs) ys zs = ap (λ r. x ∷ r) (append_assoc xs ys zs)

reverse-middle :
    (pre post : Digits) (c : ℕ) → reverse (pre ++ c ∷ post) ≡ reverse post ++ (c ∷ reverse pre)
unfolding reverse
reverse-middle [] post c = refl
reverse-middle (x ∷ pre) post c =
    ap (λ r. r ++ x ∷ []) (reverse-middle pre post c)
    ∙ append_assoc (reverse post) (c ∷ reverse pre) (x ∷ [])

value_below :
    (o : Option ℕ) (n : ℕ) → ((v : ℕ) → o ≡ some v → v < n) → is_some o ≡ true → value_or_zero o < n
value_below none n f h = absurd (ground arith)
value_below (some v) n f h = f v refl

same_some :
    (o p : Option ℕ)
    → is_some o ≡ true
    → is_some p ≡ true
    → value_or_zero o ≡ value_or_zero p
    → o ≡ p
same_some none p h g e = absurd (ground arith)
same_some (some v) none h g e = absurd (ground arith)
same_some (some v) (some w) h g e = ap some e

module _ (decimal : ℕ → Option ℕ) (decimal_lt : (c v : ℕ) → decimal c ≡ some v → v < 10) where
  digit_lt : (c : ℕ) → is_digit decimal c ≡ true → digit_value decimal c < 10
  digit_lt c h = value_below (decimal c) 10 (decimal_lt c) h

  same_decimal :
      (a b : ℕ)
      → is_digit decimal a ≡ true
      → is_digit decimal b ≡ true
      → digit_value decimal a ≡ digit_value decimal b
      → decimal a ≡ decimal b
  same_decimal a b ha hb e = same_some (decimal a) (decimal b) ha hb e

  step-digit : (c i ch : ℕ) → c < 10 → is_digit decimal ch ≡ true → step decimal c i ch < 10
  unfolding step
  step-digit c i ch hc h =
      d_at-digit c (p_at (i % 8) (digit_value decimal ch)) hc
        (p_at-digit (i % 8) (digit_value decimal ch) (mod_lt i) (digit_lt ch h))

  -- A step keeps two checksums, and two digits, apart.
  step-checksums :
      (a b i ch : ℕ)
      → a < 10
      → b < 10
      → is_digit decimal ch ≡ true
      → step decimal a i ch ≡ step decimal b i ch
      → a ≡ b
  unfolding step
  step-checksums a b i ch ha hb h e =
      column_injective (p_at (i % 8) (digit_value decimal ch)) a b
        (p_at-digit (i % 8) (digit_value decimal ch) (mod_lt i) (digit_lt ch h)) ha hb e

  step-digits :
      (c i x y : ℕ)
      → c < 10
      → is_digit decimal x ≡ true
      → is_digit decimal y ≡ true
      → step decimal c i x ≡ step decimal c i y
      → digit_value decimal x ≡ digit_value decimal y
  unfolding step
  step-digits c i x y hc hx hy e =
      let dx : digit_value decimal x < 10 = digit_lt x hx in
      let dy : digit_value decimal y < 10 = digit_lt y hy in
      let p =
        row_injective c (p_at (i % 8) (digit_value decimal x))
          (p_at (i % 8) (digit_value decimal y)) hc
          (p_at-digit (i % 8) (digit_value decimal x) (mod_lt i) dx)
          (p_at-digit (i % 8) (digit_value decimal y) (mod_lt i) dy) e in
      permutation_injective (i % 8) (digit_value decimal x) (digit_value decimal y) (mod_lt i) dx dy
        p

  checksum_from-checksums :
      (a b i : ℕ) (cs : Digits)
      → a < 10
      → b < 10
      → all_digits decimal cs ≡ true
      → checksum_from decimal a i cs ≡ checksum_from decimal b i cs
      → a ≡ b
  unfolding checksum_from
  checksum_from-checksums a b i [] ha hb h e = e
  checksum_from-checksums a b i (c ∷ cs) ha hb h e =
      let hc : is_digit decimal c ≡ true = ground arith in
      step-checksums a b i c ha hb hc (
        checksum_from-checksums (step decimal a i c) (step decimal b i c) (i + 1) cs
          (step-digit a i c ha hc) (step-digit b i c hb hc) (ground arith) e)

  checksum_from-digit :
      (a i : ℕ) (cs : Digits)
      → a < 10
      → all_digits decimal cs ≡ true
      → checksum_from decimal a i cs < 10
  unfolding checksum_from
  checksum_from-digit a i [] ha h = ha
  checksum_from-digit a i (c ∷ cs) ha h =
      checksum_from-digit (step decimal a i c) (i + 1) cs (step-digit a i c ha (ground arith))
        (ground arith)

  checksum_from-append :
      (a i : ℕ) (xs ys : Digits)
      → checksum_from decimal a i (xs ++ ys)
        ≡ checksum_from decimal (checksum_from decimal a i xs) (i + length xs) ys
  unfolding checksum_from
  checksum_from-append a i [] ys = ap (λ n. checksum_from decimal a n ys) (omega arith)
  checksum_from-append a i (x ∷ xs) ys =
      checksum_from-append (step decimal a i x) (i + 1) xs ys
      ∙ ap (λ n. checksum_from decimal (checksum_from decimal (step decimal a i x) (i + 1) xs) n ys)
          (omega arith)

  all_digits-append :
      (xs ys : Digits)
      → all_digits decimal (xs ++ ys) ≡ true
      → (all_digits decimal xs ≡ true) × (all_digits decimal ys ≡ true)
  all_digits-append [] ys h = (refl, h)
  all_digits-append (x ∷ xs) ys h =
      let (hx, hy) = all_digits-append xs ys (ground arith) in (ground arith, hy)

  append-all_digits :
      (xs ys : Digits)
      → all_digits decimal xs ≡ true
      → all_digits decimal ys ≡ true
      → all_digits decimal (xs ++ ys) ≡ true
  append-all_digits [] ys hx hy = hy
  append-all_digits (x ∷ xs) ys hx hy =
      let rest = append-all_digits xs ys (ground arith) hy in ground arith

  reverse-all_digits :
      (xs : Digits) → all_digits decimal xs ≡ true → all_digits decimal (reverse xs) ≡ true
  unfolding reverse
  reverse-all_digits [] h = h
  reverse-all_digits (x ∷ xs) h =
      append-all_digits (reverse xs) (x ∷ []) (reverse-all_digits xs (ground arith)) (ground arith)

  -- Two numbers that differ in one digit have different checksums.
  checksum-differs :
      (xs ys : Digits) (a b : ℕ)
      → all_digits decimal xs ≡ true
      → all_digits decimal ys ≡ true
      → is_digit decimal a ≡ true
      → is_digit decimal b ≡ true
      → checksum_from decimal 0 0 (xs ++ a ∷ ys) ≡ checksum_from decimal 0 0 (xs ++ b ∷ ys)
      → digit_value decimal a ≡ digit_value decimal b
  unfolding checksum_from
  checksum-differs xs ys a b hx hy ha hb e =
      let c = checksum_from decimal 0 0 xs in
      let hc : c < 10 = checksum_from-digit 0 0 xs (omega arith) hx in
      let same : checksum_from decimal (step decimal c (0 + length xs) a) (0 + length xs + 1) ys
          ≡ checksum_from decimal (step decimal c (0 + length xs) b) (0 + length xs + 1) ys =
        sym (checksum_from-append 0 0 xs (a ∷ ys)) ∙ e ∙ checksum_from-append 0 0 xs (b ∷ ys) in
      step-digits c (0 + length xs) a b hc ha hb (
        checksum_from-checksums (step decimal c (0 + length xs) a)
          (step decimal c (0 + length xs) b) (0 + length xs + 1) ys
          (step-digit c (0 + length xs) a hc ha) (step-digit c (0 + length xs) b hc hb) hy same)

  valid-checksum :
      (ds : Digits)
      → verhoeff_valid decimal ds ≡ true
      → (all_digits decimal ds ≡ true) × (checksum_from decimal 0 0 (reverse ds) ≡ 0)
  unfolding verhoeff_valid
  valid-checksum ds h = ground arith

  -- Every error in a single digit is detected: when a valid number has one of its characters replaced
  -- by one that is not a digit, or is a digit of another value, the result is not valid. The value of
  -- every decimal digit is below 10.
  pub single_error_detected :
      (pre post : Digits) (a b : ℕ)
      → verhoeff_valid decimal (pre ++ a ∷ post) ≡ true
      → decimal a ≢ decimal b
      → verhoeff_valid decimal (pre ++ b ∷ post) ≡ false
  single_error_detected pre post a b h ne =
      elim (Bool-cases (verhoeff_valid decimal (pre ++ b ∷ post))) [
        | inr e ↦ e
        | inl k ↦
            let (da, ca) = valid-checksum (pre ++ a ∷ post) h in
            let (db, cb) = valid-checksum (pre ++ b ∷ post) k in
            let (hp, ha) = all_digits-append pre (a ∷ post) da in
            let (_, hb) = all_digits-append pre (b ∷ post) db in
            let same : checksum_from decimal 0 0 (reverse post ++ a ∷ reverse pre)
                ≡ checksum_from decimal 0 0 (reverse post ++ b ∷ reverse pre) =
              (ap (checksum_from decimal 0 0) (sym (reverse-middle pre post a)) ∙ ca)
              ∙ sym (ap (checksum_from decimal 0 0) (sym (reverse-middle pre post b)) ∙ cb) in
            let value : digit_value decimal a ≡ digit_value decimal b =
              checksum-differs (reverse post) (reverse pre) a b
                (reverse-all_digits post (ground arith)) (reverse-all_digits pre hp) (ground arith)
                (ground arith) same in
            absurd (ne (same_decimal a b (ground arith) (ground arith) value))
      ]
