-- ===== src/Rails/Hidden.antt =====
-- rails/redact.py: what the outputs of `redact` depend on.
use suraksha_setu.Prelude.{
  ℕ, zero, suc, String, ◌+◌, ◌≡◌, ◌≤◌, ◌<◌, refl, ap, sym, ◌∙◌, Bool, true, false, ◌&&◌, ◌||◌,
  Option, none, some, List, [], ◌∷◌, leb, ltb, arith, Bool-cases, inl, inr,
}
use Prim.Native.Char.{Char}
use suraksha_setu.Prelude.Dict.{insert, count_of}
use suraksha_setu.Rails.Redact.{
  EntityType, entity_name, never_store, RecognizerResult, Entity, sorted_results, keep_disjoint,
  entities, insert_result, scored, Text, slice, slice_from, stored_part, redact_from, redact,
}

unfoldable pub char_at : ℕ → Text → Option Char
char_at i [] = none
char_at zero (x ∷ t) = some x
char_at (suc i) (x ∷ t) = char_at i t

slice-nil : (a b : ℕ) → slice a b [] ≡ []
unfolding slice
slice-nil a zero = refl
slice-nil a (suc b) = refl

char_at-nil : (i : ℕ) → char_at i [] ≡ none
unfolding char_at
char_at-nil i = refl

slice-cong :
    (a b : ℕ) (t u : Text)
    → ((i : ℕ) → a ≤ i → i < b → char_at i t ≡ char_at i u)
    → slice a b t ≡ slice a b u
unfolding slice char_at
slice-cong a zero t u h = refl
slice-cong a (suc b) [] [] h = refl
slice-cong zero (suc b) (x ∷ t) (y ∷ u) h =
    let head : some x ≡ some y = h zero (omega arith) (omega arith) in
    let rest = slice-cong zero b t u (λ i l r. h (suc i) (omega arith) (omega arith)) in cc
slice-cong (suc a) (suc b) (x ∷ t) (y ∷ u) h =
    slice-cong a b t u (λ i l r. h (suc i) (omega arith) (omega arith))
slice-cong zero (suc b) [] (y ∷ u) h =
    let head : none ≡ some y = h zero (omega arith) (omega arith) in absurd (ground arith)
slice-cong zero (suc b) (x ∷ t) [] h =
    let head : some x ≡ none = h zero (omega arith) (omega arith) in absurd (ground arith)
slice-cong (suc a) (suc b) [] (y ∷ u) h =
    sym (slice-nil a b) ∙ slice-cong a b [] u (λ i l r. h (suc i) (omega arith) (omega arith))
slice-cong (suc a) (suc b) (x ∷ t) [] h =
    slice-cong a b t [] (λ i l r. h (suc i) (omega arith) (omega arith)) ∙ slice-nil a b

slice_from-nil : (a : ℕ) → slice_from a [] ≡ []
unfolding slice_from
slice_from-nil zero = refl
slice_from-nil (suc a) = refl

slice_from-cong :
    (a : ℕ) (t u : Text)
    → ((i : ℕ) → a ≤ i → char_at i t ≡ char_at i u)
    → slice_from a t ≡ slice_from a u
unfolding slice_from char_at
slice_from-cong a [] [] h = refl
slice_from-cong zero (x ∷ t) (y ∷ u) h =
    let head : some x ≡ some y = h zero (omega arith) in
    let rest : t ≡ u = slice_from-cong zero t u (λ i l. h (suc i) (omega arith)) in cc
slice_from-cong (suc a) (x ∷ t) (y ∷ u) h = slice_from-cong a t u (λ i l. h (suc i) (omega arith))
slice_from-cong zero [] (y ∷ u) h =
    let head : none ≡ some y = h zero (omega arith) in absurd (ground arith)
slice_from-cong zero (x ∷ t) [] h =
    let head : some x ≡ none = h zero (omega arith) in absurd (ground arith)
slice_from-cong (suc a) [] (y ∷ u) h =
    sym (slice_from-nil a) ∙ slice_from-cong a [] u (λ i l. h (suc i) (omega arith))
slice_from-cong (suc a) (x ∷ t) [] h =
    slice_from-cong a t [] (λ i l. h (suc i) (omega arith)) ∙ slice_from-nil a

-- Each begins where the one before ends, or later, and ends where it begins, or later.
abbrev pub Disjoint : ℕ → List Entity → Type 0
Disjoint cursor [] = Unit
Disjoint cursor (e ∷ es) = (cursor ≤ e.start) × ((e.start ≤ e.stop) × Disjoint e.stop es)

abbrev pub AllSpans : List RecognizerResult → Type 0
AllSpans [] = Unit
AllSpans (r ∷ rs) = (r.start ≤ r.stop) × AllSpans rs

keep_disjoint-Disjoint :
    (last : ℕ) (rs : List RecognizerResult) → AllSpans rs → Disjoint last (keep_disjoint last rs)
unfolding keep_disjoint
keep_disjoint-Disjoint last [] h = tt
keep_disjoint-Disjoint last (r ∷ rs) h = elim (Bool-cases (ltb r.start last)) [
  | inl b ↦ rw b (keep_disjoint-Disjoint last rs h.1)
  | inr b ↦ rw b (ground arith, (h.0, keep_disjoint-Disjoint r.stop rs h.1))
]

insert_result-AllSpans :
    (r : RecognizerResult) (rs : List RecognizerResult)
    → r.start ≤ r.stop
    → AllSpans rs
    → AllSpans (insert_result r rs)
unfolding insert_result
insert_result-AllSpans r [] l h = (l, tt)
insert_result-AllSpans r (x ∷ xs) l h = elim (Bool-cases (leb r.start x.start)) [
  | inl b ↦ rw b (l, h)
  | inr b ↦ rw b (h.0, insert_result-AllSpans r xs l h.1)
]

sorted_results-AllSpans :
    (m : ℕ) (rs : List RecognizerResult) → AllSpans rs → AllSpans (sorted_results m rs)
unfolding sorted_results
sorted_results-AllSpans m [] h = tt
sorted_results-AllSpans m (r ∷ rs) h = elim (Bool-cases (scored m r)) [
  | inl b ↦ rw b (insert_result-AllSpans r _ h.0 (sorted_results-AllSpans m rs h.1))
  | inr b ↦ rw b (sorted_results-AllSpans m rs h.1)
]

-- The position is in an entity of a type that is hidden.
abbrev pub is_covered : (EntityType → Bool) → List Entity → ℕ → Bool
is_covered hides [] i = false
is_covered hides (e ∷ es) i =
    (hides e.entity_type && (leb e.start i && ltb i e.stop)) || is_covered hides es i

abbrev pub all_types : EntityType → Bool
all_types kind = true

is_covered-before :
    (hides : EntityType → Bool) (cursor i : ℕ) (es : List Entity)
    → Disjoint cursor es
    → i < cursor
    → is_covered hides es i ≡ false
is_covered-before hides cursor i [] d l = refl
is_covered-before hides cursor i (e ∷ es) d l =
    let rest =
      is_covered-before hides e.stop i es d.1.1 (let a = d.0 in let b = d.1.0 in omega arith) in
    let a = d.0 in ground arith

-- The texts are the same wherever nothing is hidden, from a cursor on.
abbrev Agree : (EntityType → Bool) → ℕ → List Entity → Text → Text → Type 0
Agree hides cursor es t u =
    (i : ℕ) → cursor ≤ i → is_covered hides es i ≡ false → char_at i t ≡ char_at i u

gap-cong :
    (hides : EntityType → Bool) (cursor : ℕ) (e : Entity) (es : List Entity) (t u : Text)
    → Disjoint cursor (e ∷ es)
    → Agree hides cursor (e ∷ es) t u
    → slice cursor e.start t ≡ slice cursor e.start u
gap-cong hides cursor e es t u d agree = slice-cong cursor e.start t u (λ i l r.
    let later = is_covered-before hides e.stop i es d.1.1 (let a = d.1.0 in omega arith) in
    agree i l (ground arith))

span-cong :
    (hides : EntityType → Bool) (cursor : ℕ) (e : Entity) (es : List Entity) (t u : Text)
    → Disjoint cursor (e ∷ es)
    → Agree hides cursor (e ∷ es) t u
    → hides e.entity_type ≡ false
    → slice e.start e.stop t ≡ slice e.start e.stop u
span-cong hides cursor e es t u d agree h = slice-cong e.start e.stop t u (λ i l r.
    let later = is_covered-before hides e.stop i es d.1.1 r in
    agree i (let a = d.0 in omega arith) (ground arith))

later-Agree :
    (hides : EntityType → Bool) (cursor : ℕ) (e : Entity) (es : List Entity) (t u : Text)
    → Disjoint cursor (e ∷ es)
    → Agree hides cursor (e ∷ es) t u
    → Agree hides e.stop es t u
later-Agree hides cursor e es t u d agree i l n =
    agree i (let a = d.0 in let b = d.1.0 in omega arith) (ground arith)

redacted-cong :
    (t u : Text) (cursor : ℕ) (counts : List (String × ℕ)) (es : List Entity)
    → Disjoint cursor es
    → Agree all_types cursor es t u
    → (redact_from t cursor counts es).redacted ≡ (redact_from u cursor counts es).redacted
unfolding redact_from
redacted-cong t u cursor counts [] d agree =
    let rest = slice_from-cong cursor t u (λ i l. agree i l refl) in cc
redacted-cong t u cursor counts (e ∷ es) d agree =
    let gap = gap-cong all_types cursor e es t u d agree in
    let rest =
      redacted-cong t u e.stop
        (insert (entity_name e.entity_type) (count_of (entity_name e.entity_type) counts + 1)
          counts)
        es d.1.1 (later-Agree all_types cursor e es t u d agree) in
    cc

stored_part-cong :
    (hidden : Bool) (kind : EntityType) (a b : Text)
    → never_store kind ≡ hidden
    → (hidden ≡ false → a ≡ b)
    → stored_part kind a ≡ stored_part kind b
stored_part-cong true kind a b e h = rw e refl
stored_part-cong false kind a b e h = ap (stored_part kind) (h refl)

stored-cong :
    (t u : Text) (cursor : ℕ) (counts : List (String × ℕ)) (es : List Entity)
    → Disjoint cursor es
    → Agree never_store cursor es t u
    → (redact_from t cursor counts es).stored_raw ≡ (redact_from u cursor counts es).stored_raw
unfolding redact_from
stored-cong t u cursor counts [] d agree =
    let rest = slice_from-cong cursor t u (λ i l. agree i l refl) in cc
stored-cong t u cursor counts (e ∷ es) d agree =
    let gap = gap-cong never_store cursor e es t u d agree in
    let span =
      stored_part-cong (never_store e.entity_type) e.entity_type (slice e.start e.stop t)
        (slice e.start e.stop u) refl (span-cong never_store cursor e es t u d agree) in
    let rest =
      stored-cong t u e.stop
        (insert (entity_name e.entity_type) (count_of (entity_name e.entity_type) counts + 1)
          counts)
        es d.1.1 (later-Agree never_store cursor e es t u d agree) in
    cc

entities-Disjoint :
    (m : ℕ) (results : List RecognizerResult) → AllSpans results → Disjoint 0 (entities m results)
unfolding entities
entities-Disjoint m results h =
    keep_disjoint-Disjoint 0 (sorted_results m results) (sorted_results-AllSpans m results h)

-- The redacted text depends on no character of an entity that is kept: two texts in which the analyzer
-- finds the same results, each a span that ends where it begins or later, and which are the same
-- outside the entities kept, are redacted to the same. A result that is dropped since it overlaps an
-- entity kept is covered only as far as that one reaches.
pub redacted_hides_entities :
    (m : ℕ) (results : List RecognizerResult) (t u : Text)
    → AllSpans results
    → ((i : ℕ) → is_covered all_types (entities m results) i ≡ false → char_at i t ≡ char_at i u)
    → (redact m results t).redacted ≡ (redact m results u).redacted
unfolding redact
redacted_hides_entities m results t u spans agree =
    redacted-cong t u 0 [] (entities m results) (entities-Disjoint m results spans) (λ i l. agree i)

-- What is stored depends on no character of an Aadhaar number, a card number or a bank account: two
-- texts in which the analyzer finds the same results, each a span that ends where it begins or later,
-- and which are the same outside the entities of these types, are stored as the same.
pub stored_hides_never_stored :
    (m : ℕ) (results : List RecognizerResult) (t u : Text)
    → AllSpans results
    → ((i : ℕ) → is_covered never_store (entities m results) i ≡ false → char_at i t ≡ char_at i u)
    → (redact m results t).stored_raw ≡ (redact m results u).stored_raw
unfolding redact
stored_hides_never_stored m results t u spans agree =
    stored-cong t u 0 [] (entities m results) (entities-Disjoint m results spans) (λ i l. agree i)
