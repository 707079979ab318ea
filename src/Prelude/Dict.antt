-- ===== src/Prelude/Dict.antt =====
-- A `dict` with text keys as an association list: `get` reads the first entry of a key, and an
-- assignment replaces it in place or adds it at the end, as Python's insertion order has it.
use text.Mathlib.Text.{◌==◌}
use text.Mathlib.TextEquality.{eq_iff}
use text.Mathlib.TextPositions.{eq_refl}
use Prim.Native.String.{String}
use Prim.Native.Nat.{ℕ}
use mathlib.Core.Path.{◌≡◌, refl}
use mathlib.Core.Logic.{inl, inr}
use mathlib.Core.Option.{Option, none, some}
use mathlib.Core.List.{List, [], ◌∷◌}
use native.Mathlib.Omega.{arith}
use suraksha_setu.Prelude.Tests.{if◌then◌else◌, Bool-cases}

-- `m.get(key)`
unfoldable pub lookup {ℓ} : {V : Type ℓ} → String → List (String × V) → Option V
lookup key [] = none
lookup key ((at, held) ∷ rest) =
    let further = lookup key rest in if at == key then some held else further

abbrev or_else {ℓ} : {V : Type ℓ} → Option V → Option V → Option V
or_else none other = other
or_else (some v) other = some v

-- `dict(pairs).get(key)`: the last of the key's pairs.
unfoldable pub last_of {ℓ} : {V : Type ℓ} → String → List (String × V) → Option V
last_of key [] = none
last_of key ((at, held) ∷ rest) =
    let further = last_of key rest in or_else further (if at == key then some held else none)

-- `m[key] = new`
unfoldable pub insert {ℓ} : {V : Type ℓ} → String → V → List (String × V) → List (String × V)
insert key new [] = (key, new) ∷ []
insert key new ((at, held) ∷ rest) =
    let further = insert key new rest in
    if at == key then (at, new) ∷ rest else (at, held) ∷ further

pub lookup-insert {ℓ} :
    {V : Type ℓ} (dict : List (String × V)) (key other : String) (new : V)
    → lookup other (insert key new dict) ≡ (if key == other then some new else lookup other dict)
unfolding lookup insert
lookup-insert [] key other new = refl
lookup-insert ((at, held) ∷ rest) key other new =
    ground
      (arith, eq_iff at key, eq_iff key other, eq_iff at other, lookup-insert rest key other new)

pub lookup-insert_self {ℓ} :
    {V : Type ℓ} (key : String) (new : V) (dict : List (String × V))
    → lookup key (insert key new dict) ≡ some new
lookup-insert_self key new dict = simp (lookup-insert, eq_refl)

-- `counters.get(k, 0)`
abbrev or_zero : Option ℕ → ℕ
or_zero none = 0
or_zero (some n) = n

unfoldable pub count_of : String → List (String × ℕ) → ℕ
count_of k m = or_zero (lookup k m)

pub count_of-insert_self :
    (k : String) (n : ℕ) (m : List (String × ℕ)) → count_of k (insert k n m) ≡ n
unfolding count_of
count_of-insert_self k n m = rw (lookup-insert_self k n m)

pub count_of-insert :
    (k other : String) (n : ℕ) (m : List (String × ℕ))
    → count_of other (insert k n m) ≡ (if k == other then n else count_of other m)
unfolding count_of
count_of-insert k other n m =
    let at = lookup-insert m k other n in
    elim (Bool-cases (k == other)) [ inl e ↦ rw (at, e) refl | inr e ↦ rw (at, e) refl ]
