-- ===== src/Prelude/Texts.antt =====
-- Sets of texts as lists.
use text.Mathlib.Text.{◌==◌}
use Prim.Native.String.{String}
use mathlib.Core.Bool.{Bool, false, ◌||◌}
use mathlib.Core.List.{List, [], ◌∷◌}

-- `text in texts`
abbrev pub in_texts : String → List String → Bool
in_texts t [] = false
in_texts t (u ∷ us) = t == u || in_texts t us
