-- ===== src/Prelude/Order.antt =====
-- The order of texts in the database: by their characters, which is that of their UTF-8 bytes.
use Prim.Native.Nat.{ℕ}
use Prim.Native.String.{String}
use mathlib.Core.Bool.{Bool, true, false, ◌&&◌, ◌||◌}
use mathlib.Core.List.{List, [], ◌∷◌}
use mathlib.Core.Option.{Option, none, some}
use mayday_dispatch.Prelude.Tests.{ltb, eqb, if◌then◌else◌}
use mayday_dispatch.Prelude.Text.{codes}

-- `a <= b` on lists of codes
pub leb_codes : List ℕ → List ℕ → Bool
leb_codes [] bs = true
leb_codes (a ∷ as') [] = false
leb_codes (a ∷ as') (b ∷ bs) = ltb a b || (eqb a b && leb_codes as' bs)

unfoldable pub leb_text : String → String → Bool
unfolding leb_codes
leb_text s t = leb_codes (codes s) (codes t)

-- `MAX` over a column, which passes over `NULL`
unfoldable pub max_text : List (Option String) → Option String
unfolding leb_text
max_text [] = none
max_text (none ∷ xs) = max_text xs
max_text (some s ∷ xs) = elim (max_text xs) [
  | none ↦ some s
  | some t ↦ some (if leb_text s t then t else s)
]
