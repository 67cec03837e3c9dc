-- ===== src/Prelude/Text/Trim.antt =====
-- `trim` is idempotent.
use Prim.Native.Char.{Char, code}
use Prim.Native.String.{String}
use mathlib.Core.Path.{◌≡◌, refl, ap, ◌∙◌}
use mathlib.Core.Logic.{inl, inr}
use mathlib.Core.Bool.{Bool, true, false, not}
use mayday_dispatch.Prelude.Tests.{Bool-cases, not-eq-true}
use mayday_dispatch.Prelude.Text.{is_space, trim_start, trim_end, cons_trimmed, trim}

starts_solid : String → Bool
starts_solid String.[] = true
starts_solid (String.◌∷◌ c s) = not (is_space (code c))

trim_start_solid : (s : String) → starts_solid s ≡ true → trim_start s ≡ s
unfolding trim_start starts_solid
trim_start_solid String.[] h = refl
trim_start_solid (String.◌∷◌ c s) h = elim (Bool-cases (is_space (code c))) [
  | inl e ↦ absurd (cc (rw e at h))
  | inr e ↦ rw e refl
]

starts_solid-trim_start : (s : String) → starts_solid (trim_start s) ≡ true
unfolding trim_start starts_solid
starts_solid-trim_start String.[] = refl
starts_solid-trim_start (String.◌∷◌ c s) = elim (Bool-cases (is_space (code c))) [
  | inl e ↦ rw e (starts_solid-trim_start s)
  | inr e ↦ rw e (rw e refl)
]

starts_solid-cons_trimmed :
    (c : Char) (s : String) → is_space (code c) ≡ false → starts_solid (cons_trimmed c s) ≡ true
unfolding cons_trimmed starts_solid
starts_solid-cons_trimmed c String.[] e = rw e (rw e refl)
starts_solid-cons_trimmed c (String.◌∷◌ d s) e = rw e refl

solid_head :
    (c : Char) (s : String) → starts_solid (String.◌∷◌ c s) ≡ true → is_space (code c) ≡ false
unfolding starts_solid
solid_head c s h = not-eq-true (is_space (code c)) h

starts_solid-trim_end : (s : String) → starts_solid s ≡ true → starts_solid (trim_end s) ≡ true
unfolding trim_end
starts_solid-trim_end String.[] h = h
starts_solid-trim_end (String.◌∷◌ c s) h =
    starts_solid-cons_trimmed c (trim_end s) (solid_head c s h)

trim_end-cons_trimmed :
    (c : Char) (s : String) → trim_end s ≡ s → trim_end (cons_trimmed c s) ≡ cons_trimmed c s
unfolding trim_end cons_trimmed
trim_end-cons_trimmed c String.[] h = elim (Bool-cases (is_space (code c))) [
  | inl e ↦ rw e refl
  | inr e ↦ rw e (rw e refl)
]
trim_end-cons_trimmed c (String.◌∷◌ d s) h = rw h refl

trim_end-trim_end : (s : String) → trim_end (trim_end s) ≡ trim_end s
unfolding trim_end
trim_end-trim_end String.[] = refl
trim_end-trim_end (String.◌∷◌ c s) = trim_end-cons_trimmed c (trim_end s) (trim_end-trim_end s)

pub trim-trim : (s : String) → trim (trim s) ≡ trim s
unfolding trim
trim-trim s =
    ap trim_end (
      trim_start_solid (trim_end (trim_start s))
        (starts_solid-trim_end (trim_start s) (starts_solid-trim_start s)))
    ∙ trim_end-trim_end (trim_start s)
