-- ===== src/Prelude/Tests.antt =====
-- Boolean tests on numbers and options, conditionals, and case splits that keep the equation.
use Prim.Native.Nat.{ℕ, compare, Ordering}
use Prim.Native.String.{String}
use mathlib.Core.Path.{◌≡◌, refl}
use mathlib.Core.Logic.{◌⊎◌, inl, inr, ◌≢◌}
use mathlib.Core.Bool.{Bool, true, false, not, ◌&&◌, ◌||◌}
use mathlib.Core.Option.{Option, none, some}
use native.Mathlib.Omega.{arith}
use text.Mathlib.Text.{◌==◌}
use text.Mathlib.TextEquality.{eq_iff}

abbrev pub ltb : ℕ → ℕ → Bool
ltb a b = elim (compare a b) [ Ordering.lt ↦ true | _ ↦ false ]

abbrev pub leb : ℕ → ℕ → Bool
leb a b = elim (compare a b) [ Ordering.gt ↦ false | _ ↦ true ]

-- `===` on numbers; `==` is that of texts.
abbrev pub eqb : ℕ → ℕ → Bool
eqb a b = elim (compare a b) [ Ordering.eq ↦ true | _ ↦ false ]

infix 1 if◌then◌else◌
abbrev pub if◌then◌else◌ {ℓ} : {A : Type ℓ} → Bool → A → A → A
if true then x else y = x
if false then x else y = y

pub Bool-cases : (b : Bool) → (b ≡ true) ⊎ (b ≡ false)
Bool-cases true = inl refl
Bool-cases false = inr refl

pub &&-eq-true : (a b : Bool) → (a && b) ≡ true → (a ≡ true) × (b ≡ true)
&&-eq-true a b h = ground arith

pub ||-eq-true : (a b : Bool) → (a || b) ≡ true → (a ≡ true) ⊎ (b ≡ true)
||-eq-true a b h = ground arith

pub not-eq-true : (a : Bool) → not a ≡ true → a ≡ false
not-eq-true a h = ground arith

pub eqb→eq : (a b : ℕ) → eqb a b ≡ true → a ≡ b
eqb→eq a b h = ground arith

pub eqb_refl : (a : ℕ) → eqb a a ≡ true
eqb_refl a = ground arith

pub ne→eqb : (a b : ℕ) → a ≢ b → eqb a b ≡ false
ne→eqb a b h = ground arith

pub eq_text : (s t : String) → (s == t) ≡ true → s ≡ t
eq_text s t h = (eq_iff s t).0 h

pub ne_text : (s t : String) → s ≢ t → (s == t) ≡ false
ne_text s t h = elim (Bool-cases (s == t)) [ inl e ↦ absurd (h (eq_text s t e)) | inr e ↦ e ]

module _ {ℓ} {A : Type ℓ} where
  pub Option-cases : (o : Option A) → (o ≡ none) ⊎ ((a : A) × (o ≡ some a))
  Option-cases none = inl refl
  Option-cases (some a) = inr (a, refl)

  -- `x !== undefined`
  abbrev pub is_some : Option A → Bool
  is_some none = false
  is_some (some _) = true

  -- `x ?? y`
  abbrev pub or_else : Option A → A → A
  or_else none y = y
  or_else (some x) y = x

  -- `x ?? y` where `y` may be undefined too
  abbrev pub or_option : Option A → Option A → Option A
  or_option none y = y
  or_option (some x) y = some x

  -- A check of an optional field: an absent one passes.
  abbrev pub optionally : (A → Bool) → Option A → Bool
  optionally p none = true
  optionally p (some x) = p x

-- `===` on optional texts
abbrev pub same_text? : Option String → Option String → Bool
same_text? none none = true
same_text? (some s) (some t) = s == t
same_text? _ _ = false
