-- ===== src/Prelude/Text/Number.antt =====
-- Natural numbers in decimal: `String(n)`, and `Number(s)` on texts of digits.
use Prim.Native.Nat.{ℕ, zero, suc, ◌+◌, ◌*◌, ◌-◌, ◌/◌, ◌%◌, ◌≤◌, ◌<◌}
use Prim.Native.Char.{code}
use Prim.Native.String.{String}
use mathlib.Core.Bool.{Bool, true, false, ◌&&◌, not}
use mathlib.Core.Path.{◌≡◌, refl, ap, ◌∙◌, subst}
use mathlib.Core.Logic.{inl, inr}
use mathlib.Core.List.{List, [], ◌∷◌, ◌++◌}
use native.Mathlib.Omega.{arith}
use text.Mathlib.Text.{◌==◌}
use mayday_dispatch.Prelude.Tests.{eq_text, leb, ltb, if◌then◌else◌, Bool-cases}
use mayday_dispatch.Prelude.Lists.{all, is_empty}
use mayday_dispatch.Prelude.Text.{codes, join}

nth : List String → ℕ → String
nth [] n = ""
nth (s ∷ ss) zero = s
nth (s ∷ ss) (suc n) = nth ss n

-- The digit `n`, for `n` below ten.
digit : ℕ → String
unfolding nth
digit = nth ("0" ∷ "1" ∷ "2" ∷ "3" ∷ "4" ∷ "5" ∷ "6" ∷ "7" ∷ "8" ∷ "9" ∷ [])

-- With fuel at least `n`.
print_from : ℕ → ℕ → String
unfolding digit
print_from zero n = digit n
print_from (suc fuel) n =
    let front = print_from fuel (n / 10) in
    if ltb n 10 then digit n else join front (digit (n % 10))

-- `String(n)`
unfoldable pub print : ℕ → String
unfolding print_from
print n = print_from n n

is_decimal : ℕ → Bool
is_decimal c = leb 48 c && leb c 57

-- `/^\d+$/.test(s)`
unfoldable pub is_digits : String → Bool
unfolding is_decimal
is_digits s = not (is_empty (codes s)) && all is_decimal (codes s)

value : ℕ → List ℕ → ℕ
value n [] = n
value n (c ∷ cs) = value (n * 10 + (c - 48)) cs

-- `Number(s)` of a text of digits
unfoldable pub read : String → ℕ
unfolding value
read s = value 0 (codes s)

codes-join : (s t : String) → codes (join s t) ≡ codes s ++ codes t
codes-join String.[] t = refl
codes-join (String.◌∷◌ c s) t = ap (λ cs. code c ∷ cs) (codes-join s t)

value-append : (n : ℕ) (cs ds : List ℕ) → value n (cs ++ ds) ≡ value (value n cs) ds
unfolding value
value-append n [] ds = refl
value-append n (c ∷ cs) ds = value-append (n * 10 + (c - 48)) cs ds

codes-digit : (n : ℕ) → n < 10 → codes (digit n) ≡ (48 + n) ∷ []
unfolding digit nth
codes-digit zero h = refl
codes-digit (suc zero) h = refl
codes-digit (suc (suc zero)) h = refl
codes-digit (suc (suc (suc zero))) h = refl
codes-digit (suc (suc (suc (suc zero)))) h = refl
codes-digit (suc (suc (suc (suc (suc zero))))) h = refl
codes-digit (suc (suc (suc (suc (suc (suc zero)))))) h = refl
codes-digit (suc (suc (suc (suc (suc (suc (suc zero))))))) h = refl
codes-digit (suc (suc (suc (suc (suc (suc (suc (suc zero)))))))) h = refl
codes-digit (suc (suc (suc (suc (suc (suc (suc (suc (suc zero))))))))) h = refl
codes-digit (suc (suc (suc (suc (suc (suc (suc (suc (suc (suc n)))))))))) h = absurd (omega arith)

all-append : (p : ℕ → Bool) (xs ys : List ℕ) → all p (xs ++ ys) ≡ (all p xs && all p ys)
all-append p [] ys = refl
all-append p (x ∷ xs) ys = ground (arith, all-append p xs ys)

append-nonempty : (xs ys : List ℕ) → is_empty xs ≡ false → is_empty (xs ++ ys) ≡ false
append-nonempty [] ys h = cc
append-nonempty (x ∷ xs) ys h = refl

value-last : (q r n : ℕ) → q * 10 + r ≡ n → value q ((48 + r) ∷ []) ≡ n
unfolding value
value-last q r n h = omega arith

print_digit :
    (n : ℕ)
    → n < 10
    → (all is_decimal (codes (digit n)) ≡ true)
      × (is_empty (codes (digit n)) ≡ false)
      × (value 0 (codes (digit n)) ≡ n)
unfolding is_decimal value
print_digit n h = rw (codes-digit n h) (ground arith, refl, omega arith)

-- The codes of the digits of `n`.
codes-print_from :
    (fuel n : ℕ)
    → n ≤ fuel
    → (all is_decimal (codes (print_from fuel n)) ≡ true)
      × (is_empty (codes (print_from fuel n)) ≡ false)
      × (value 0 (codes (print_from fuel n)) ≡ n)
unfolding print_from
codes-print_from zero n h = print_digit n (omega arith)
codes-print_from (suc fuel) n h = elim (Bool-cases (ltb n 10)) [
  | inl e ↦ rw e (print_digit n (ground arith))
  | inr e ↦
      let big : 10 ≤ n = ground arith in
      let (d, s, v) = codes-print_from fuel (n / 10) (omega arith) in
      let (d', s', v') = print_digit (n % 10) (omega arith) in
      rw (e, codes-join (print_from fuel (n / 10)) (digit (n % 10)))
        (
          all-append is_decimal (codes (print_from fuel (n / 10))) (codes (digit (n % 10)))
              ∙ rw (d, d') refl,
          append-nonempty (codes (print_from fuel (n / 10))) (codes (digit (n % 10))) s,
          value-append 0 (codes (print_from fuel (n / 10))) (codes (digit (n % 10)))
              ∙ rw (v, codes-digit (n % 10) (omega arith))
                  (value-last (n / 10) (n % 10) n (omega arith)),
        )
]

-- What is printed reads back, and passes the test for a number.
pub read-print : (n : ℕ) → read (print n) ≡ n
unfolding read print
read-print n = (codes-print_from n n (omega arith)).2

pub is_digits-print : (n : ℕ) → is_digits (print n) ≡ true
unfolding is_digits print
is_digits-print n = let (d, e, v) = codes-print_from n n (omega arith) in rw (d, e) refl

pub print-nonempty : (n : ℕ) → (print n == "") ≡ false
unfolding is_digits
print-nonempty n = elim (Bool-cases (print n == "")) [
  | inl e ↦
      let digits : is_digits "" ≡ true =
        subst (λ s. is_digits s ≡ true) (eq_text (print n) "" e) (is_digits-print n) in
      absurd (cc digits)
  | inr e ↦ e
]

pub ruleset print_laws = (print-nonempty, is_digits-print, read-print)
