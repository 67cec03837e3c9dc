-- ===== src/Domain/Json.antt =====
-- The values of `Record<string, unknown>`, the type of a publication's extensions, and decimal
-- numbers, which stand for the numbers of a request (their rounding to doubles is not modelled).
use native.Mathlib.Omega.{div_any}
use mayday_dispatch.Prelude.{
  Bool-cases, inl, inr, ◌≢◌, ◌+◌, ◌≤◌, ℕ, ◌*◌, ◌/◌, ◌%◌, ◌^◌, String, ◌≡◌, refl, Bool, true, false,
  not, ◌&&◌, Option, none, some, List, [], ◌∷◌, ◌==◌, leb, eqb, if◌then◌else◌, arith, eq_iff,
}

-- (-1)^negative * mantissa / 10^scale
pub record Decimal : Type 0 where
  pub negative : Bool
  pub mantissa : ℕ
  pub scale : ℕ

-- `z.number().min(-limit).max(limit)`
unfoldable pub is_within : ℕ → Decimal → Bool
is_within limit d = leb d.mantissa (limit * 10 ^ d.scale)

-- `z.number().int().positive()`, with the number that it accepts
unfoldable pub positive_int : Decimal → Option ℕ
positive_int d =
    if not d.negative && eqb (d.mantissa % 10 ^ d.scale) 0 && leb 1 d.mantissa
    then some (d.mantissa / 10 ^ d.scale)
    else none

-- The number that is accepted is positive.
pub positive_int-ne : (d : Decimal) (n : ℕ) → positive_int d ≡ some n → n ≢ 0
unfolding positive_int
positive_int-ne d n h =
    let size = 10 ^ d.scale in
    elim (Bool-cases (not d.negative && eqb (d.mantissa % size) 0 && leb 1 d.mantissa)) [
      | inl e ↦
          let same : some (d.mantissa / size) ≡ some n = rw e at h in
          λ z.
            let quotient : d.mantissa / size ≡ 0 = cc (same, z) in
            let whole : size * 0 + d.mantissa % size ≡ d.mantissa =
              rw quotient at (div_any d.mantissa size) in
            let exact : (d.mantissa % size ≡ 0) × (1 ≤ d.mantissa) = ground arith in omega arith
      | inr e ↦ absurd (cc (rw e at h))
    ]

mutual
  pub data Json : Type 0 where
    null : Json
    bool : Bool → Json
    num : Decimal → Json
    str : String → Json
    arr : Items → Json
    obj : Fields → Json

  pub data Items : Type 0 where
    nil : Items
    cons : Json → Items → Items

  pub data Fields : Type 0 where
    end : Fields
    field : String → Json → Fields → Fields

-- `v.key` of an object
unfoldable pub field_of : Fields → String → Option Json
field_of end k = none
field_of (field j v fs) k = if j == k then some v else field_of fs k

-- `v?.key`: no other value has the fields that the program asks for.
unfoldable pub get : Option Json → String → Option Json
unfolding field_of
get (some (obj fs)) k = field_of fs k
get _ k = none

-- `typeof v === "string"`
abbrev pub text_of : Option Json → Option String
text_of (some (str s)) = some s
text_of _ = none

-- `Boolean(v)`
abbrev pub is_truthy : Option Json → Bool
is_truthy none = false
is_truthy (some null) = false
is_truthy (some (bool b)) = b
is_truthy (some (num d)) = not (eqb d.mantissa 0)
is_truthy (some (str s)) = not (s == "")
is_truthy (some (arr xs)) = true
is_truthy (some (obj fs)) = true

-- The texts among the items, `filter((value) => typeof value === "string")`.
unfoldable pub texts : Items → List String
texts nil = []
texts (cons (str s) xs) = s ∷ texts xs
texts (cons _ xs) = texts xs

abbrev pub Extensions : Type 0
Extensions = List (String × Json)

unfoldable pub lookup : String → Extensions → Option Json
lookup k [] = none
lookup k (entry ∷ m) = if entry.0 == k then some entry.1 else lookup k m

-- `{ ...m, [k]: v }`: a key that is there keeps its place.
unfoldable pub put : String → Json → Extensions → Extensions
put k v [] = (k, v) ∷ []
put k v (entry ∷ m) = if entry.0 == k then (k, v) ∷ m else entry ∷ put k v m

-- `{ ...m, ...n }`
unfoldable pub merge : Extensions → Extensions → Extensions
unfolding put
merge m [] = m
merge m ((k, v) ∷ n) = merge (put k v m) n

pub lookup-put :
    (k j : String) (v : Json) (m : Extensions)
    → lookup j (put k v m) ≡ (if k == j then some v else lookup j m)
unfolding lookup put
lookup-put k j v [] = refl
lookup-put k j v (entry ∷ m) =
    ground (arith, lookup-put k j v m, eq_iff entry.0 j, eq_iff entry.0 k, eq_iff k j)
