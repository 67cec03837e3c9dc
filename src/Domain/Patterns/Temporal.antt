-- ===== src/Domain/Patterns/Temporal.antt =====
-- The pattern of `TemporalValueSchema` in src/domain/content-blocks.ts: a year, a month, a day, or
-- a day with a time. Each function reads what may stand behind the part before it.
use mayday_dispatch.Prelude.{
  ℕ, zero, suc, String, Bool, true, false, ◌&&◌, ◌||◌, Option, none, some, List, [], ◌∷◌, leb, eqb,
  is_empty, if◌then◌else◌,
}
use mayday_dispatch.Prelude.Text.{codes, trim}

-- `\d{n}`, and the rest
pub digits : ℕ → List ℕ → Option (List ℕ)
digits zero cs = some cs
digits (suc n) [] = none
digits (suc n) (c ∷ cs) = let rest = digits n cs in if leb b'0' c && leb c b'9' then rest else none

pub and_then : (List ℕ → Bool) → Option (List ℕ) → Bool
and_then k none = false
and_then k (some cs) = k cs

zone_minutes : List ℕ → Bool
unfolding digits and_then
zone_minutes [] = false
zone_minutes (c ∷ cs) = eqb c b':' && and_then is_empty (digits 2 cs)

-- `(?:Z|[+-]\d{2}:\d{2})?`
zone : List ℕ → Bool
unfolding zone_minutes
zone [] = true
zone (c ∷ cs) =
    (eqb c b'Z' && is_empty cs)
    || ((eqb c b'+' || eqb c b'-') && and_then zone_minutes (digits 2 cs))

-- `(?:\.\d{3})?` and the zone
fraction : List ℕ → Bool
unfolding zone
fraction [] = true
fraction (c ∷ cs) = (eqb c b'.' && and_then zone (digits 3 cs)) || zone (c ∷ cs)

-- `(?::\d{2}…)?` and the zone
seconds : List ℕ → Bool
unfolding fraction
seconds [] = true
seconds (c ∷ cs) = (eqb c b':' && and_then fraction (digits 2 cs)) || zone (c ∷ cs)

minutes : List ℕ → Bool
unfolding seconds
minutes [] = false
minutes (c ∷ cs) = eqb c b':' && and_then seconds (digits 2 cs)

-- `(?:T\d{2}:\d{2}…)?`
time : List ℕ → Bool
unfolding minutes
time [] = true
time (c ∷ cs) = eqb c b'T' && and_then minutes (digits 2 cs)

day : List ℕ → Bool
unfolding time
day [] = true
day (c ∷ cs) = eqb c b'-' && and_then time (digits 2 cs)

pub month : List ℕ → Bool
unfolding day
month [] = true
month (c ∷ cs) = eqb c b'-' && and_then day (digits 2 cs)

unfoldable pub is_temporal : String → Bool
unfolding month trim
is_temporal s = and_then month (digits 4 (codes (trim s)))
