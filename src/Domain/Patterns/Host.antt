-- ===== src/Domain/Patterns/Host.antt =====
-- `PublicUrlSchema` of src/domain/content-blocks.ts: what it asks of a parsed URL.
use mayday_dispatch.Prelude.{
  ℕ, ◌+◌, String, Bool, true, false, not, ◌&&◌, ◌||◌, List, [], ◌∷◌, leb, eqb, any, ◌-◌, ◌==◌,
  if◌then◌else◌, includes,
}
use mayday_dispatch.Prelude.Text.{codes}

-- The fields of the platform's `URL` that the schema reads.
pub record Url : Type 0 where
  pub protocol : String
  pub username : String
  pub password : String
  pub hostname : String

lower : ℕ → ℕ
lower c = if leb b'A' c && leb c b'Z' then c + 32 else c

lower_all : List ℕ → List ℕ
unfolding lower
lower_all [] = []
lower_all (c ∷ cs) = lower c ∷ lower_all cs

drop_first : ℕ → List ℕ → List ℕ
drop_first w [] = []
drop_first w (c ∷ cs) = if eqb c w then cs else c ∷ cs

drop_last : ℕ → List ℕ → List ℕ
drop_last w [] = []
drop_last w (c ∷ []) = if eqb c w then [] else c ∷ []
drop_last w (c ∷ d ∷ cs) = c ∷ drop_last w (d ∷ cs)

same : List ℕ → List ℕ → Bool
same [] [] = true
same (a ∷ as') (b ∷ bs) = eqb a b && same as' bs
same _ _ = false

ends_in : List ℕ → List ℕ → Bool
unfolding same
ends_in w [] = same w []
ends_in w (c ∷ cs) = same w (c ∷ cs) || ends_in w cs

-- `(?:\d{1,3}\.){3}\d{1,3}`: `dots` more dots are to come, after `digits` digits.
dotted : ℕ → ℕ → List ℕ → Bool
dotted dots digits [] = eqb dots 0 && leb 1 digits && leb digits 3
dotted dots digits (c ∷ cs) =
    let more = dotted dots (digits + 1) cs in
    let next = dotted (dots - 1) 0 cs in
    if leb b'0' c && leb c b'9'
    then more
    else if eqb c b'.' && leb 1 digits && leb digits 3 && leb 1 dots
    then next
    else false

abbrev private_suffixes : List (List ℕ)
private_suffixes =
    codes ".localhost"
    ∷ codes ".local"
    ∷ codes ".internal"
    ∷ codes ".lan"
    ∷ codes ".home.arpa"
    ∷ codes ".test"
    ∷ codes ".invalid"
    ∷ codes ".onion"
    ∷ []

-- The host name in lower case, without brackets and without a dot at the end.
host_of : Url → List ℕ
unfolding lower_all drop_first drop_last
host_of url = drop_last b'.' (drop_last b']' (drop_first b'[' (lower_all (codes url.hostname))))

is_public_host : List ℕ → Bool
unfolding dotted ends_in same
is_public_host host =
    not (dotted 3 0 host)
    && not (any (eqb b':') host)
    && not (same host (codes "localhost"))
    && not (any (λ w. ends_in w host) private_suffixes)

-- The refinement of `PublicUrlSchema`.
unfoldable pub is_public : Url → Bool
unfolding is_public_host host_of
is_public url =
    includes url.protocol ("http:" ∷ "https:" ∷ [])
    && url.username == ""
    && url.password == ""
    && is_public_host (host_of url)
