-- ===== src/Domain/Patterns.antt =====
-- The regular expressions of src/domain/content-blocks.ts, src/domain/publication.ts and
-- src/evidence/registry.ts, as functions on the codes of a text. What the packages zod and the
-- platform's `URL` decide about a text is a parameter, `Formats`.
pub mod Host
pub mod Temporal
use mayday_dispatch.Prelude.{
  ℕ, ◌+◌, String, Bool, true, false, not, ◌&&◌, ◌||◌, Option, none, some, List, [], ◌∷◌, leb, eqb,
  any, all, is_empty, length, if◌then◌else◌,
}
use mayday_dispatch.Prelude.Text.{codes, is_space, trim, utf16_length}

unfoldable pub is_digit : ℕ → Bool
is_digit c = leb b'0' c && leb c b'9'

unfoldable pub is_lower : ℕ → Bool
is_lower c = leb b'a' c && leb c b'z'

-- `[a-z]` under the flag `i`
unfoldable pub is_letter : ℕ → Bool
unfolding is_lower
is_letter c = is_lower c || (leb b'A' c && leb c b'Z')

unfoldable pub lower : ℕ → ℕ
lower c = if leb b'A' c && leb c b'Z' then c + 32 else c

-- The rest behind the codes of `w`, compared without regard to case.
pub after : List ℕ → List ℕ → Option (List ℕ)
unfolding lower
after [] cs = some cs
after (w ∷ ws) [] = none
after (w ∷ ws) (c ∷ cs) = let rest = after ws cs in if eqb (lower w) (lower c) then rest else none

unfoldable pub starts_with_codes : List ℕ → List ℕ → Bool
unfolding after
starts_with_codes w cs = elim (after w cs) [ none ↦ false | some _ ↦ true ]

-- `[^>]*>` behind the tag's first letter
has_code : ℕ → List ℕ → Bool
has_code w cs = any (eqb w) cs

skip_spaces : List ℕ → List ℕ
unfolding is_space
skip_spaces [] = []
skip_spaces (c ∷ cs) = let rest = skip_spaces cs in if is_space c then rest else c ∷ cs

tag_name : List ℕ → Bool
unfolding is_letter has_code
tag_name [] = false
tag_name (c ∷ cs) = is_letter c && has_code b'>' cs

skip_slash : List ℕ → List ℕ
skip_slash [] = []
skip_slash (c ∷ cs) = if eqb c b'/' then cs else c ∷ cs

-- `<\/?\s*[a-z][^>]*>` at the head of the codes
pub markup_at : List ℕ → Bool
unfolding skip_spaces skip_slash tag_name
markup_at [] = false
markup_at (c ∷ cs) = eqb c b'<' && tag_name (skip_spaces (skip_slash cs))

unfoldable pub drive_at : List ℕ → Bool
unfolding is_letter
drive_at (a ∷ b ∷ c ∷ _) = is_letter a && eqb b b':' && (eqb c 92 || eqb c b'/')
drive_at _ = false

-- `[^\\]+\\` behind two backslashes
share_at : List ℕ → Bool
unfolding has_code
share_at (a ∷ b ∷ c ∷ cs) = eqb a 92 && eqb b 92 && not (eqb c 92) && has_code 92 cs
share_at _ = false

abbrev root_folders : List (List ℕ)
root_folders =
    codes "/home/"
    ∷ codes "/root/"
    ∷ codes "/tmp/"
    ∷ codes "/var/"
    ∷ codes "/mnt/"
    ∷ codes "/users/"
    ∷ codes "/private/"
    ∷ codes "/etc/"
    ∷ codes "/opt/"
    ∷ codes "/srv/"
    ∷ []

pub path_at : List ℕ → Bool
unfolding drive_at share_at starts_with_codes
path_at cs = drive_at cs || share_at cs || any (λ w. starts_with_codes w cs) root_folders

-- `[\s"'(]`
opens_path : ℕ → Bool
unfolding is_space
opens_path c = is_space c || eqb c 34 || eqb c 39 || eqb c b'('

unsafe_from : Bool → List ℕ → Bool
unfolding markup_at path_at opens_path
unsafe_from boundary [] = false
unsafe_from boundary (c ∷ cs) =
    markup_at (c ∷ cs) || (boundary && path_at (c ∷ cs)) || unsafe_from (opens_path c) cs

-- `unsafeTextPattern.test(value)`
unfoldable pub is_unsafe : String → Bool
unfolding unsafe_from
is_unsafe s = unsafe_from true (codes s)

-- The checks that zod makes by itself, on texts.
pub record Formats : Type 0 where
  pub is_uuid : String → Bool
  pub is_date : String → Bool
  pub is_datetime : String → Bool
  pub parse_url : String → Option Host.Url

-- `PublicationPlainTextSchema`, on the trimmed text; its output is the trimmed text.
unfoldable pub is_plain_text : String → Bool
unfolding is_unsafe trim
is_plain_text s =
    let t = trim s in leb 1 (utf16_length t) && leb (utf16_length t) 20000 && not (is_unsafe t)

-- `ShortTextSchema`
unfoldable pub is_short_text : String → Bool
unfolding is_unsafe trim
is_short_text s =
    let t = trim s in leb 1 (utf16_length t) && leb (utf16_length t) 1000 && not (is_unsafe t)

-- `z.string().trim().min(1)`
unfoldable pub is_nonblank : String → Bool
unfolding trim
is_nonblank s = leb 1 (utf16_length (trim s))

-- `[a-z0-9]+(?:-[a-z0-9]+)*`: the flag tells whether a character of the current word was seen.
slug_from : Bool → List ℕ → Bool
unfolding is_lower is_digit
slug_from seen [] = seen
slug_from seen (c ∷ cs) =
    let word = slug_from true cs in
    let next = slug_from false cs in
    if is_lower c || is_digit c then word else if eqb c b'-' && seen then next else false

unfoldable pub is_slug : String → Bool
unfolding slug_from
is_slug s = slug_from false (codes s)

-- `^[a-z][a-z0-9-]*$`
unfoldable pub word_type : List ℕ → Bool
unfolding is_lower is_digit
word_type [] = false
word_type (c ∷ cs) = is_lower c && all (λ d. is_lower d || is_digit d || eqb d b'-') cs

-- `PublicationTypeSchema`
unfoldable pub is_publication_type : String → Bool
unfolding word_type trim
is_publication_type s = let t = trim s in leb (utf16_length t) 80 && word_type (codes t)

-- `/[\\/]/`, negated
unfoldable pub is_free_of_slashes : String → Bool
is_free_of_slashes s = all (λ c. not (eqb c 92 || eqb c b'/')) (codes s)

-- `/^[a-fA-F0-9]{64}$/`
unfoldable pub is_checksum : String → Bool
unfolding is_digit lower
is_checksum s =
    eqb (length (codes s)) 64
    && all (λ c. is_digit c || (leb b'a' (lower c) && leb (lower c) b'f')) (codes s)

-- `/^[A-Z0-9_]+$/`
unfoldable pub is_upper_code : String → Bool
unfolding is_digit
is_upper_code s =
    leb 1 (length (codes s))
    && all (λ c. (leb b'A' c && leb c b'Z') || is_digit c || eqb c b'_') (codes s)
