-- ===== src/Domain/Parsed.antt =====
-- What a schema returns passes that schema again: the checks on texts read the trimmed text.
use mayday_dispatch.Prelude.{
  ℕ, zero, suc, ◌+◌, ◌-◌, ◌≤◌, ◌<◌, String, ◌≡◌, sym, ◌∙◌, subst, ◌≢◌, ◌↔◌, ◌⊎◌, inl, inr, Bool,
  true, false, not, ◌&&◌, ◌||◌, Option, none, some, List, [], ◌∷◌, ◌++◌, map, Memᴰ, arith, ◌==◌,
  eq_iff, ltb, leb, eqb, if◌then◌else◌, Bool-cases, &&-eq-true, ||-eq-true, not-eq-true, eqb→eq,
  eqb_refl, ne→eqb, eq_text, ne_text, Option-cases, is_some, or_else, or_option, optionally,
  same_text?, length, any, all, keep, find, is_empty, includes, All, All-mem, all-any, find-true,
  eq_refl, ap, refl,
}
pub mod Blocks
pub mod Publication
use mathlib.Core.Option
use mayday_dispatch.Prelude.Text.{codes, trim, utf16_length}
use mayday_dispatch.Prelude.Text.Trim.{trim-trim}
use mayday_dispatch.Domain.Patterns.{
  Formats, is_plain_text, is_short_text, is_nonblank, is_publication_type, is_unsafe, word_type,
}
use mayday_dispatch.Domain.Citation.{
  Citation, EvidenceReference, is_valid_citation, parsed_citation, is_valid_reference,
  parsed_reference,
}

pub is_plain_text-trim : (s : String) → is_plain_text (trim s) ≡ is_plain_text s
unfolding is_plain_text
is_plain_text-trim s =
    ap (λ t. leb 1 (utf16_length t) && leb (utf16_length t) 20000 && not (is_unsafe t))
      (trim-trim s)

pub is_short_text-trim : (s : String) → is_short_text (trim s) ≡ is_short_text s
unfolding is_short_text
is_short_text-trim s =
    ap (λ t. leb 1 (utf16_length t) && leb (utf16_length t) 1000 && not (is_unsafe t)) (trim-trim s)

pub is_nonblank-trim : (s : String) → is_nonblank (trim s) ≡ is_nonblank s
unfolding is_nonblank
is_nonblank-trim s = ap (λ t. leb 1 (utf16_length t)) (trim-trim s)

module _ {A : Type 0} (p : A → Bool) (f : A → A) (same : (x : A) → p (f x) ≡ p x) where
  pub optionally-map : (o : Option A) → optionally p (Option.map f o) ≡ optionally p o
  optionally-map none = refl
  optionally-map (some x) = same x

  pub all-map : (xs : List A) → all p (map f xs) ≡ all p xs
  all-map [] = refl
  all-map (x ∷ xs) = rw (same x, all-map xs) refl

module _ {A B : Type 0} (f : A → B) where
  pub is_empty-map : (xs : List A) → is_empty (map f xs) ≡ is_empty xs
  is_empty-map [] = refl
  is_empty-map (x ∷ xs) = refl

  pub length-map : (xs : List A) → length (map f xs) ≡ length xs
  length-map [] = refl
  length-map (x ∷ xs) = ap suc (length-map xs)

  pub is_some-map : (o : Option A) → is_some (Option.map f o) ≡ is_some o
  is_some-map none = refl
  is_some-map (some x) = refl

pub plain?-trim :
    (o : Option String) → optionally is_plain_text (Option.map trim o) ≡ optionally is_plain_text o
plain?-trim = optionally-map is_plain_text trim is_plain_text-trim

pub nonblank?-trim :
    (o : Option String) → optionally is_nonblank (Option.map trim o) ≡ optionally is_nonblank o
nonblank?-trim = optionally-map is_nonblank trim is_nonblank-trim

pub short?-trim :
    (o : Option String) → optionally is_short_text (Option.map trim o) ≡ optionally is_short_text o
short?-trim = optionally-map is_short_text trim is_short_text-trim

pub plains-trim : (xs : List String) → all is_plain_text (map trim xs) ≡ all is_plain_text xs
plains-trim = all-map is_plain_text trim is_plain_text-trim

module _ (f : Formats) where
  pub is_valid_citation-parsed :
      (c : Citation) → is_valid_citation f (parsed_citation c) ≡ is_valid_citation f c
  unfolding is_valid_citation parsed_citation
  is_valid_citation-parsed c =
      rw
        (
          is_plain_text-trim c.title,
          plain?-trim c.subtitle,
          plains-trim c.authors,
          is_empty-map trim c.authors,
          plain?-trim c.publisher,
        )
        refl

  pub citation?-parsed :
      (o : Option Citation)
      → optionally (is_valid_citation f) (Option.map parsed_citation o)
        ≡ optionally (is_valid_citation f) o
  citation?-parsed = optionally-map (is_valid_citation f) parsed_citation is_valid_citation-parsed

  pub citations-parsed :
      (cs : List Citation)
      → all (is_valid_citation f) (map parsed_citation cs) ≡ all (is_valid_citation f) cs
  citations-parsed = all-map (is_valid_citation f) parsed_citation is_valid_citation-parsed

  is_valid_reference-parsed :
      (e : EvidenceReference) → is_valid_reference f (parsed_reference e) ≡ is_valid_reference f e
  unfolding is_valid_reference parsed_reference
  is_valid_reference-parsed e =
      rw
        (
          is_plain_text-trim e.title,
          plain?-trim e.description,
          plain?-trim e.locator,
          nonblank?-trim e.media_type,
          nonblank?-trim e.source,
          nonblank?-trim e.evidence_provenance,
          nonblank?-trim e.processor,
          nonblank?-trim e.derivation_type,
          citation?-parsed e.citation,
          is_some-map parsed_citation e.citation,
        )
        refl

  pub references-parsed :
      (es : List EvidenceReference)
      → all (is_valid_reference f) (map parsed_reference es) ≡ all (is_valid_reference f) es
  references-parsed = all-map (is_valid_reference f) parsed_reference is_valid_reference-parsed

pub is_publication_type-trim : (s : String) → is_publication_type (trim s) ≡ is_publication_type s
unfolding is_publication_type
is_publication_type-trim s = ap (λ t. leb (utf16_length t) 80 && word_type (codes t)) (trim-trim s)
