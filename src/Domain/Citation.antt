-- ===== src/Domain/Citation.antt =====
-- src/domain/publication.ts: visibility, citations and evidence references. A schema is modelled
-- by two functions: `is_valid` tells whether it accepts a value, and `parsed` is what it returns
-- for one that it accepts (with the texts trimmed). The list of issues of a refusal is left out.
use mathlib.Core.Option
use mayday_dispatch.Prelude.{
  ℕ, ◌+◌, String, Bool, true, false, not, ◌&&◌, ◌||◌, Option, none, some, List, [], ◌∷◌, map, leb,
  eqb, all, is_empty, is_some, optionally, if◌then◌else◌,
}
use mayday_dispatch.Prelude.Text.{codes, trim}
use mayday_dispatch.Domain.Patterns.{
  Formats, is_plain_text, is_nonblank, is_checksum, is_digit, is_letter,
}
use mayday_dispatch.Domain.Patterns.Host.{is_public}

pub data Visibility : Type 0 where
  private internal citation_only public : Visibility

abbrev pub is_visibility_public : Visibility → Bool
is_visibility_public public = true
is_visibility_public _ = false

-- `visibility === "public" || visibility === "citation-only"`
abbrev pub is_disclosed : Visibility → Bool
is_disclosed public = true
is_disclosed citation_only = true
is_disclosed _ = false

pub record Citation : Type 0 where
  pub id : String
  pub title : String
  pub subtitle : Option String
  pub authors : List String
  pub publisher : Option String
  pub published_at : Option String
  pub url : Option String
  pub doi : Option String

-- `[-._;()/:A-Z0-9]` under the flag `i`
is_doi_code : ℕ → Bool
unfolding is_letter
is_doi_code d = is_letter d || (leb 40 d && leb d 41) || (leb 45 d && leb d 59) || eqb d b'_'

-- `\d{4,9}\/[-._;()/:A-Z0-9]+` under the flag `i`, after `seen` digits
doi_digits : ℕ → List ℕ → Bool
unfolding is_digit is_doi_code
doi_digits seen [] = false
doi_digits seen (c ∷ cs) =
    let more = doi_digits (seen + 1) cs in
    if is_digit c
    then more
    else eqb c b'/' && leb 4 seen && leb seen 9 && not (is_empty cs) && all is_doi_code cs

doi_from : List ℕ → Bool
unfolding doi_digits
doi_from (a ∷ b ∷ c ∷ cs) = eqb a b'1' && eqb b b'0' && eqb c b'.' && doi_digits 0 cs
doi_from _ = false

unfoldable pub is_doi : String → Bool
unfolding doi_from
is_doi s = doi_from (codes s)

module _ (f : Formats) where
  -- `PublicUrlSchema`: zod's own `url()` check is that the platform parses the text.
  unfoldable pub is_public_url : String → Bool
  is_public_url s = elim (f.parse_url s) [ none ↦ false | some url ↦ is_public url ]

unfoldable pub is_valid_citation : Formats → Citation → Bool
unfolding is_public_url is_doi
is_valid_citation f c =
    f.is_uuid c.id
    && is_plain_text c.title
    && optionally is_plain_text c.subtitle
    && not (is_empty c.authors)
    && all is_plain_text c.authors
    && optionally is_plain_text c.publisher
    && optionally f.is_date c.published_at
    && optionally (is_public_url f) c.url
    && optionally is_doi c.doi

unfoldable pub parsed_citation : Citation → Citation
parsed_citation c = record c {
  title = trim c.title;
  subtitle = Option.map trim c.subtitle;
  authors = map trim c.authors;
  publisher = Option.map trim c.publisher;
}

-- `z.enum(["registered", "processing", "ready", "rejected"])`
pub data ReferenceStatus : Type 0 where
  registered processing ready rejected : ReferenceStatus

pub record EvidenceReference : Type 0 where
  pub id : String
  pub title : String
  pub description : Option String
  pub url : Option String
  pub locator : Option String
  pub visibility : Visibility
  pub media_type : Option String
  pub source : Option String
  pub evidence_provenance : Option String
  pub checksum : Option String
  pub processor : Option String
  pub status : Option ReferenceStatus
  pub evidence_version : Option ℕ
  -- `z.literal("sha256").optional()`
  pub has_checksum_algorithm : Bool
  pub acquisition_at : Option String
  pub processed_at : Option String
  pub parent_evidence_id : Option String
  pub derivation_type : Option String
  pub citation : Option Citation

-- The refinement of `EvidenceReferenceSchema`.
unfoldable pub has_disclosure : Visibility → (has_url has_citation : Bool) → Bool
has_disclosure citation_only has_url has_citation = has_citation
has_disclosure public has_url has_citation = has_url || has_citation
has_disclosure _ _ _ = true

unfoldable pub is_valid_reference : Formats → EvidenceReference → Bool
unfolding has_disclosure is_public_url
is_valid_reference f e =
    f.is_uuid e.id
    && is_plain_text e.title
    && optionally is_plain_text e.description
    && optionally (is_public_url f) e.url
    && optionally is_plain_text e.locator
    && optionally is_nonblank e.media_type
    && optionally is_nonblank e.source
    && optionally is_nonblank e.evidence_provenance
    && optionally is_checksum e.checksum
    && optionally is_nonblank e.processor
    && optionally (leb 1) e.evidence_version
    && optionally f.is_datetime e.acquisition_at
    && optionally f.is_datetime e.processed_at
    && optionally f.is_uuid e.parent_evidence_id
    && optionally is_nonblank e.derivation_type
    && optionally (is_valid_citation f) e.citation
    && has_disclosure e.visibility (is_some e.url) (is_some e.citation)

unfoldable pub parsed_reference : EvidenceReference → EvidenceReference
parsed_reference e = record e {
  title = trim e.title;
  description = Option.map trim e.description;
  locator = Option.map trim e.locator;
  media_type = Option.map trim e.media_type;
  source = Option.map trim e.source;
  evidence_provenance = Option.map trim e.evidence_provenance;
  processor = Option.map trim e.processor;
  derivation_type = Option.map trim e.derivation_type;
  citation = Option.map parsed_citation e.citation;
}
