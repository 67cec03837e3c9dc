-- ===== src/Repository/Sqlite/Read.antt =====
-- src/publications/repository.ts: what `SqlitePublicationRepository` reads from its tables.
use mathlib.Core.Option
use mayday_dispatch.Prelude.{
  String, Bool, true, not, ◌&&◌, ◌||◌, Option, none, some, List, [], ◌∷◌, ◌==◌, leb, keep, find,
  if◌then◌else◌, map,
}
use mayday_dispatch.Prelude.Order.{leb_text}
use mayday_dispatch.Prelude.Sort.{sort}
use mayday_dispatch.Domain.Patterns.{Formats}
use mayday_dispatch.Domain.Citation.{Citation, EvidenceReference, ReferenceStatus}
use mayday_dispatch.Domain.Publication.{
  Publication, Origin, is_valid_publication, parsed_publication,
}
use mayday_dispatch.Gateway.Errors.{Result, ok, err, zod_error, plain_error, ◌>>=◌, ◌>>◌, require}
use mayday_dispatch.Evidence.{ProcessingStatus}
use mayday_dispatch.Repository.Sqlite.{
  Database, PublicationRow, OriginRow, RevisionRow, CitationRow, CitationLink, EvidenceRow,
  EvidenceLink, find_publication, find_origin, find_revision, find_citation, find_evidence,
  same_origin,
}

-- `value ? String(value) : undefined`: an empty text is read as none.
abbrev pub filled : Option String → Option String
filled none = none
filled (some s) = if s == "" then none else some s

-- `citationFromRow`
unfoldable pub citation_from_row : CitationRow → Citation
citation_from_row r = record {
  id = r.id;
  title = r.title;
  subtitle = none;
  authors = r.authors;
  publisher = filled r.publisher;
  published_at = filled r.published_at;
  url = filled r.url;
  doi = filled r.doi;
}

abbrev pub before_ordinal : CitationLink → CitationLink → Bool
before_ordinal a b = leb a.ordinal b.ordinal

unfoldable pub joined_citations : List CitationRow → List CitationLink → List Citation
unfolding find_citation citation_from_row
joined_citations rows [] = []
joined_citations rows (l ∷ ls) =
    let rest = joined_citations rows ls in
    elim (find_citation l.citation_id rows) [ none ↦ rest | some r ↦ citation_from_row r ∷ rest ]

-- The sources of a publication, by their place.
unfoldable pub read_sources : String → Database → List Citation
unfolding joined_citations sort
read_sources id db =
    joined_citations db.citations
      (sort before_ordinal (keep (λ (l : CitationLink). l.publication_id == id) db.citation_links))

-- The status column, as the schema of a reference reads it: it knows four of the six.
unfoldable pub reference_status : ProcessingStatus → Option ReferenceStatus
reference_status ProcessingStatus.registered = some ReferenceStatus.registered
reference_status ProcessingStatus.processing = some ReferenceStatus.processing
reference_status ProcessingStatus.ready = some ReferenceStatus.ready
reference_status ProcessingStatus.rejected = some ReferenceStatus.rejected
reference_status _ = none

unfoldable pub row_citation : EvidenceRow → Database → Option Citation
unfolding find_citation citation_from_row
row_citation r db = elim (filled r.citation_id) [
  | none ↦ none
  | some id ↦ Option.map citation_from_row (find_citation id db.citations)
]

-- A row of evidence as a reference; the schema refuses a status that a reference cannot have.
unfoldable pub reference_of_row : EvidenceRow → Database → Result EvidenceReference
unfolding reference_status row_citation
reference_of_row r db =
    let e = r.columns in
    elim (reference_status e.status) [
      | none ↦ err zod_error
      | some status ↦ ok (record {
        id = e.id;
        title = e.title;
        description = filled e.description;
        url = filled e.public_url;
        locator = filled e.locator;
        visibility = e.visibility;
        media_type = some e.media_type;
        source = some e.source;
        evidence_provenance = some e.provenance;
        checksum = some e.checksum;
        processor = filled e.processor;
        status = some status;
        evidence_version = some e.version;
        has_checksum_algorithm = true;
        acquisition_at = filled e.acquisition_at;
        processed_at = filled e.processed_at;
        parent_evidence_id = filled e.parent_evidence_id;
        derivation_type = filled e.derivation_type;
        citation = row_citation r db;
      })
    ]

-- `ORDER BY associated_at, id`
unfoldable pub before_link : EvidenceLink → EvidenceLink → Bool
unfolding leb_text
before_link a b =
    not (leb_text b.associated_at a.associated_at)
    || (a.associated_at == b.associated_at && leb_text a.evidence_id b.evidence_id)

unfoldable pub joined_evidence : Database → List EvidenceLink → Result (List EvidenceReference)
unfolding find_evidence reference_of_row
joined_evidence db [] = ok []
joined_evidence db (l ∷ ls) =
    let rest = joined_evidence db ls in
    elim (find_evidence l.evidence_id db.evidence) [
      | none ↦ rest
      | some r ↦ do first ← reference_of_row r db; others ← rest; ok (first ∷ others)
    ]

-- The evidence of a publication, in the order in which it was associated.
unfoldable pub read_evidence : String → Database → Result (List EvidenceReference)
unfolding joined_evidence before_link sort
read_evidence id db =
    joined_evidence db
      (sort before_link (keep (λ (l : EvidenceLink). l.publication_id == id) db.evidence_links))

-- The value that `readPublication` puts together from a row, its origin and its revision.
unfoldable pub assembled :
    PublicationRow → OriginRow → RevisionRow → List EvidenceReference → List Citation → Publication
assembled row origin revision evidence sources = record {
  id = row.id;
  slug = row.slug;
  kind = row.kind;
  lifecycle_state = row.lifecycle_state;
  visibility = row.visibility;
  title = row.title;
  subtitle = filled row.subtitle;
  excerpt = row.excerpt;
  body = row.body;
  blocks = row.blocks;
  published_at = row.published_at;
  reading_time_minutes = row.reading_time_minutes;
  tags = row.tags;
  revision = record {
    version = row.current_version;
    updated_at = revision.revision.updated_at;
    summary = revision.revision.summary;
    previous_version = revision.revision.previous_version;
    revision_type = revision.revision.revision_type;
  };
  provenance = record {
    origin = record origin.origin { url = filled origin.origin.url };
    created_by = row.created_by;
    created_at = row.created_at;
    verification_status = row.verification_status;
    internal_notes = filled row.internal_notes;
  };
  extensions = row.extensions;
  evidence = evidence;
  sources = sources;
}

-- The joined row, when all three tables have one.
unfoldable pub join_publication :
    String → Database → Option (PublicationRow × OriginRow × RevisionRow)
unfolding find_publication find_origin find_revision
join_publication id db = elim (find_publication id db.publications) [
  | none ↦ none
  | some row ↦ elim (find_origin id db.origins) [
    | none ↦ none
    | some origin ↦ elim (find_revision id row.current_version db.revisions) [
      | none ↦ none
      | some revision ↦ some (row, origin, revision)
    ]
  ]
]

module _ (f : Formats) where
  -- `readPublication`; a row that is missing is an exception.
  unfoldable pub read_publication : String → Database → Result Publication
  unfolding join_publication read_evidence read_sources assembled
  read_publication id db = elim (join_publication id db) [
    | none ↦ err plain_error
    | some (row, origin, revision) ↦ do
      evidence ← read_evidence id db
      let publication = assembled row origin revision evidence (read_sources id db)
      require (is_valid_publication f publication) zod_error
      ok (parsed_publication publication)
  ]

  unfoldable pub read_optional : Option String → Database → Result (Option Publication)
  unfolding read_publication
  read_optional none db = ok none
  read_optional (some id) db = do publication ← read_publication id db; ok (some publication)

  unfoldable pub read_each : List String → Database → Result (List Publication)
  unfolding read_publication
  read_each [] db = ok []
  read_each (id ∷ ids) db = do
    first ← read_publication id db
    rest ← read_each ids db
    ok (first ∷ rest)

  -- `ORDER BY created_at, id`
  unfoldable pub before_row : PublicationRow → PublicationRow → Bool
  unfolding leb_text
  before_row a b =
      not (leb_text b.created_at a.created_at)
      || (a.created_at == b.created_at && leb_text a.id b.id)

  -- `list`
  unfoldable pub list_rows : Database → Result (List Publication)
  unfolding read_each before_row sort
  list_rows db = read_each (map (λ (r : PublicationRow). r.id) (sort before_row db.publications)) db

  -- `findById`
  unfoldable pub find_row_by_id : String → Database → Result (Option Publication)
  unfolding read_optional find_publication
  find_row_by_id id db =
      read_optional
        (Option.map (λ (r : PublicationRow). r.id) (find_publication id db.publications)) db

  -- `findBySlug`
  unfoldable pub find_row_by_slug : String → Database → Result (Option Publication)
  unfolding read_optional
  find_row_by_slug slug db =
      read_optional
        (Option.map (λ (r : PublicationRow). r.id)
          (find (λ (r : PublicationRow). r.slug == slug) db.publications))
        db

  -- `findByOriginIdentity`
  unfoldable pub find_row_by_origin : Origin → Database → Result (Option Publication)
  unfolding read_optional
  find_row_by_origin origin db =
      read_optional
        (Option.map (λ (r : OriginRow). r.publication_id)
          (find (λ (r : OriginRow). same_origin r.origin origin) db.origins))
        db
