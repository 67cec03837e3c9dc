-- ===== src/Repository/Sqlite/Rows.antt =====
-- src/publications/repository.ts: the rows that `writePublication` and `writeRelations` of
-- `SqlitePublicationRepository` write.
use mayday_dispatch.Prelude.{
  ℕ, ◌+◌, String, Bool, not, ◌&&◌, ◌||◌, List, [], ◌∷◌, ◌++◌, ◌==◌, any, keep, if◌then◌else◌,
  is_some, includes,
}
use mayday_dispatch.Domain.Citation.{Citation, EvidenceReference}
use mayday_dispatch.Domain.Publication.{Publication}
use mayday_dispatch.Gateway.Errors.{Result, ok, plain_error, ◌>>=◌, ◌>>◌, require, forbid}
use mayday_dispatch.Repository.Sqlite.{
  Database, PublicationRow, OriginRow, CitationRow, CitationLink, EvidenceLink, row_of, origin_row,
  find_evidence, update_publication_row, update_origin_row, same_origin,
}

-- `INSERT` of a publication and its origin: the ids, the slug and the identity of the origin are
-- unique.
unfoldable pub insert_publication : Publication → Database → Result Database
insert_publication p db = do
  forbid (any (λ (r : PublicationRow). r.id == p.id || r.slug == p.slug) db.publications)
      plain_error
  forbid
      (any (λ (r : OriginRow). r.publication_id == p.id || same_origin r.origin p.provenance.origin)
        db.origins)
      plain_error
  ok (record db {
    publications = db.publications ++ row_of p ∷ [];
    origins = db.origins ++ origin_row p ∷ [];
  })

-- `UPDATE` of both, under the same constraints
unfoldable pub update_publication_rows : Publication → Database → Result Database
unfolding update_publication_row update_origin_row
update_publication_rows p db = do
  forbid (any (λ (r : PublicationRow). not (r.id == p.id) && r.slug == p.slug) db.publications)
      plain_error
  forbid
      (any
        (λ (r : OriginRow).
          not (r.publication_id == p.id) && same_origin r.origin p.provenance.origin)
        db.origins)
      plain_error
  ok (record db {
    publications = update_publication_row (row_of p) db.publications;
    origins = update_origin_row (origin_row p) db.origins;
  })

-- `writePublication`
unfoldable pub write_publication_rows : Publication → Bool → Database → Result Database
unfolding insert_publication update_publication_rows
write_publication_rows p insert db =
    if insert then insert_publication p db else update_publication_rows p db

abbrev pub citation_row : Citation → CitationRow
citation_row c = record {
  id = c.id;
  title = c.title;
  authors = c.authors;
  publisher = c.publisher;
  published_at = c.published_at;
  url = c.url;
  doi = c.doi;
}

-- `upsertCitation`
unfoldable pub upsert_citation : CitationRow → List CitationRow → List CitationRow
upsert_citation c [] = c ∷ []
upsert_citation c (x ∷ xs) = if x.id == c.id then c ∷ xs else x ∷ upsert_citation c xs

-- The loop over the sources: each is stored, and linked at its place.
unfoldable pub write_citations : String → ℕ → List Citation → Database → Result Database
unfolding upsert_citation
write_citations id ordinal [] db = ok db
write_citations id ordinal (c ∷ cs) db = do
  forbid
      (any (λ (l : CitationLink). l.publication_id == id && l.citation_id == c.id)
        db.citation_links)
      plain_error
  write_citations id (ordinal + 1) cs (record db {
    citations = upsert_citation (citation_row c) db.citations;
    citation_links =
        db.citation_links
        ++ record { publication_id = id; citation_id = c.id; ordinal = ordinal } ∷ [];
  })

-- The loop over the evidence: `existing` are the ids that were linked before it. A link refers to
-- registered evidence, and stands once.
unfoldable pub write_evidence_links :
    Publication → List String → List EvidenceReference → Database → Result Database
unfolding find_evidence
write_evidence_links p existing [] db = ok db
write_evidence_links p existing (e ∷ es) db =
    let skipped = write_evidence_links p existing es db in
    if includes e.id existing then skipped else do
      forbid
          (any (λ (l : EvidenceLink). l.publication_id == p.id && l.evidence_id == e.id)
            db.evidence_links)
          plain_error
      require (is_some (find_evidence e.id db.evidence)) plain_error
      write_evidence_links p existing es (record db {
        evidence_links =
            db.evidence_links
            ++ record {
              publication_id = p.id;
              evidence_id = e.id;
              associated_version = p.revision.version;
              associated_at = p.revision.updated_at;
            }
              ∷ [];
      })

unfoldable pub linked_evidence : String → List EvidenceLink → List String
linked_evidence id [] = []
linked_evidence id (l ∷ ls) =
    let rest = linked_evidence id ls in
    if l.publication_id == id then l.evidence_id ∷ rest else rest

-- `writeRelations`
unfoldable pub write_relations : Publication → Database → Result Database
unfolding write_citations write_evidence_links linked_evidence
write_relations p db = do
  linked ← write_citations p.id 0 p.sources (record db {
    citation_links = keep (λ (l : CitationLink). not (l.publication_id == p.id)) db.citation_links;
  })
  write_evidence_links p (linked_evidence p.id linked.evidence_links) p.evidence linked
