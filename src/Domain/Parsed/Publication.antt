-- ===== src/Domain/Parsed/Publication.antt =====
-- The publication that `PublicationSchema` returns passes it again.
use mayday_dispatch.Prelude.{◌≡◌, refl, all}
use mayday_dispatch.Prelude.Text.{trim}
use mayday_dispatch.Prelude.Text.Trim.{trim-trim}
use mayday_dispatch.Domain.Patterns.{Formats}
use mayday_dispatch.Domain.Citation.{is_valid_citation, is_valid_reference, parsed_citation}
use mayday_dispatch.Domain.Publication.{
  Origin, Provenance, Revision, Publication, is_valid_origin, parsed_origin, is_valid_provenance,
  parsed_provenance, is_valid_revision, parsed_revision, is_valid_content, is_consistent,
  is_valid_publication, parsed_publication,
}
use mayday_dispatch.Domain.Parsed.{
  is_plain_text-trim, is_nonblank-trim, plain?-trim, nonblank?-trim, plains-trim,
  is_publication_type-trim, is_empty-map, citations-parsed, references-parsed,
}
use mayday_dispatch.Domain.Blocks.Schema.{is_valid_blocks}
use mayday_dispatch.Domain.Parsed.Blocks.{is_valid_blocks-parsed}

module _ (f : Formats) where
  pub is_valid_origin-parsed :
      (o : Origin) → is_valid_origin f (parsed_origin o) ≡ is_valid_origin f o
  unfolding is_valid_origin parsed_origin
  is_valid_origin-parsed o =
      rw
        (
          is_nonblank-trim o.label,
          is_nonblank-trim o.originating_application,
          is_nonblank-trim o.originating_project,
          is_nonblank-trim o.stable_object_id,
          trim-trim o.stable_object_id,
        )
        refl

  is_valid_provenance-parsed :
      (p : Provenance) → is_valid_provenance f (parsed_provenance p) ≡ is_valid_provenance f p
  unfolding is_valid_provenance parsed_provenance
  is_valid_provenance-parsed p =
      rw
        (
          is_valid_origin-parsed p.origin,
          is_nonblank-trim p.created_by,
          nonblank?-trim p.internal_notes,
        )
        refl

  is_valid_revision-parsed :
      (r : Revision) → is_valid_revision f (parsed_revision r) ≡ is_valid_revision f r
  unfolding is_valid_revision parsed_revision
  is_valid_revision-parsed r = rw (is_plain_text-trim r.summary) refl

  is_valid_content-parsed :
      (p : Publication) → is_valid_content f (parsed_publication p) ≡ is_valid_content f p
  unfolding is_valid_content parsed_publication
  is_valid_content-parsed p =
      rw
        (
          is_publication_type-trim p.kind,
          is_plain_text-trim p.title,
          plain?-trim p.subtitle,
          is_plain_text-trim p.excerpt,
          plains-trim p.body,
          is_empty-map trim p.body,
          plains-trim p.tags,
        )
        refl

  is_consistent-parsed : (p : Publication) → is_consistent (parsed_publication p) ≡ is_consistent p
  unfolding is_consistent parsed_publication parsed_revision
  is_consistent-parsed p = rw (is_empty-map parsed_citation p.sources) refl

  module _ (p : Publication) where
    blocks-parsed : is_valid_blocks f (parsed_publication p).blocks ≡ is_valid_blocks f p.blocks
    unfolding parsed_publication
    blocks-parsed = is_valid_blocks-parsed f p.blocks

    revision-parsed :
        is_valid_revision f (parsed_publication p).revision ≡ is_valid_revision f p.revision
    unfolding parsed_publication
    revision-parsed = is_valid_revision-parsed p.revision

    provenance-parsed :
        is_valid_provenance f (parsed_publication p).provenance ≡ is_valid_provenance f p.provenance
    unfolding parsed_publication
    provenance-parsed = is_valid_provenance-parsed p.provenance

    evidence-parsed :
        all (is_valid_reference f) (parsed_publication p).evidence
        ≡ all (is_valid_reference f) p.evidence
    unfolding parsed_publication
    evidence-parsed = references-parsed f p.evidence

    sources-parsed :
        all (is_valid_citation f) (parsed_publication p).sources
        ≡ all (is_valid_citation f) p.sources
    unfolding parsed_publication
    sources-parsed = citations-parsed f p.sources

  -- A publication that the schema returned is accepted again: exactly the publications that pass
  -- the schema pass it after a parse.
  pub is_valid_publication-parsed :
      (p : Publication) → is_valid_publication f (parsed_publication p) ≡ is_valid_publication f p
  unfolding is_valid_publication
  is_valid_publication-parsed p =
      rw
        (
          is_valid_content-parsed p,
          blocks-parsed p,
          revision-parsed p,
          provenance-parsed p,
          evidence-parsed p,
          sources-parsed p,
          is_consistent-parsed p,
        )
        refl
