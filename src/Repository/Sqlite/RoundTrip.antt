-- ===== src/Repository/Sqlite/RoundTrip.antt =====
-- What `readPublication` of src/publications/repository.ts makes of the tables that `save` wrote.
use mathlib.Core.Option
use mathlib.Core.List.{map}
use mayday_dispatch.Prelude.{
  String, ◌≡◌, refl, ap, ◌∙◌, subst, inl, inr, some, List, [], ◌∷◌, ◌==◌, Bool-cases, All, eq_text,
}
use mayday_dispatch.Domain.Citation.{Citation, EvidenceReference}
use mayday_dispatch.Domain.Publication.{Publication}
use mayday_dispatch.Repository.{Repository, get_publication}
use mayday_dispatch.Repository.Sqlite.{
  Database, PublicationRow, OriginRow, RevisionRow, row_of, origin_row, find_publication,
  find_origin, find_revision,
}
use mayday_dispatch.Repository.Sqlite.Save.Steps.{core}
use mayday_dispatch.Repository.Sqlite.Represents.{Represents, IsCurrentRevision, find-row_of}
use mayday_dispatch.Repository.Sqlite.Read.{filled, assembled, join_publication}

find-origin_row :
    (id : String) (ps : List Publication)
    → find_origin id (map origin_row ps) ≡ Option.map origin_row (get_publication id ps)
unfolding find_origin get_publication
find-origin_row id [] = refl
find-origin_row id (p ∷ ps) = elim (Bool-cases (p.id == id)) [
  | inl e ↦ rw (find_origin, get_publication, e) refl
  | inr e ↦ rw (find_origin, get_publication, e) (find-origin_row id ps)
]

All-get :
    (P : Publication → Type 0) (id : String) (ps : List Publication) (p : Publication)
    → get_publication id ps ≡ some p
    → All P ps
    → P p × (p.id ≡ id)
unfolding get_publication
All-get P id [] p h hs = cc
All-get P id (q ∷ ps) p h (hq, hs) = elim (Bool-cases (q.id == id)) [
  | inl e ↦
      let found : some q ≡ some p = rw (get_publication, e) at h in
      let same : q ≡ p = cc found in subst (λ x. P x × (x.id ≡ id)) same (hq, eq_text q.id id e)
  | inr e ↦ All-get P id ps p (rw (get_publication, e) at h) hs
]

-- The publication that is put together for one that was saved: the optional texts are read as none
-- when they are empty, and its evidence and its sources come from their own tables.
abbrev pub read_back : Publication → List EvidenceReference → List Citation → Publication
read_back p evidence sources = record p {
  subtitle = filled p.subtitle;
  provenance = record p.provenance {
    origin = record p.provenance.origin { url = filled p.provenance.origin.url };
    internal_notes = filled p.provenance.internal_notes;
  };
  evidence = evidence;
  sources = sources;
}

-- Tables that stand for a repository give back each of its publications: its three rows are there,
-- and all that is put together from them, besides the evidence and the sources, is what was saved.
pub read-saved :
    (db : Database) (r : Repository) (id : String) (p : Publication)
    → Represents (core db) r
    → get_publication id r.publications ≡ some p
    → (row : PublicationRow) × (origin : OriginRow) × (revision : RevisionRow) × (join_publication
          id db
        ≡ some (row, origin, revision))
      × ((evidence : List EvidenceReference) (sources : List Citation)
          → assembled row origin revision evidence sources ≡ read_back p evidence sources)
unfolding join_publication assembled
read-saved db r id p represents h =
    let ((revision, found, same, snapshot), same_id) =
      All-get (IsCurrentRevision db.revisions) id r.publications p h represents.revisions in
    let row : find_publication id db.publications ≡ some (row_of p) =
      ap (find_publication id) represents.publications
      ∙ (find-row_of id r.publications ∙ ap (Option.map row_of) h) in
    let origin : find_origin id db.origins ≡ some (origin_row p) =
      ap (find_origin id) represents.origins
      ∙ (find-origin_row id r.publications ∙ ap (Option.map origin_row) h) in
    let current : find_revision id p.revision.version db.revisions ≡ some revision =
      subst (λ i. find_revision i p.revision.version db.revisions ≡ some revision) same_id found in
    (
      row_of p,
      origin_row p,
      revision,
      rw (join_publication, row, origin, current) refl,
      λ evidence sources.
          ap
            (λ v.
              assembled (row_of p) (origin_row p) (record revision { revision = v }) evidence
                sources)
            same,
    )
