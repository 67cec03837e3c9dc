-- ===== src/Repository/Sqlite/Findings.antt =====
-- Where src/publications/repository.ts reads or reports less than its callers rely on.
use mayday_dispatch.Prelude.{
  String, ◌≡◌, refl, ap, subst, inl, inr, Bool, true, none, some, List, [], ◌∷◌, ◌==◌, Bool-cases,
  Option-cases, is_some, keep, Memᴰ, eq_refl,
}
use mayday_dispatch.Prelude.Sort.{sort, sort-mem}
use mayday_dispatch.Domain.Patterns.{Formats}
use mayday_dispatch.Gateway.Errors.{
  err, Failure, zod_error, gateway_error, persistence_failure, no_details,
  repository_persistence_error, evidence_registration, Outcome-cases,
}
use mayday_dispatch.Evidence.{RegisteredEvidence, is_valid_evidence, parsed_evidence}
use mayday_dispatch.EvidenceGateway.{throw_persistence_error}
use mayday_dispatch.Repository.Sqlite.{
  Database, PublicationRow, OriginRow, RevisionRow, EvidenceRow, EvidenceLink, find_evidence,
}
use mayday_dispatch.Repository.Sqlite.Read.{
  reference_of_row, reference_status, joined_evidence, before_link, read_evidence, read_publication,
  join_publication,
}
use mayday_dispatch.Repository.Sqlite.Evidence.{EvidenceOptions, register_row, register_transaction}

mem-keep :
    {A : Type 0} (p : A → Bool) (x : A) (xs : List A) → Memᴰ x xs → p x ≡ true → Memᴰ x (keep p xs)
mem-keep p x [] m h = elim m [ ]
mem-keep p x (y ∷ ys) (Memᴰ.head e) h =
    let here : p y ≡ true = subst (λ t. p t ≡ true) e h in rw here (Memᴰ.head e)
mem-keep p x (y ∷ ys) (Memᴰ.tail m) h = elim (Bool-cases (p y)) [
  | inl e ↦ rw e (Memᴰ.tail (mem-keep p x ys m h))
  | inr e ↦ rw e (mem-keep p x ys m h)
]

refused_row :
    (db : Database) (row : EvidenceRow) (e : Failure)
    → reference_of_row row db ≡ err e
    → e ≡ zod_error
unfolding reference_of_row
refused_row db row e h = elim (Option-cases (reference_status row.columns.status)) [
  | inl s ↦ cc (rw (reference_of_row, s) at h)
  | inr (t, s) ↦ absurd (cc (rw (reference_of_row, s) at h))
]

joined_refused :
    (db : Database) (ls : List EvidenceLink) (e : Failure)
    → joined_evidence db ls ≡ err e
    → e ≡ zod_error
unfolding joined_evidence
joined_refused db [] e h = cc
joined_refused db (l ∷ ls) e h = elim (Option-cases (find_evidence l.evidence_id db.evidence)) [
  | inl f ↦ joined_refused db ls e (rw (joined_evidence, f) at h)
  | inr (row, f) ↦ elim (Outcome-cases (reference_of_row row db)) [
    | inr (x, g) ↦
        let same : err x ≡ err e = rw (joined_evidence, f, g) at h in
        subst (λ t. t ≡ zod_error) (cc same) (refused_row db row x g)
    | inl (first, g) ↦ elim (Outcome-cases (joined_evidence db ls)) [
      | inr (x, k) ↦
          let same : err x ≡ err e = rw (joined_evidence, f, g, k) at h in
          subst (λ t. t ≡ zod_error) (cc same) (joined_refused db ls x k)
      | inl (rest, k) ↦ absurd (cc (rw (joined_evidence, f, g, k) at h))
    ]
  ]
]

-- One linked row that a reference cannot stand for makes the whole list unreadable.
joined_unreadable :
    (db : Database) (ls : List EvidenceLink) (l : EvidenceLink) (row : EvidenceRow)
    → Memᴰ l ls
    → find_evidence l.evidence_id db.evidence ≡ some row
    → reference_status row.columns.status ≡ none
    → joined_evidence db ls ≡ err zod_error
unfolding joined_evidence reference_of_row
joined_unreadable db [] l row m f s = elim m [ ]
joined_unreadable db (x ∷ ls) l row (Memᴰ.head e) f s =
    let here : find_evidence x.evidence_id db.evidence ≡ some row =
      subst (λ (t : EvidenceLink). find_evidence t.evidence_id db.evidence ≡ some row) e f in
    rw (joined_evidence, here, reference_of_row, s) refl
joined_unreadable db (x ∷ ls) l row (Memᴰ.tail m) f s =
    let rest = joined_unreadable db ls l row m f s in
    elim (Option-cases (find_evidence x.evidence_id db.evidence)) [
      | inl g ↦ rw (joined_evidence, g) rest
      | inr (other, g) ↦ elim (Outcome-cases (reference_of_row other db)) [
        | inr (y, k) ↦ rw (joined_evidence, g, k) (ap err (refused_row db other y k))
        | inl (first, k) ↦ rw (joined_evidence, g, k, rest) refl
      ]
    ]

-- A publication whose evidence has come to a status that a reference does not know, such as
-- superseded or failed, can no longer be read: reading it throws, though its rows are there.
pub read_publication-unreadable :
    (f : Formats) (id : String) (db : Database) (rows : PublicationRow × OriginRow × RevisionRow)
    (l : EvidenceLink) (row : EvidenceRow)
    → join_publication id db ≡ some rows
    → Memᴰ l db.evidence_links
    → l.publication_id ≡ id
    → find_evidence l.evidence_id db.evidence ≡ some row
    → reference_status row.columns.status ≡ none
    → read_publication f id db ≡ err zod_error
unfolding read_publication read_evidence
read_publication-unreadable f id db rows l row joined m same found s =
    let linked : (l.publication_id == id) ≡ true = rw same (eq_refl id) in
    let unreadable =
      joined_unreadable db
        (sort before_link (keep (λ (x : EvidenceLink). x.publication_id == id) db.evidence_links)) l
        row
        (sort-mem before_link l
          (keep (λ (x : EvidenceLink). x.publication_id == id) db.evidence_links)
          (mem-keep (λ (x : EvidenceLink). x.publication_id == id) l db.evidence_links m linked))
        found s in
    rw (read_publication, joined, read_evidence, unreadable) refl

-- A registration of an id that is taken is refused, as every registration that fails is, under a
-- name that the gateway does not tell apart: it answers with a persistence failure, not a conflict.
pub register_row-masked :
    (f : Formats) (lower_case : String → String) (e : RegisteredEvidence) (o : EvidenceOptions)
    (db : Database)
    → is_valid_evidence f e ≡ true
    → is_some (find_evidence (parsed_evidence e).id db.evidence) ≡ true
    → (x : Failure) × (register_row f lower_case e o db ≡ err x)
      × (throw_persistence_error x ≡ gateway_error persistence_failure no_details)
unfolding register_row register_transaction throw_persistence_error
register_row-masked f lower_case e o db valid taken = (
  repository_persistence_error evidence_registration,
  rw (register_row, valid, register_transaction, taken) refl,
  refl,
)
