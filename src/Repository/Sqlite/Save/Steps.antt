-- ===== src/Repository/Sqlite/Save/Steps.antt =====
-- What each step of the transaction of `save` in src/publications/repository.ts writes to the
-- tables that hold publications, revisions, audit events, manifests and keys.
use mayday_dispatch.Prelude.{
  ◌||◌, subst, ℕ, ◌+◌, String, ◌≡◌, refl, sym, ap, ◌∙◌, inl, inr, Bool, true, false, not, Option,
  none, some, List, [], ◌∷◌, ◌++◌, Bool-cases, is_some, includes, if◌then◌else◌, ◌==◌, ◌&&◌, any,
  subst, ◌||◌,
}
use mayday_dispatch.Domain.Citation.{Citation, EvidenceReference}
use mayday_dispatch.Domain.Publication.{Publication}
use mayday_dispatch.Gateway.Errors.{
  ok, plain_error, forbid-eq-ok, require-eq-ok, >>=-eq-ok, ok-injective,
}
use mayday_dispatch.Audit.{AuditEvent}
use mayday_dispatch.Repository.{
  IdempotencyKey, IdempotencyRecord, ReleaseManifest, Lockdown, OperationalAuditEvent, SaveOptions,
}
use mayday_dispatch.Repository.Sqlite.{
  Database, PublicationRow, OriginRow, RevisionRow, row_of, origin_row, find_revision, find_key,
  find_publication, update_publication_row, update_origin_row,
}
use mayday_dispatch.Repository.Sqlite.Save.{
  write_revision, write_lifecycle, changes_state, write_audit, write_manifest, write_key, write_all,
}
use mayday_dispatch.Repository.Sqlite.Rows.{
  insert_publication, update_publication_rows, write_publication_rows, write_citations,
  write_evidence_links, write_relations, linked_evidence,
}

pub record Core : Type 0 where
  pub publications : List PublicationRow
  pub origins : List OriginRow
  pub revisions : List RevisionRow
  pub audit_events : List AuditEvent
  pub operational_audit_events : List OperationalAuditEvent
  pub release_manifests : List ReleaseManifest
  pub idempotency_keys : List IdempotencyRecord
  pub lockdown : Lockdown

abbrev pub core : Database → Core
core db = record {
  publications = db.publications;
  origins = db.origins;
  revisions = db.revisions;
  audit_events = db.audit_events;
  operational_audit_events = db.operational_audit_events;
  release_manifests = db.release_manifests;
  idempotency_keys = db.idempotency_keys;
  lockdown = db.lockdown;
}

abbrev pub stored_rows : Publication → Bool → Core → Core
stored_rows p insert c = record c {
  publications =
      if insert
      then c.publications ++ row_of p ∷ []
      else update_publication_row (row_of p) c.publications;
  origins =
      if insert then c.origins ++ origin_row p ∷ [] else update_origin_row (origin_row p) c.origins;
}

insert_publication-core :
    (p : Publication) (db db' : Database)
    → insert_publication p db ≡ ok db'
    → core db' ≡ stored_rows p true (core db)
unfolding insert_publication
insert_publication-core p db db' h =
    let (_, h1) =
      forbid-eq-ok (any (λ (r : PublicationRow). r.id == p.id || r.slug == p.slug) db.publications)
        plain_error _ h in
    let (_, h2) = forbid-eq-ok _ _ _ h1 in ap core (sym (ok-injective h2))

update_rows-core :
    (p : Publication) (db db' : Database)
    → update_publication_rows p db ≡ ok db'
    → core db' ≡ stored_rows p false (core db)
unfolding update_publication_rows
update_rows-core p db db' h =
    let (_, h1) =
      forbid-eq-ok
        (any (λ (r : PublicationRow). not (r.id == p.id) && r.slug == p.slug) db.publications)
        plain_error _ h in
    let (_, h2) = forbid-eq-ok _ _ _ h1 in ap core (sym (ok-injective h2))

write_publication-core :
    (p : Publication) (insert : Bool) (db db' : Database)
    → write_publication_rows p insert db ≡ ok db'
    → core db' ≡ stored_rows p insert (core db)
unfolding write_publication_rows
write_publication-core p true db db' h = insert_publication-core p db db' h
write_publication-core p false db db' h = update_rows-core p db db' h

write_citations-core :
    (id : String) (n : ℕ) (cs : List Citation) (db db' : Database)
    → write_citations id n cs db ≡ ok db'
    → core db' ≡ core db
unfolding write_citations
write_citations-core id n [] db db' h = ap core (sym (ok-injective h))
write_citations-core id n (c ∷ cs) db db' h =
    let (_, h1) = forbid-eq-ok _ _ _ h in write_citations-core id (n + 1) cs _ db' h1

write_evidence_links-core :
    (p : Publication) (existing : List String) (es : List EvidenceReference) (db db' : Database)
    → write_evidence_links p existing es db ≡ ok db'
    → core db' ≡ core db
unfolding write_evidence_links
write_evidence_links-core p existing [] db db' h = ap core (sym (ok-injective h))
write_evidence_links-core p existing (e ∷ es) db db' h =
    elim (Bool-cases (includes e.id existing)) [
      | inl i ↦ write_evidence_links-core p existing es db db' (rw i at h)
      | inr i ↦
          let (_, h1) = forbid-eq-ok _ _ _ (rw i at h) in
          let (_, h2) = require-eq-ok _ _ _ h1 in write_evidence_links-core p existing es _ db' h2
    ]

write_relations-core :
    (p : Publication) (db db' : Database) → write_relations p db ≡ ok db' → core db' ≡ core db
unfolding write_relations
write_relations-core p db db' h =
    let (linked, e, h1) = >>=-eq-ok (write_citations p.id 0 p.sources _) _ h in
    write_evidence_links-core p (linked_evidence p.id linked.evidence_links) p.evidence linked db'
      h1
    ∙ write_citations-core p.id 0 p.sources _ linked e

abbrev pub revision_row : Publication → AuditEvent → RevisionRow
revision_row p e = record {
  publication_id = p.id;
  revision = p.revision;
  snapshot = p;
  actor_subject = e.actor.subject_id;
  actor_application = e.actor.application;
  lifecycle_state = p.lifecycle_state;
}

write_revision-core :
    (p : Publication) (e : AuditEvent) (db db' : Database)
    → write_revision p e db ≡ ok db'
    → (is_some (find_revision p.id p.revision.version db.revisions) ≡ false)
      × (core db' ≡ record (core db) { revisions = db.revisions ++ revision_row p e ∷ [] })
unfolding write_revision
write_revision-core p e db db' h =
    let (fresh, h1) = forbid-eq-ok _ _ _ h in (fresh, ap core (sym (ok-injective h1)))

write_lifecycle-core :
    (current : Option PublicationRow) (p : Publication) (db : Database)
    → core (write_lifecycle current p db) ≡ core db
unfolding write_lifecycle
write_lifecycle-core current p db = elim (Bool-cases (changes_state current p)) [
  | inl e ↦ rw (write_lifecycle, e) refl
  | inr e ↦ rw (write_lifecycle, e) refl
]

write_audit-core :
    (e : AuditEvent) (db db' : Database)
    → write_audit e db ≡ ok db'
    → core db' ≡ record (core db) { audit_events = db.audit_events ++ e ∷ [] }
unfolding write_audit
write_audit-core e db db' h = let (_, h1) = forbid-eq-ok _ _ _ h in ap core (sym (ok-injective h1))

abbrev pub with_manifest : Option ReleaseManifest → List ReleaseManifest → List ReleaseManifest
with_manifest none ms = ms
with_manifest (some m) ms = ms ++ m ∷ []

write_manifest-core :
    (m : Option ReleaseManifest) (db db' : Database)
    → write_manifest m db ≡ ok db'
    → core db' ≡ record (core db) { release_manifests = with_manifest m db.release_manifests }
unfolding write_manifest
write_manifest-core none db db' h = ap core (sym (ok-injective h))
write_manifest-core (some m) db db' h =
    let (_, h1) = forbid-eq-ok _ _ _ h in
    let (_, h2) = require-eq-ok _ _ _ h1 in ap core (sym (ok-injective h2))

abbrev pub key_row : Publication → IdempotencyKey → IdempotencyRecord
key_row p k = record {
  entry = k;
  publication_id = p.id;
  resulting_version = p.revision.version;
  response = p;
}

abbrev pub with_key :
    Publication → Option IdempotencyKey → List IdempotencyRecord → List IdempotencyRecord
with_key p none ks = ks
with_key p (some k) ks = ks ++ key_row p k ∷ []

-- The key of a save, when there is one, is not in the table.
abbrev pub IsFreshKey : Option IdempotencyKey → List IdempotencyRecord → Type 0
IsFreshKey none ks = Unit
IsFreshKey (some k) ks = is_some (find_key k.actor_scope k.key ks) ≡ false

write_key-core :
    (p : Publication) (k : Option IdempotencyKey) (db db' : Database)
    → write_key p k db ≡ ok db'
    → IsFreshKey k db.idempotency_keys
      × (core db' ≡ record (core db) { idempotency_keys = with_key p k db.idempotency_keys })
unfolding write_key
write_key-core p none db db' h = (tt, ap core (sym (ok-injective h)))
write_key-core p (some k) db db' h =
    let (fresh, h1) = forbid-eq-ok _ _ _ h in (fresh, ap core (sym (ok-injective h1)))

-- The tables after a transaction that commits.
abbrev pub stored_all : Publication → SaveOptions → Bool → Core → Core
stored_all p o insert c =
    let stored = stored_rows p insert c in
    record stored {
      revisions = c.revisions ++ revision_row p o.audit_event ∷ [];
      audit_events = c.audit_events ++ o.audit_event ∷ [];
      release_manifests = with_manifest o.release_manifest c.release_manifests;
      idempotency_keys = with_key p o.idempotency c.idempotency_keys;
    }

abbrev with_revision : Publication → AuditEvent → Core → Core
with_revision p e c = record c { revisions = c.revisions ++ revision_row p e ∷ [] }

abbrev with_audit : AuditEvent → Core → Core
with_audit e c = record c { audit_events = c.audit_events ++ e ∷ [] }

abbrev with_manifests : Option ReleaseManifest → Core → Core
with_manifests m c = record c { release_manifests = with_manifest m c.release_manifests }

abbrev with_keys : Publication → Option IdempotencyKey → Core → Core
with_keys p k c = record c { idempotency_keys = with_key p k c.idempotency_keys }

pub record Committed (p : Publication) (o : SaveOptions) (db db' : Database) : Type 0 where
  pub fresh_revision : is_some (find_revision p.id p.revision.version db.revisions) ≡ false
  pub fresh_key : IsFreshKey o.idempotency db.idempotency_keys
  pub stored :
      core db' ≡ stored_all p o (not (is_some (find_publication p.id db.publications))) (core db)

pub write_all-Committed :
    (p : Publication) (o : SaveOptions) (db db' : Database)
    → write_all p o db ≡ ok db'
    → Committed p o db db'
unfolding write_all
write_all-Committed p o db db' h =
    let current = find_publication p.id db.publications in
    let (db1, e1, h1) = >>=-eq-ok (write_publication_rows p (not (is_some current)) db) _ h in
    let (db2, e2, h2) = >>=-eq-ok (write_relations p db1) _ h1 in
    let (db3, e3, h3) = >>=-eq-ok (write_revision p o.audit_event db2) _ h2 in
    let (db4, e4, h4) =
      >>=-eq-ok (write_audit o.audit_event (write_lifecycle current p db3)) _ h3 in
    let (db5, e5, h5) = >>=-eq-ok (write_manifest o.release_manifest db4) _ h4 in
    let c1 = write_publication-core p (not (is_some current)) db db1 e1 in
    let c2 = write_relations-core p db1 db2 e2 ∙ c1 in
    let (fresh, c3) = write_revision-core p o.audit_event db2 db3 e3 in
    let c4 = write_audit-core o.audit_event (write_lifecycle current p db3) db4 e4 in
    let l = write_lifecycle-core current p db3 in
    let c5 = write_manifest-core o.release_manifest db4 db5 e5 in
    let (key, c6) = write_key-core p o.idempotency db5 db' h5 in
    let r2 : core db3
        ≡ with_revision p o.audit_event (stored_rows p (not (is_some current)) (core db)) =
      c3 ∙ ap (with_revision p o.audit_event) c2 in
    let r4 = c4 ∙ ap (with_audit o.audit_event) (l ∙ r2) in
    let r5 = c5 ∙ ap (with_manifests o.release_manifest) r4 in
    record {
      fresh_revision =
          subst (λ rs. is_some (find_revision p.id p.revision.version rs) ≡ false)
            (ap (λ (c : Core). c.revisions) c2) fresh;
      fresh_key = subst (IsFreshKey o.idempotency) (ap (λ (c : Core). c.idempotency_keys) r5) key;
      stored = c6 ∙ ap (with_keys p o.idempotency) r5;
    }
