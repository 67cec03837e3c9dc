-- ===== src/Gateway/Service/Draft.antt =====
-- src/application/publication-gateway/service.ts: `createDraft`, with the revision of a draft from
-- its origin.
pub mod Prepared
pub mod Created
pub mod Retried
use mayday_dispatch.Prelude.{
  ℕ, String, not, ◌&&◌, none, some, List, [], map, ◌==◌, eqb, if◌then◌else◌, or_else, Option,
}
use mayday_dispatch.Prelude.Text.{first}
use mayday_dispatch.Domain.Lifecycle.{draft}
use mayday_dispatch.Domain.Publication.{Publication, editorial}
use mayday_dispatch.Gateway.Errors.{
  Result, ok, err, gateway_error, stale_version, origin_conflict, idempotency_conflict,
  existing_origin, versions, no_details, validation_error, ◌>>=◌, ◌>>◌, require, forbid,
}
use mayday_dispatch.Gateway.Authorization.{Actor, create_draft, assert_can, forbidden_error}
use mayday_dispatch.Gateway.Dto.{CreateDraftRequest, Response, is_valid_draft, parsed_draft}
use mayday_dispatch.Evidence.{RegisteredEvidence}
use mayday_dispatch.Repository.{
  Repository, IdempotencyKey, IdempotencyRecord, find_by_origin_identity, find_idempotency,
}
use mayday_dispatch.Repository.Save.{Step}
use mayday_dispatch.Gateway.Service.{
  Gateway, RequestContext, Supply, Plan, replay, write, truthy, is_external, is_application,
  clone_for_revision, assert_mayday3_evidence_only, assert_expected_version, assert_unlocked_draft,
  assert_slug_available, validate_publication, assert_evidence_policy, to_evidence_reference,
  resolve_evidence, audit_event, actor_scope, perform,
}

-- `assertExternalApplicationMatchesOrigin`
unfoldable pub assert_matches_origin : Option Actor → CreateDraftRequest → Result (Unit {0})
assert_matches_origin actor d =
    forbid (is_external actor && not (is_application actor d.origin.originating_application))
      forbidden_error

-- The record of an idempotency key, against the hash of the request.
unfoldable pub replayed : Option IdempotencyRecord → (hash : String) → Result (Option Publication)
replayed none hash = ok none
replayed (some record') hash = do
  require (record'.request_hash == hash) (gateway_error idempotency_conflict no_details)
  ok (some record'.response)

unfoldable pub find_record : Option String → Option Actor → Repository → Option IdempotencyRecord
unfolding find_idempotency actor_scope
find_record none actor r = none
find_record (some key) actor r = find_idempotency (actor_scope actor) key r

-- `resolveIdempotency`
unfoldable pub resolve_idempotency :
    Gateway
    → CreateDraftRequest
    → Option Actor
    → RequestContext
    → Repository
    → Result (Option Publication)
resolve_idempotency g d actor context r =
    replayed (find_record (truthy context.idempotency_key) actor r) (g.request_hash d)

unfoldable pub key_entry :
    Gateway → Option String → CreateDraftRequest → Option Actor → String → Option IdempotencyKey
unfolding actor_scope
key_entry g none d actor created_at = none
key_entry g (some key) d actor created_at = some (record {
  actor_scope = actor_scope actor;
  key = key;
  request_hash = g.request_hash d;
  created_at = created_at;
})

-- The publication that `createDraft` makes of a request.
unfoldable pub new_draft : CreateDraftRequest → List RegisteredEvidence → Supply → Publication
unfolding to_evidence_reference
new_draft d evidence s = record {
  id = s.publication_id;
  slug = d.slug;
  kind = d.kind;
  lifecycle_state = draft;
  visibility = d.visibility;
  title = d.title;
  subtitle = d.subtitle;
  excerpt = d.excerpt;
  body = d.body;
  blocks = or_else d.blocks [];
  published_at = or_else d.published_at (first 10 s.now);
  reading_time_minutes = d.reading_time_minutes;
  tags = d.tags;
  revision = record {
    version = 1;
    updated_at = s.now;
    summary = "Draft created through publication gateway.";
    previous_version = none;
    revision_type = editorial;
  };
  provenance = record {
    origin = d.origin;
    created_by = d.created_by;
    created_at = s.now;
    verification_status = d.verification_status;
    internal_notes = d.internal_notes;
  };
  extensions = or_else d.extensions [];
  evidence = map to_evidence_reference evidence;
  sources = d.sources;
}

-- The publication that a request makes of the one with the same origin.
unfoldable pub synchronized :
    Publication → CreateDraftRequest → List RegisteredEvidence → Supply → Publication
unfolding to_evidence_reference clone_for_revision
synchronized existing d evidence s = record existing {
  slug = d.slug;
  kind = d.kind;
  lifecycle_state = draft;
  visibility = d.visibility;
  title = d.title;
  excerpt = d.excerpt;
  body = d.body;
  blocks = or_else d.blocks [];
  published_at = or_else d.published_at existing.published_at;
  reading_time_minutes = d.reading_time_minutes;
  tags = d.tags;
  revision =
      clone_for_revision existing s.now "Draft synchronized from its registered origin." editorial;
  provenance = record (existing.provenance) {
    created_by = d.created_by;
    verification_status = d.verification_status;
    internal_notes = d.internal_notes;
  };
  evidence = map to_evidence_reference evidence;
  sources = d.sources;
}

module _ (g : Gateway) (actor : Option Actor) (context : RequestContext) (s : Supply)
    (r : Repository) where
  -- `updateExistingDraftFromOrigin`, without the write
  unfoldable pub prepare_synchronization :
      Publication → CreateDraftRequest → (expected : ℕ) → List RegisteredEvidence → Result Plan
  prepare_synchronization existing d expected evidence = do
    assert_can create_draft actor (some existing)
    assert_expected_version expected existing
    assert_unlocked_draft existing actor
    (if d.slug == existing.slug then ok tt else assert_slug_available d.slug (some existing.id) r)
    updated ← validate_publication g.formats (synchronized existing d evidence s)
    assert_evidence_policy updated.evidence actor updated
    ok (
        write updated (record {
          expected_version = expected;
          audit_event =
              audit_event s.audit_id "publication.origin.synchronize" updated actor context
                (some existing.revision.version) updated.revision.revision_type;
          release_manifest = none;
          registered_evidence = evidence;
          idempotency = key_entry g (truthy context.idempotency_key) d actor s.then_now;
        }))

  -- The part of `createDraft` for an origin that is new.
  unfoldable pub prepare_new_draft : CreateDraftRequest → List RegisteredEvidence → Result Plan
  prepare_new_draft d evidence = do
    require (eqb (or_else d.expected_version 0) 0)
        (gateway_error stale_version (versions (or_else d.expected_version 0) none))
    assert_slug_available d.slug none r
    publication ← validate_publication g.formats (new_draft d evidence s)
    assert_evidence_policy publication.evidence actor publication
    ok (
        write publication (record {
          expected_version = 0;
          audit_event =
              audit_event s.audit_id "publication.create" publication actor context none
                publication.revision.revision_type;
          release_manifest = none;
          registered_evidence = evidence;
          idempotency = key_entry g (truthy context.idempotency_key) d actor s.now;
        }))

  -- The branch on the publication that has the origin already.
  unfoldable pub prepare_for_origin :
      Option Publication
      → CreateDraftRequest
      → (expected : Option ℕ) → List RegisteredEvidence
      → Result Plan
  prepare_for_origin none d expected evidence = prepare_new_draft d evidence
  prepare_for_origin (some existing) d none evidence =
      err (gateway_error origin_conflict (existing_origin existing.id existing.revision.version))
  prepare_for_origin (some existing) d (some expected) evidence =
      prepare_synchronization existing d expected evidence

  unfoldable pub prepare_unless : Option Publication → CreateDraftRequest → Result Plan
  prepare_unless (some earlier) d = ok (replay earlier)
  prepare_unless none d = do
    evidence ← resolve_evidence g.registered d.evidence_ids actor
    prepare_for_origin (find_by_origin_identity d.origin r) d d.expected_version evidence

  unfoldable pub prepare_draft : CreateDraftRequest → Result Plan
  prepare_draft input = do
    require (is_valid_draft g.formats input) validation_error
    let d = parsed_draft input
    assert_mayday3_evidence_only actor
    assert_can create_draft actor none
    assert_matches_origin actor d
    earlier ← resolve_idempotency g d actor context r
    prepare_unless earlier d

-- `createDraft`
unfoldable pub create_draft_publication :
    Gateway → CreateDraftRequest → Option Actor → RequestContext → Supply → Step Response
create_draft_publication g input actor context s r =
    perform g context (prepare_draft g actor context s r input) r
