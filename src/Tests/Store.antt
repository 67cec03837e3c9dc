-- ===== src/Tests/Store.antt =====
-- The properties of the repository at sample data.
use mayday_dispatch.Prelude.{◌≡◌, refl, true, none, some, [], ◌∷◌, All, ℕ}
use mayday_dispatch.Tests.{running, formats, gateway, holding, publication, save}
use mayday_dispatch.Domain.Lifecycle.{draft, published}
use mayday_dispatch.Repository.Save.{save}
use mayday_dispatch.Gateway.Errors.{Failure, err}
use mayday_dispatch.Repository.{SaveOptions, Repository, ReleaseManifest}
use mayday_dispatch.Domain.Publication.{parsed_publication, RevisionType}
use mayday_dispatch.Repository.Snapshots.Active.{Released, list_public_snapshots-Released}
use mayday_dispatch.Repository.Save.Effect.{Effect, save-Effect, lost_update_refused}
use mayday_dispatch.Gateway.Authorization.{editor}
use mayday_dispatch.Domain.Public.{project}
use mayday_dispatch.Audit.{succeeded}

-- The options of a save of the sample publication, from one version to the next.
abbrev pub options : ℕ → ℕ → SaveOptions
options from to = record {
  expected_version = from;
  audit_event = record {
    id = "audit-1";
    timestamp = "2026-02-01T00:00:00Z";
    actor = record { subject_id = "subject-1"; roles = editor ∷ []; application = none };
    action = "publication.update";
    publication_id = some "pub-1";
    correlation_id = "corr-1";
    request_id = "req-1";
    previous_version = some from;
    resulting_version = some to;
    outcome = succeeded;
    reason = none;
    error_code = none;
    revision_type = some RevisionType.editorial;
  };
  release_manifest = none;
  registered_evidence = [];
  idempotency = none;
}

abbrev pub stored : Repository
stored = holding (publication draft 1)

-- The repository after the save of version 2
abbrev saved : Repository
saved = (save formats gateway.digest (publication draft 2) (options 1 2) stored).1

save-Effect_example :
    (publication draft 2 ≡ parsed_publication (publication draft 2))
    × Effect (publication draft 2) (options 1 2) stored saved
unfolding running
save-Effect_example =
    save-Effect formats gateway.digest (publication draft 2) (options 1 2) stored saved refl

lost_update_refused_example :
    (e : Failure) × (save formats gateway.digest (publication draft 2) (options 1 2) saved
      ≡ (err e, saved))
unfolding running
lost_update_refused_example =
    lost_update_refused formats gateway.digest (publication draft 2) (options 1 2) stored saved refl
      (publication draft 2) (options 1 2) refl refl (λ e. cc)

abbrev pub manifest : ReleaseManifest
manifest = record {
  release_operation_id = "audit-1";
  publication_id = "pub-1";
  publication_version = 3;
  released_at = "2026-01-02T00:00:00Z";
  publisher_subject_id = "subject-1";
  public_content_digest = "harbour-report";
  passed = true;
  finding_codes = [];
  audit_correlation_id = "corr-1";
  public_status = published;
  public_snapshot = project (publication published 3) none;
}

abbrev released : Repository
released = record stored {
  publications = publication published 3 ∷ [];
  release_manifests = manifest ∷ [];
}

-- A publication that is released through the gateway has one public snapshot.
list_public_snapshots-Released_example :
    All (Released formats gateway.digest released) (project (publication published 3) none ∷ [])
unfolding running
list_public_snapshots-Released_example =
    list_public_snapshots-Released formats gateway.digest released _ refl
