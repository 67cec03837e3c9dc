-- ===== src/Gateway/Service/Attach.antt =====
-- src/application/publication-gateway/service.ts: `attachEvidence`.
pub mod Usable
pub mod Attached
use mayday_dispatch.Prelude.{String, Option, none, some, List, [], ◌∷◌, ◌++◌, ◌==◌, any}
use mayday_dispatch.Domain.Lifecycle.{is_public_state}
use mayday_dispatch.Domain.Citation.{EvidenceReference}
use mayday_dispatch.Domain.Publication.{Publication, RevisionType}
use mayday_dispatch.Gateway.Errors.{
  Result, ok, err, gateway_error, conflict, no_details, evidence_not_registered, validation_error,
  ◌>>=◌, ◌>>◌, require, forbid,
}
use mayday_dispatch.Gateway.Authorization.{Actor, attach_evidence, assert_can}
use mayday_dispatch.Gateway.Dto.{AttachRequest, Response, is_valid_attach, parsed_attach}
use mayday_dispatch.Evidence.{RegisteredEvidence}
use mayday_dispatch.Repository.{Repository}
use mayday_dispatch.Repository.Save.{Step}
use mayday_dispatch.Gateway.Service.{
  Gateway, RequestContext, Supply, Plan, write, clone_for_revision, assert_mayday3_evidence_only,
  assert_expected_version, require_publication, validate_publication, assert_evidence_policy,
  to_evidence_reference, resolve_evidence, audit_event, perform,
}

-- `const [registered] = …`
unfoldable pub first_of_list : List RegisteredEvidence → Result RegisteredEvidence
first_of_list [] = err (gateway_error evidence_not_registered no_details)
first_of_list (e ∷ es) = ok e

unfoldable pub with_evidence :
    Publication → EvidenceReference → AttachRequest → Supply → Publication
unfolding clone_for_revision
with_evidence p e a s = record p {
  evidence = p.evidence ++ e ∷ [];
  revision = clone_for_revision p s.now a.revision_summary RevisionType.editorial;
}

module _ (g : Gateway) (actor : Option Actor) (context : RequestContext) (s : Supply)
    (r : Repository) where
  unfoldable pub prepare_attach : (id : String) → AttachRequest → Result Plan
  prepare_attach id input = do
    require (is_valid_attach g.formats input) validation_error
    let a = parsed_attach input
    assert_mayday3_evidence_only actor
    p ← require_publication id r
    assert_can attach_evidence actor (some p)
    assert_expected_version a.expected_version p
    forbid (is_public_state p.lifecycle_state) (gateway_error conflict no_details)
    resolved ← resolve_evidence g.registered (a.evidence_id ∷ []) actor
    registered ← first_of_list resolved
    let e = to_evidence_reference registered
    assert_evidence_policy (e ∷ []) actor p
    forbid (any (λ c. c.id == e.id) p.evidence) (gateway_error conflict no_details)
    after ← validate_publication g.formats (with_evidence p e a s)
    ok (
        write after (record {
          expected_version = a.expected_version;
          audit_event =
              audit_event s.audit_id "publication.evidence.attach" after actor context
                (some p.revision.version) after.revision.revision_type;
          release_manifest = none;
          registered_evidence = registered ∷ [];
          idempotency = none;
        }))

-- `attachEvidence`
unfoldable pub attach_evidence_to :
    Gateway → (id : String) → AttachRequest → Option Actor → RequestContext → Supply → Step Response
attach_evidence_to g id input actor context s r =
    perform g context (prepare_attach g actor context s r id input) r
