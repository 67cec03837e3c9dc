-- ===== src/Gateway/Service/Attach/Attached.antt =====
-- What `attachEvidence` of src/application/publication-gateway/service.ts does to a publication.
use mayday_dispatch.Prelude.{
  String, ◌≡◌, refl, sym, ap, subst, false, Option, some, [], ◌∷◌, ◌++◌, map, any, ◌+◌, ◌==◌,
}
use mayday_dispatch.Domain.Lifecycle.{is_public_state}
use mayday_dispatch.Domain.Citation.{parsed_reference}
use mayday_dispatch.Domain.Publication.{Publication, parsed_publication, parsed_revision}
use mayday_dispatch.Gateway.Errors.{
  ok, >>=-eq-ok, >>-eq-ok, require-eq-ok, forbid-eq-ok, ok-injective,
}
use mayday_dispatch.Gateway.Authorization.{Actor, assert_can, attach_evidence}
use mayday_dispatch.Gateway.Dto.{AttachRequest, is_valid_attach, parsed_attach, Response}
use mayday_dispatch.Evidence.{RegisteredEvidence}
use mayday_dispatch.Repository.{Repository, SaveOptions, find_by_id}
use mayday_dispatch.Repository.Save.{save}
use mayday_dispatch.Gateway.Service.{
  Gateway, RequestContext, Supply, Plan, write, require_publication, validate_publication,
  assert_mayday3_evidence_only, assert_expected_version, assert_evidence_policy, resolve_evidence,
  to_evidence_reference, audit_event, clone_for_revision,
}
use mayday_dispatch.Gateway.Service.Outcome.{replan, perform-Performed, performed-write}
use mayday_dispatch.Gateway.Service.Inversion.{
  require_publication-eq-ok, save-Stored, find_by_id-id, assert_expected_version-eq-ok,
}
use mayday_dispatch.Gateway.Service.Attach.{
  first_of_list, with_evidence, prepare_attach, attach_evidence_to,
}
use mayday_dispatch.Gateway.Service.Attach.Usable.{Usable, resolve_first-Usable}

-- What an attachment that succeeds has done.
pub record Attached (g : Gateway) (actor : Option Actor) (id : String) (a : AttachRequest)
    (r r' : Repository) : Type 0 where
  pub before : Publication
  pub stored : find_by_id id r ≡ some before
  pub allowed : assert_can attach_evidence actor (some before) ≡ ok tt
  pub version : a.expected_version ≡ before.revision.version
  pub unreleased : is_public_state before.lifecycle_state ≡ false
  pub evidence : RegisteredEvidence
  pub usable : Usable g actor a.evidence_id evidence
  pub not_attached : any (λ c. c.id == evidence.id) before.evidence ≡ false
  pub after : Publication
  pub found : find_by_id id r' ≡ some after
  pub next_version : after.revision.version ≡ before.revision.version + 1
  pub same_state : after.lifecycle_state ≡ before.lifecycle_state
  pub attached :
      after.evidence
      ≡ map parsed_reference
          (map parsed_reference (before.evidence ++ to_evidence_reference evidence ∷ []))

module _ (g : Gateway) (actor : Option Actor) (context : RequestContext) (s : Supply)
    (r : Repository) where
  -- The facts behind an attachment that is prepared.
  pub record Prepared (id : String) (a : AttachRequest) (after : Publication) (o : SaveOptions)
      : Type 0 where
    pub before : Publication
    pub stored : find_by_id id r ≡ some before
    pub allowed : assert_can attach_evidence actor (some before) ≡ ok tt
    pub version : a.expected_version ≡ before.revision.version
    pub unreleased : is_public_state before.lifecycle_state ≡ false
    pub evidence : RegisteredEvidence
    pub usable : Usable g actor a.evidence_id evidence
    pub not_attached : any (λ c. c.id == evidence.id) before.evidence ≡ false
    pub validated :
        validate_publication g.formats (with_evidence before (to_evidence_reference evidence) a s)
        ≡ ok after
    pub correlated : o.audit_event.correlation_id ≡ context.correlation_id

  pub prepare_attach-Prepared :
      (id : String) (input : AttachRequest) (plan : Plan)
      → prepare_attach g actor context s r id input ≡ ok plan
      → (after : Publication) × (o : SaveOptions) × (plan ≡ write after o)
        × Prepared id (parsed_attach input) after o
  unfolding prepare_attach audit_event to_evidence_reference
  prepare_attach-Prepared id input plan h =
      let a = parsed_attach input in
      let (valid, h1) = require-eq-ok (is_valid_attach g.formats input) _ _ h in
      let (e2, h2) = >>-eq-ok (assert_mayday3_evidence_only actor) _ h1 in
      let (p, e3, h3) = >>=-eq-ok (require_publication id r) _ h2 in
      let (e4, h4) = >>-eq-ok (assert_can attach_evidence actor (some p)) _ h3 in
      let (e5, h5) = >>-eq-ok (assert_expected_version a.expected_version p) _ h4 in
      let (e6, h6) = forbid-eq-ok (is_public_state p.lifecycle_state) _ _ h5 in
      let (es, e7, h7) =
        >>=-eq-ok (resolve_evidence g.registered (a.evidence_id ∷ []) actor) _ h6 in
      let (e, e8, h8) = >>=-eq-ok (first_of_list es) _ h7 in
      let (e9, h9) =
        >>-eq-ok (assert_evidence_policy (to_evidence_reference e ∷ []) actor p) _ h8 in
      let (e10, h10) = forbid-eq-ok (any (λ c. c.id == e.id) p.evidence) _ _ h9 in
      let (q, e11, h11) =
        >>=-eq-ok (validate_publication g.formats (with_evidence p (to_evidence_reference e) a s)) _
          h10 in
      (
        _,
        _,
        ok-injective (sym h11),
        record {
          before = p;
          stored = require_publication-eq-ok id r e3;
          allowed = e4;
          version = assert_expected_version-eq-ok a.expected_version p e5;
          unreleased = e6;
          evidence = e;
          usable = resolve_first-Usable g actor a.evidence_id es e e7 e8;
          not_attached = e10;
          validated = e11;
          correlated = refl;
        },
      )

module _ (g : Gateway) (actor : Option Actor) (context : RequestContext) (s : Supply)
    (r r' : Repository) where
  saved-Attached :
      (id : String) (a : AttachRequest) (after : Publication) (o : SaveOptions) {q : Publication}
      → Prepared g actor context s r id a after o
      → save g.formats g.digest after o r ≡ (ok q, r')
      → Attached g actor id a r r'
  unfolding parsed_publication parsed_revision with_evidence clone_for_revision
  saved-Attached id a after o {q} c h =
      let (found, twice) =
        save-Stored g (with_evidence c.before (to_evidence_reference c.evidence) a s) after o r r'
          c.validated h in
      let same_id : c.before.id ≡ id = find_by_id-id id r c.stored in
      record {
        before = c.before;
        stored = c.stored;
        allowed = c.allowed;
        version = c.version;
        unreleased = c.unreleased;
        evidence = c.evidence;
        usable = c.usable;
        not_attached = c.not_attached;
        after = q;
        found = subst (λ i. find_by_id i r' ≡ some q) same_id found;
        next_version = ap (λ (x : Publication). x.revision.version) twice;
        same_state = ap (λ (x : Publication). x.lifecycle_state) twice;
        attached = ap (λ (x : Publication). x.evidence) twice;
      }

  -- An attachment that succeeds is to a stored publication that is not released, at the version
  -- that the request names, by an actor that may attach evidence to it. The evidence is registered
  -- and ready, disclosed if the actor is an external application, and was not attached before. It
  -- is added as the last of the publication's references, in the same state and with the next
  -- version.
  pub attach_evidence_to-Attached :
      (id : String) (input : AttachRequest) (resp : Response)
      → attach_evidence_to g id input actor context s r ≡ (ok resp, r')
      → Attached g actor id (parsed_attach input) r r'
  unfolding attach_evidence_to
  attach_evidence_to-Attached id input resp h =
      let a = parsed_attach input in
      let (after, o, q, e, saved) =
        performed-write g context r r' resp (prepare_attach g actor context s r id input)
          (λ plan e.
            let (p, o, w, _) = prepare_attach-Prepared g actor context s r id input plan e in
            (p, o, w))
          (perform-Performed g context r _ resp r' h) in
      let (p, o', w, c) = prepare_attach-Prepared g actor context s r id input (write after o) e in
      saved-Attached id a after o (replan (Prepared g actor context s r id a) (ap ok (sym w)) c)
        saved
