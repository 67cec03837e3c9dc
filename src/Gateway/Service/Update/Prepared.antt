-- ===== src/Gateway/Service/Update/Prepared.antt =====
-- What an edit of src/application/publication-gateway/service.ts (`update`) has checked.
use mayday_dispatch.Prelude.{
  String, ◌≡◌, refl, sym, true, false, Bool, Option, some, arith, if◌then◌else◌, not, ◌&&◌, ◌||◌,
}
use mayday_dispatch.Domain.Lifecycle.{draft, same_state, review}
use mayday_dispatch.Domain.Publication.{Publication, RevisionType}
use mayday_dispatch.Gateway.Errors.{
  ok, >>=-eq-ok, >>-eq-ok, require-eq-ok, forbid-eq-ok, ok-injective, forbid, Failure,
}
use mayday_dispatch.Gateway.Authorization.{Actor, assert_can, update}
use mayday_dispatch.Gateway.Dto.{UpdateRequest, is_valid_update, parsed_update}
use mayday_dispatch.Repository.{Repository, SaveOptions, find_by_id}
use mayday_dispatch.Gateway.Service.{
  Gateway, RequestContext, Supply, Plan, write, is_external, is_application, require_publication,
  validate_publication, assert_mayday3_evidence_only, assert_expected_version,
  assert_unlocked_draft, audit_event, assert_public_release_unlocked,
}
use mayday_dispatch.Gateway.Service.Inversion.{
  require_publication-eq-ok, assert_expected_version-eq-ok,
}
use mayday_dispatch.Gateway.Service.Update.{
  check_edit, edited, revision_type_of, prepare_update, withdraws, enters_release, check_slug,
  replaces_assessment, is_public_edit,
}

pub forbid-false : (b : Bool) (e : Failure) → forbid b e ≡ ok tt → b ≡ false
forbid-false true e h = cc
forbid-false false e h = refl

mayday3_refused :
    (actor : Option Actor)
    → assert_mayday3_evidence_only actor ≡ ok tt
    → is_application actor "mayday3" ≡ false
unfolding assert_mayday3_evidence_only
mayday3_refused actor h = forbid-false (is_application actor "mayday3") _ h

-- The facts behind an edit that is prepared.
module _ (g : Gateway) (actor : Option Actor) (context : RequestContext) (s : Supply)
    (r : Repository) where
  pub record Prepared (id : String) (u : UpdateRequest) (after : Publication) (o : SaveOptions)
      : Type 0 where
    pub before : Publication
    pub stored : find_by_id id r ≡ some before
    pub evidence_only : is_application actor "mayday3" ≡ false
    pub checked :
        check_edit actor r before u (revision_type_of u.revision_type (is_external actor)) ≡ ok tt
    pub validated :
        validate_publication g.formats
          (edited before u (revision_type_of u.revision_type (is_external actor)) s)
        ≡ ok after
    pub released : enters_release before after ≡ true → assert_public_release_unlocked r ≡ ok tt
    pub correlated : o.audit_event.correlation_id ≡ context.correlation_id

  pub prepare_update-Prepared :
      (id : String) (input : UpdateRequest) (plan : Plan)
      → prepare_update g actor context s r id input ≡ ok plan
      → (after : Publication) × (o : SaveOptions) × (plan ≡ write after o)
        × Prepared id (parsed_update input) after o
  unfolding prepare_update audit_event
  prepare_update-Prepared id input plan h =
      let u = parsed_update input in
      let kind = revision_type_of u.revision_type (is_external actor) in
      let (valid, h1) = require-eq-ok (is_valid_update g.formats input) _ _ h in
      let (e2, h2) = >>-eq-ok (assert_mayday3_evidence_only actor) _ h1 in
      let (p, e3, h3) = >>=-eq-ok (require_publication id r) _ h2 in
      let (e4, h4) = >>-eq-ok (check_edit actor r p u kind) _ h3 in
      let (q, e5, h5) = >>=-eq-ok (validate_publication g.formats (edited p u kind s)) _ h4 in
      let (e6, h6) =
        >>-eq-ok (if enters_release p q then assert_public_release_unlocked r else ok tt) _ h5 in
      (
        _,
        _,
        ok-injective (sym h6),
        record {
          before = p;
          stored = require_publication-eq-ok id r e3;
          evidence_only = mayday3_refused actor e2;
          checked = e4;
          validated = e5;
          released = (λ e. rw e at e6);
          correlated = refl;
        },
      )

module _ (actor : Option Actor) (r : Repository) (p : Publication) where
  pub external_draft :
      assert_unlocked_draft p actor ≡ ok tt → is_external actor ≡ true → p.lifecycle_state ≡ draft
  unfolding assert_unlocked_draft
  external_draft h external = ground arith

  pub check_edit-eq-ok :
      (u : UpdateRequest) (kind : RevisionType)
      → check_edit actor r p u kind ≡ ok tt
      → (assert_can update actor (some p) ≡ ok tt)
        × (u.expected_version ≡ p.revision.version)
        × (is_external actor ≡ true → p.lifecycle_state ≡ draft)
        × (withdraws p u.visibility ≡ false)
        × (check_slug u.slug p r ≡ ok tt)
  unfolding check_edit
  check_edit-eq-ok u kind h =
      let (allowed, h1) = >>-eq-ok (assert_can update actor (some p)) _ h in
      let (version, h2) = >>-eq-ok (assert_expected_version u.expected_version p) _ h1 in
      let (unlocked, h3) = >>-eq-ok (assert_unlocked_draft p actor) _ h2 in
      let (kept, h4) = forbid-eq-ok (withdraws p u.visibility) _ _ h3 in
      let (assessed, h5) =
        forbid-eq-ok (not (is_external actor) && replaces_assessment u.extensions) _ _ h4 in
      let (editable, slug) =
        require-eq-ok
          (same_state p.lifecycle_state draft
            || same_state p.lifecycle_state review
            || is_public_edit kind)
          _ _ h5 in
      (
        allowed,
        assert_expected_version-eq-ok u.expected_version p version,
        external_draft unlocked,
        kept,
        slug,
      )
