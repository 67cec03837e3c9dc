-- ===== src/Gateway/Service/Update.antt =====
-- src/application/publication-gateway/service.ts: `update`.
pub mod Prepared
pub mod Edited
use mayday_dispatch.Prelude.{
  ℕ, ◌+◌, String, Bool, true, false, ◌&&◌, ◌||◌, Option, none, some, [], ◌==◌, if◌then◌else◌,
  is_some, or_else, or_option, not,
}
use mayday_dispatch.Domain.Lifecycle.{
  LifecycleState, draft, review, published, updated, same_state, is_public_state,
}
use mayday_dispatch.Domain.Json.{
  Json, str, num, obj, Fields, end, field, Extensions, lookup, put, merge,
}
use mayday_dispatch.Domain.Citation.{Visibility, is_visibility_public}
use mayday_dispatch.Domain.Publication.{Publication, RevisionType}
use mayday_dispatch.Gateway.Errors.{
  Result, ok, gateway_error, conflict, no_details, validation_error, ◌>>=◌, ◌>>◌, require, forbid,
}
use mayday_dispatch.Gateway.Authorization.{Actor, update, assert_can, forbidden_error}
use mayday_dispatch.Gateway.Dto.{UpdateRequest, EditKind, Response, is_valid_update, parsed_update}
use mayday_dispatch.Repository.{Repository}
use mayday_dispatch.Repository.Save.{Step}
use mayday_dispatch.Gateway.Service.{
  Gateway, RequestContext, Supply, Plan, write, is_external, truthy, clone_for_revision,
  assert_mayday3_evidence_only, assert_expected_version, assert_unlocked_draft,
  assert_slug_available, require_publication, validate_publication, assert_public_release_unlocked,
  audit_event, perform,
}

abbrev pub to_revision_type : EditKind → RevisionType
to_revision_type EditKind.editorial = RevisionType.editorial
to_revision_type EditKind.correction = RevisionType.correction
to_revision_type EditKind.substantive_update = RevisionType.substantive_update

-- `request.revisionType ?? (external ? "upstream-synchronization" : "editorial")`
abbrev pub revision_type_of : Option EditKind → Bool → RevisionType
revision_type_of (some kind) external = to_revision_type kind
revision_type_of none true = RevisionType.upstream_synchronization
revision_type_of none false = RevisionType.editorial

abbrev pub is_public_edit : RevisionType → Bool
is_public_edit RevisionType.correction = true
is_public_edit RevisionType.substantive_update = true
is_public_edit _ = false

abbrev pub is_substantive : RevisionType → Bool
is_substantive RevisionType.substantive_update = true
is_substantive _ = false

-- The edit would withdraw a released publication.
unfoldable pub withdraws : Publication → Option Visibility → Bool
withdraws p none = false
withdraws p (some v) =
    is_public_state p.lifecycle_state
    && is_visibility_public p.visibility
    && not (is_visibility_public v)

-- `request.extensions?.overwatch !== undefined`
unfoldable pub replaces_assessment : Option Extensions → Bool
unfolding lookup
replaces_assessment none = false
replaces_assessment (some m) = is_some (lookup "overwatch" m)

-- The state after the edit.
abbrev pub edited_state : RevisionType → LifecycleState → LifecycleState
edited_state RevisionType.substantive_update published = updated
edited_state _ state = state

unfoldable pub with_explanation : Option String → Fields → Fields
with_explanation none fields = fields
with_explanation (some explanation) fields = field "explanation" (str explanation) fields

-- The value of `publicNotice`.
unfoldable pub notice : (kind note : String) → Option String → (timestamp : String) → ℕ → Json
unfolding with_explanation
notice kind note explanation timestamp version = obj (
    field "kind" (str kind) (
      field "note" (str note) (
        with_explanation explanation (
          field "timestamp" (str timestamp) (
            field "version" (num (record { negative = false; mantissa = version; scale = 0 }))
              end)))))

unfoldable pub put_text : String → Option String → Extensions → Extensions
unfolding put
put_text k none m = m
put_text k (some s) m = put k (str s) m

unfoldable pub put_notice :
    (kind : String) → Option String → Option String → String → ℕ → Extensions → Extensions
unfolding put notice
put_notice kind none explanation timestamp version m = m
put_notice kind (some note) explanation timestamp version m =
    put "publicNotice" (notice kind note explanation timestamp version) m

unfoldable pub edited_extensions : Publication → UpdateRequest → (timestamp : String) → Extensions
unfolding merge put_text put_notice
edited_extensions p u timestamp =
    put_notice "update" (truthy u.update_note) u.update_explanation timestamp
      (p.revision.version + 1)
      (put_notice "correction" (truthy u.correction_note) u.correction_explanation timestamp
        (p.revision.version + 1)
        (put_text "caveat" u.caveat
          (put_text "methodology" u.methodology (merge p.extensions (or_else u.extensions [])))))

-- The publication that an edit makes of the one that is stored.
unfoldable pub edited : Publication → UpdateRequest → RevisionType → Supply → Publication
unfolding clone_for_revision edited_extensions
edited p u revision_type s = record p {
  slug = or_else u.slug p.slug;
  kind = or_else u.kind p.kind;
  lifecycle_state = edited_state revision_type p.lifecycle_state;
  visibility = or_else u.visibility p.visibility;
  title = or_else u.title p.title;
  subtitle = or_option u.subtitle p.subtitle;
  excerpt = or_else u.excerpt p.excerpt;
  body = or_else u.body p.body;
  blocks = or_else u.blocks p.blocks;
  published_at = or_else u.published_at p.published_at;
  reading_time_minutes = or_else u.reading_time_minutes p.reading_time_minutes;
  tags = or_else u.tags p.tags;
  revision = clone_for_revision p s.now u.revision_summary revision_type;
  provenance = record (p.provenance) {
    verification_status = or_else u.verification_status p.provenance.verification_status;
    internal_notes = or_option u.internal_notes p.provenance.internal_notes;
  };
  extensions = edited_extensions p u s.then_now;
  sources = or_else u.sources p.sources;
}

-- `request.slug && request.slug !== publication.slug`
unfoldable pub check_slug : Option String → Publication → Repository → Result (Unit {0})
unfolding assert_slug_available
check_slug none p r = ok tt
check_slug (some slug) p r =
    if slug == "" || slug == p.slug then ok tt else assert_slug_available slug (some p.id) r

-- The edit makes the publication public, or moves it between two public states.
unfoldable pub enters_release : (before after : Publication) → Bool
enters_release before after =
    is_visibility_public after.visibility
    && is_public_state after.lifecycle_state
    && (not (is_visibility_public before.visibility)
        || not (same_state before.lifecycle_state after.lifecycle_state))

abbrev pub edit_action : RevisionType → Bool → String
edit_action RevisionType.correction external = "publication.correction"
edit_action RevisionType.substantive_update external = "publication.substantive-update"
edit_action _ true = "publication.origin.synchronize"
edit_action _ false = "publication.update"

module _ (actor : Option Actor) (r : Repository) where
  -- The conditions of `update` on the stored publication and the parsed request.
  unfoldable pub check_edit : Publication → UpdateRequest → RevisionType → Result (Unit {0})
  check_edit p u revision_type = do
    assert_can update actor (some p)
    assert_expected_version u.expected_version p
    assert_unlocked_draft p actor
    forbid (withdraws p u.visibility) (gateway_error conflict no_details)
    forbid (not (is_external actor) && replaces_assessment u.extensions) forbidden_error
    require
        (same_state p.lifecycle_state draft
          || same_state p.lifecycle_state review
          || is_public_edit revision_type)
        (gateway_error conflict no_details)
    check_slug u.slug p r

module _ (g : Gateway) (actor : Option Actor) (context : RequestContext) (s : Supply)
    (r : Repository) where
  unfoldable pub prepare_update : (id : String) → UpdateRequest → Result Plan
  prepare_update id input = do
    require (is_valid_update g.formats input) validation_error
    let u = parsed_update input
    assert_mayday3_evidence_only actor
    p ← require_publication id r
    let revision_type = revision_type_of u.revision_type (is_external actor)
    check_edit actor r p u revision_type
    after ← validate_publication g.formats (edited p u revision_type s)
    (if enters_release p after then assert_public_release_unlocked r else ok tt)
    ok (
        write after (record {
          expected_version = u.expected_version;
          audit_event =
              audit_event s.audit_id (edit_action revision_type (is_external actor)) after actor
                context (some p.revision.version) after.revision.revision_type;
          release_manifest = none;
          registered_evidence = [];
          idempotency = none;
        }))

-- `update`
unfoldable pub update_publication :
    Gateway → (id : String) → UpdateRequest → Option Actor → RequestContext → Supply → Step Response
update_publication g id input actor context s r =
    perform g context (prepare_update g actor context s r id input) r
