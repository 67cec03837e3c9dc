-- ===== src/Tests/Service.antt =====
-- The properties of the publication gateway at sample data.
use mayday_dispatch.Prelude.{refl, Option, none, some, ℕ, true, false, [], ◌∷◌}
use mayday_dispatch.Tests.{running, gateway, context, supply, actor, holding, publication, origin}
use mayday_dispatch.Gateway.Dto.{
  TransitionRequest, parsed_transition, AttachRequest, CreateDraftRequest, UpdateRequest, EditKind,
  parsed_attach, parsed_update,
}
use mayday_dispatch.Gateway.Authorization.{Actor, publisher, editor}
use mayday_dispatch.Gateway.Service.Transition.Release.{
  Transitioned, transition_publication-Transitioned,
}
use mayday_dispatch.Domain.Lifecycle.{published, ready, draft}
use mayday_dispatch.Gateway.Service.Transition.{transition_publication}
use mayday_dispatch.Gateway.Service.Attach.Attached.{Attached, attach_evidence_to-Attached}
use mayday_dispatch.Gateway.Service.Update.Edited.{Edited, update_publication-Edited}
use mayday_dispatch.Gateway.Service.Update.{update_publication}
use mayday_dispatch.Gateway.Service.Attach.{attach_evidence_to}
use mayday_dispatch.Domain.Citation.{public}
use mayday_dispatch.Gateway.Service.Draft.Created.{Created}
use mayday_dispatch.Domain.Publication.{unverified}

abbrev pub to_published : TransitionRequest
to_published = record {
  to = published;
  expected_version = 3;
  revision_summary = "Released";
  reason = none;
}

abbrev pub publisher_actor : Option Actor
publisher_actor = some (actor publisher)

transition_publication-Transitioned_example :
    Transitioned publisher_actor "pub-1"
      (parsed_transition to_published)
      (holding (publication ready 3))
      (transition_publication gateway "pub-1" to_published publisher_actor context supply
        (holding (publication ready 3))).1
unfolding running
transition_publication-Transitioned_example =
    transition_publication-Transitioned gateway publisher_actor context supply
      (holding (publication ready 3)) _ "pub-1" to_published _ refl

abbrev pub correction_request : UpdateRequest
correction_request = record {
  slug = none;
  kind = none;
  title = some "Harbour report, corrected";
  subtitle = none;
  excerpt = none;
  body = none;
  blocks = none;
  published_at = none;
  reading_time_minutes = none;
  tags = none;
  visibility = none;
  sources = none;
  verification_status = none;
  internal_notes = none;
  extensions = none;
  revision_summary = "Corrected the title";
  revision_type = some EditKind.correction;
  correction_note = some "The title was wrong.";
  correction_explanation = none;
  correction_public = true;
  update_note = none;
  update_explanation = none;
  update_public = false;
  methodology = none;
  caveat = none;
  expected_version = 4;
}

update_publication-Edited_example :
    Edited
      (some (actor editor))
      "pub-1"
      (parsed_update correction_request)
      (holding (publication published 4))
      (update_publication gateway "pub-1" correction_request
        (some (actor editor))
        context
        supply
        (holding (publication published 4))).1
unfolding running
update_publication-Edited_example =
    update_publication-Edited gateway (some (actor editor)) context supply
      (holding (publication published 4)) _ "pub-1" correction_request _ refl

abbrev pub draft_request : Option ℕ → CreateDraftRequest
draft_request expected = record {
  slug = "harbour-report";
  kind = "report";
  title = "Harbour report";
  subtitle = none;
  excerpt = "What the logs show.";
  body = "The logs show two ships." ∷ [];
  blocks = none;
  published_at = none;
  reading_time_minutes = 1;
  tags = [];
  visibility = public;
  sources = [];
  lifecycle_state = none;
  origin = origin;
  created_by = "editor-1";
  verification_status = unverified;
  internal_notes = none;
  extensions = none;
  evidence_ids = [];
  expected_version = expected;
}

abbrev attach_request : AttachRequest
attach_request = record {
  evidence_id = "ev-1";
  expected_version = 2;
  revision_summary = "Attached the log";
}

attach_evidence_to-Attached_example :
    Attached gateway
      (some (actor editor))
      "pub-1"
      (parsed_attach attach_request)
      (holding (publication draft 2))
      (attach_evidence_to gateway "pub-1" attach_request
        (some (actor editor))
        context
        supply
        (holding (publication draft 2))).1
unfolding running
attach_evidence_to-Attached_example =
    attach_evidence_to-Attached gateway (some (actor editor)) context supply
      (holding (publication draft 2)) _ "pub-1" attach_request _ refl
