-- ===== src/Gateway/Service/Transition/Recorded.antt =====
-- What a release by `transition` of src/application/publication-gateway/service.ts records.
use mayday_dispatch.Prelude.{
  String, ◌≡◌, refl, sym, subst, true, Option, some, [], ◌∷◌, ◌++◌, ◌∙◌, ap,
}
use mayday_dispatch.Domain.Lifecycle.{LifecycleState, is_public_state}
use mayday_dispatch.Domain.Publication.{Publication, parsed_publication}
use mayday_dispatch.Domain.Public.{
  PublicPublication, to_public_publication, is_valid_public, parsed_public,
}
use mayday_dispatch.Gateway.Errors.{ok, >>=-eq-ok, require-eq-ok, ok-injective}
use mayday_dispatch.Gateway.Authorization.{Actor}
use mayday_dispatch.Gateway.Readiness.{validate_publication_readiness}
use mayday_dispatch.Audit.{AuditEvent}
use mayday_dispatch.Repository.{Repository, ReleaseManifest, find_by_id, SaveOptions}
use mayday_dispatch.Gateway.Service.{Gateway, RequestContext, Supply, write}
use mayday_dispatch.Gateway.Service.Transition.{
  create_release_manifest, manifest_for, moved, transition_publication, prepare_transition,
}
use mayday_dispatch.Repository.Save.{save}
use mayday_dispatch.Gateway.Service.Transition.Release.{Prepared, prepare_transition-Prepared}
use mayday_dispatch.Gateway.Service.Inversion.{save-Stored, find_by_id-id}
use mayday_dispatch.Gateway.Service.Outcome.{performed-write, perform-Performed, replan}
use mayday_dispatch.Gateway.Dto.{TransitionRequest, Response, parsed_transition}
use mayday_dispatch.Repository.Save.Effect.{save-Effect, listed}

-- A manifest that was made of a publication.
pub record Manifested (g : Gateway) (p : Publication) (m : ReleaseManifest) : Type 0 where
  pub projection : PublicPublication
  pub projected : to_public_publication g.formats p ≡ ok projection
  pub accepted : is_valid_public g.formats projection ≡ true
  pub snapshot : m.public_snapshot ≡ parsed_public projection
  pub digested : m.public_content_digest ≡ g.digest m.public_snapshot
  pub about : (m.publication_id ≡ p.id) × (m.publication_version ≡ p.revision.version)

module _ (g : Gateway) (actor : Option Actor) (context : RequestContext) where
  create_release_manifest-Manifested :
      (p : Publication) (e : AuditEvent) (m : ReleaseManifest)
      → create_release_manifest g actor context p e ≡ ok m
      → Manifested g p m
  unfolding create_release_manifest
  create_release_manifest-Manifested p e m h =
      let (is_ready, h1) = require-eq-ok (validate_publication_readiness p).ready _ _ h in
      let (projection, projected, h2) = >>=-eq-ok (to_public_publication g.formats p) _ h1 in
      let (accepted, h3) = require-eq-ok (is_valid_public g.formats projection) _ _ h2 in
      subst (Manifested g p) (ok-injective h3) (record {
        projection = projection;
        projected = projected;
        accepted = accepted;
        snapshot = refl;
        digested = refl;
        about = (refl, refl);
      })

  manifest_for-Manifested :
      (to : LifecycleState) (p : Publication) (e : AuditEvent) (o : Option ReleaseManifest)
      → is_public_state to ≡ true
      → manifest_for g actor context to p e ≡ ok o
      → (m : ReleaseManifest) × (o ≡ some m) × Manifested g p m
  unfolding manifest_for
  manifest_for-Manifested to p e o released h =
      let (m, made, h1) =
        >>=-eq-ok (create_release_manifest g actor context p e) _ (rw released at h) in
      (m, sym (ok-injective h1), create_release_manifest-Manifested p e m made)

-- A release that is on record: one manifest more, made of the publication that is stored.
pub record Recorded (g : Gateway) (id : String) (r r' : Repository) : Type 0 where
  pub manifest : ReleaseManifest
  pub appended : r'.release_manifests ≡ r.release_manifests ++ manifest ∷ []
  pub publication : Publication
  pub made : Manifested g publication manifest
  pub stored : find_by_id id r' ≡ some (parsed_publication publication)

module _ (g : Gateway) (actor : Option Actor) (context : RequestContext) (s : Supply)
    (r r' : Repository) where
  saved-Recorded :
      (id : String) (t : TransitionRequest) (after : Publication) (o : SaveOptions)
      {q : Publication}
      → is_public_state t.to ≡ true
      → Prepared g actor context s r id t after o
      → save g.formats g.digest after o r ≡ (ok q, r')
      → Recorded g id r r'
  unfolding parsed_publication moved
  saved-Recorded id t after o {q} released c h =
      let (m, given, made) =
        manifest_for-Manifested g actor context t.to after c.event c.manifest released c.released in
      let (same, effect) = save-Effect g.formats g.digest after o r r' h in
      let option : o.release_manifest ≡ some m =
        ap (λ (x : SaveOptions). x.release_manifest) c.options ∙ given in
      let (found, _) = save-Stored g (moved c.before t s) after o r r' c.validated h in
      record {
        manifest = m;
        appended = effect.release_manifests ∙ ap (λ x. r.release_manifests ++ listed x) option;
        publication = after;
        made = made;
        stored =
            subst (λ i. find_by_id i r' ≡ some (parsed_publication after))
              (find_by_id-id id r c.stored) (found ∙ ap some same);
      }

  -- A transition to a public state that succeeds appends one release manifest. It was made of the
  -- publication that is stored afterwards: it carries its id and version, and its snapshot is the
  -- parsed public projection, which the response schema accepts, with its digest.
  pub transition_publication-Recorded :
      (id : String) (input : TransitionRequest) (resp : Response)
      → is_public_state (parsed_transition input).to ≡ true
      → transition_publication g id input actor context s r ≡ (ok resp, r')
      → Recorded g id r r'
  unfolding transition_publication
  transition_publication-Recorded id input resp released h =
      let t = parsed_transition input in
      let (after, o, q, e, saved) =
        performed-write g context r r' resp (prepare_transition g actor context s r id input)
          (λ plan e.
            let (a, o, w, _) = prepare_transition-Prepared g actor context s r id input plan e in
            (a, o, w))
          (perform-Performed g context r _ resp r' h) in
      let (a, o', w, c) =
        prepare_transition-Prepared g actor context s r id input (write after o) e in
      saved-Recorded id t after o released
        (replan (Prepared g actor context s r id t) (ap ok (sym w)) c) saved
