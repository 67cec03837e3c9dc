-- ===== src/Gateway/Service/Slugs/Kept.antt =====
-- Each operation of src/application/publication-gateway/service.ts keeps the slugs apart.
use mayday_dispatch.Prelude.{String, ◌≡◌, refl, sym, subst, Option, none}
use mayday_dispatch.Domain.Publication.{Publication}
use mayday_dispatch.Gateway.Errors.{Result}
use mayday_dispatch.Gateway.Authorization.{Actor}
use mayday_dispatch.Repository.{Repository, SaveOptions}
use mayday_dispatch.Gateway.Dto.{
  TransitionRequest, Response, parsed_transition, CreateDraftRequest, AttachRequest, UpdateRequest,
  parsed_draft, parsed_update, parsed_attach,
}
use mayday_dispatch.Gateway.Service.{
  Gateway, RequestContext, Supply, Plan, write, to_evidence_reference, is_external,
}
use mayday_dispatch.Gateway.Service.Inversion.{validate_publication-eq-ok}
use mayday_dispatch.Gateway.Service.Slugs.{OneSlug, SlugFree, available-SlugFree}
use mayday_dispatch.Gateway.Service.Transition.Release
use mayday_dispatch.Gateway.Service.Update.{
  update_publication, edited, prepare_update, revision_type_of,
}
use mayday_dispatch.Gateway.Service.Transition.{transition_publication, moved, prepare_transition}
use mayday_dispatch.Gateway.Service.Attach.{attach_evidence_to, with_evidence, prepare_attach}
use mayday_dispatch.Gateway.Service.Draft.{
  create_draft_publication, new_draft, synchronized, prepare_draft,
}
use mayday_dispatch.Gateway.Service.Slugs.Free.{
  perform-OneSlug, write_eq, parsed-SlugFree, own-SlugFree, synchronized-SlugFree, found_here,
  check_slug-SlugFree, valid_slug,
}
use mayday_dispatch.Gateway.Service.Draft.Prepared.{Planned, prepare_draft-Planned}
use mayday_dispatch.Gateway.Service.Attach.Attached.{prepare_attach-Prepared}
use mayday_dispatch.Gateway.Service.Update.Prepared.{prepare_update-Prepared, check_edit-eq-ok}

module _ (g : Gateway) (actor : Option Actor) (context : RequestContext) (s : Supply)
    (r r' : Repository) (x : Result Response) (one : OneSlug r) where
  -- `transition`, with whatever result, keeps the slugs apart.
  pub transition_publication-OneSlug :
      (id : String) (input : TransitionRequest)
      → transition_publication g id input actor context s r ≡ (x, r')
      → OneSlug r'
  unfolding transition_publication moved
  transition_publication-OneSlug id input h =
      perform-OneSlug g context r one (prepare_transition g actor context s r id input) x r'
        (λ p o e.
          let (after, o', w, c) =
            Release.prepare_transition-Prepared g actor context s r id input (write p o) e in
          subst (λ (q : Publication). SlugFree q.id q.slug r) (sym (write_eq w))
            (parsed-SlugFree g.formats (moved c.before (parsed_transition input) s) after id r
              c.validated (own-SlugFree r one c.before id c.stored)))
        h

  -- `attachEvidence`, with whatever result, keeps the slugs apart.
  pub attach_evidence_to-OneSlug :
      (id : String) (input : AttachRequest)
      → attach_evidence_to g id input actor context s r ≡ (x, r')
      → OneSlug r'
  unfolding attach_evidence_to with_evidence
  attach_evidence_to-OneSlug id input h =
      perform-OneSlug g context r one (prepare_attach g actor context s r id input) x r'
        (λ p o e.
          let (after, o', w, c) =
            prepare_attach-Prepared g actor context s r id input (write p o) e in
          subst (λ (q : Publication). SlugFree q.id q.slug r) (sym (write_eq w))
            (parsed-SlugFree g.formats
              (with_evidence c.before (to_evidence_reference c.evidence) (parsed_attach input) s)
              after id r c.validated (own-SlugFree r one c.before id c.stored)))
        h

  -- `update`, with whatever result, keeps the slugs apart.
  pub update_publication-OneSlug :
      (id : String) (input : UpdateRequest)
      → update_publication g id input actor context s r ≡ (x, r')
      → OneSlug r'
  unfolding update_publication edited
  update_publication-OneSlug id input h =
      perform-OneSlug g context r one (prepare_update g actor context s r id input) x r'
        (λ p o e.
          let u = parsed_update input in
          let (after, o', w, c) =
            prepare_update-Prepared g actor context s r id input (write p o) e in
          let kind = revision_type_of u.revision_type (is_external actor) in
          let draft = edited c.before u kind s in
          let (_, _, _, _, slug) = check_edit-eq-ok actor r c.before u kind c.checked in
          subst (λ (q : Publication). SlugFree q.id q.slug r) (sym (write_eq w))
            (parsed-SlugFree g.formats draft after id r c.validated (
              check_slug-SlugFree r one c.before u.slug id c.stored slug (
                valid_slug g.formats draft
                  (validate_publication-eq-ok g.formats draft c.validated).0))))
        h

  Planned-SlugFree :
      (d : CreateDraftRequest) (p : Publication) (o : SaveOptions) (plan : Plan)
      → plan ≡ write p o
      → Planned g actor context s r d plan
      → SlugFree p.id p.slug r
  unfolding new_draft synchronized SlugFree
  Planned-SlugFree d p o _ e (Planned.earlier k _ _) = absurd (cc e)
  Planned-SlugFree d p o _ e (Planned.fresh evidence after o' _ _ slug valid _ _ _ _) =
      subst (λ (q : Publication). SlugFree q.id q.slug r) (write_eq e)
        (parsed-SlugFree g.formats (new_draft d evidence s) after "" r valid
          (λ y m same. absurd (cc (available-SlugFree d.slug none r slug one y m same))))
  Planned-SlugFree d p o _ e
        (Planned.upstream existing evidence after o' _ known _ _ slug valid _ _ _ _) =
      subst (λ (q : Publication). SlugFree q.id q.slug r) (write_eq e)
        (parsed-SlugFree g.formats (synchronized existing d evidence s) after "" r valid
          (synchronized-SlugFree r one existing d.slug (found_here r d.origin known) slug))

  -- `createDraft`, with whatever result, keeps the slugs apart.
  pub create_draft_publication-OneSlug :
      (input : CreateDraftRequest)
      → create_draft_publication g input actor context s r ≡ (x, r')
      → OneSlug r'
  unfolding create_draft_publication
  create_draft_publication-OneSlug input h =
      perform-OneSlug g context r one (prepare_draft g actor context s r input) x r'
        (λ p o e.
          Planned-SlugFree (parsed_draft input) p o (write p o) refl
            (prepare_draft-Planned g actor context s r input (write p o) e).1)
        h
