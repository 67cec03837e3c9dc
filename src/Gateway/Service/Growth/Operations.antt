-- ===== src/Gateway/Service/Growth/Operations.antt =====
-- The growth of the repository under each operation of
-- src/application/publication-gateway/service.ts.
use mayday_dispatch.Prelude.{String, ◌≡◌, refl, sym, subst, Option, ◌+◌, ◌∙◌, arith, ap}
use mayday_dispatch.Domain.Publication.{Publication, parsed_publication, parsed_revision}
use mayday_dispatch.Gateway.Errors.{Result}
use mayday_dispatch.Gateway.Authorization.{Actor}
use mayday_dispatch.Gateway.Service.Slugs.Free.{write_eq}
use mayday_dispatch.Gateway.Service.Transition.Release
use mayday_dispatch.Gateway.Service.Growth.{
  Grows, Advances, perform-Grows, parsed-Advances, starts, renews,
}
use mayday_dispatch.Gateway.Service.{
  Gateway, RequestContext, Supply, clone_for_revision, write, to_evidence_reference, is_external,
  Plan,
}
use mayday_dispatch.Repository.{Repository, SaveOptions}
use mayday_dispatch.Gateway.Dto.{
  Response, TransitionRequest, UpdateRequest, AttachRequest, parsed_transition, parsed_attach,
  parsed_update, CreateDraftRequest, parsed_draft,
}
use mayday_dispatch.Gateway.Service.Attach.{attach_evidence_to, with_evidence, prepare_attach}
use mayday_dispatch.Gateway.Service.Update.{
  update_publication, edited, prepare_update, revision_type_of,
}
use mayday_dispatch.Gateway.Service.Transition.{transition_publication, moved, prepare_transition}
use mayday_dispatch.Gateway.Service.Update.Prepared.{prepare_update-Prepared}
use mayday_dispatch.Gateway.Service.Attach.Attached.{prepare_attach-Prepared}
use mayday_dispatch.Gateway.Service.Draft.{create_draft_publication, synchronized, prepare_draft}
use mayday_dispatch.Gateway.Service.Draft.Prepared.{Planned, prepare_draft-Planned}
use mayday_dispatch.Gateway.Service.Inversion.{validate_publication-eq-ok}

options_eq :
    {p q : Publication} {o o' : SaveOptions} → ◌≡◌ {A = Plan} (write p o) (write q o') → o ≡ o'
options_eq h = cc

module _ (g : Gateway) (actor : Option Actor) (context : RequestContext) (s : Supply)
    (r r' : Repository) (x : Result Response) where
  pub transition_publication-Grows :
      (id : String) (input : TransitionRequest)
      → transition_publication g id input actor context s r ≡ (x, r')
      → Grows r r'
  unfolding transition_publication moved clone_for_revision
  transition_publication-Grows id input h =
      perform-Grows g context r r' x (prepare_transition g actor context s r id input)
        (λ p o e.
          let (after, o', w, c) =
            Release.prepare_transition-Prepared g actor context s r id input (write p o) e in
          subst (λ (q : Publication). Advances r q o) (sym (write_eq w))
            (parsed-Advances g.formats (moved c.before (parsed_transition input) s) after o r
              c.before id c.validated c.stored refl refl))
        h

  pub attach_evidence_to-Grows :
      (id : String) (input : AttachRequest)
      → attach_evidence_to g id input actor context s r ≡ (x, r')
      → Grows r r'
  unfolding attach_evidence_to with_evidence clone_for_revision
  attach_evidence_to-Grows id input h =
      perform-Grows g context r r' x (prepare_attach g actor context s r id input)
        (λ p o e.
          let (after, o', w, c) =
            prepare_attach-Prepared g actor context s r id input (write p o) e in
          subst (λ (q : Publication). Advances r q o) (sym (write_eq w))
            (parsed-Advances g.formats
              (with_evidence c.before (to_evidence_reference c.evidence) (parsed_attach input) s)
              after o r c.before id c.validated c.stored refl refl))
        h

  pub update_publication-Grows :
      (id : String) (input : UpdateRequest)
      → update_publication g id input actor context s r ≡ (x, r')
      → Grows r r'
  unfolding update_publication edited clone_for_revision
  update_publication-Grows id input h =
      perform-Grows g context r r' x (prepare_update g actor context s r id input)
        (λ p o e.
          let (after, o', w, c) =
            prepare_update-Prepared g actor context s r id input (write p o) e in
          let kind = revision_type_of (parsed_update input).revision_type (is_external actor) in
          subst (λ (q : Publication). Advances r q o) (sym (write_eq w))
            (parsed-Advances g.formats (edited c.before (parsed_update input) kind s) after o r
              c.before id c.validated c.stored refl refl))
        h

  Planned-Advances :
      (d : CreateDraftRequest) (p : Publication) (o : SaveOptions) (plan : Plan)
      → plan ≡ write p o
      → Planned g actor context s r d plan
      → Advances r p o
  unfolding synchronized clone_for_revision parsed_publication parsed_revision
  Planned-Advances d p o _ e (Planned.earlier k _ _) = absurd (cc e)
  Planned-Advances d p o _ e (Planned.fresh evidence after o' _ _ _ _ zero_expected _ _ _) =
      starts (ap (λ (x : SaveOptions). x.expected_version) (sym (options_eq e)) ∙ zero_expected)
  Planned-Advances d p o _ e (Planned.upstream x evidence after o' _ _ _ _ _ valid _ expected _ _) =
      let (_, same) = validate_publication-eq-ok g.formats (synchronized x d evidence s) valid in
      let version : after.revision.version ≡ x.revision.version + 1 =
        ap (λ (y : Publication). y.revision.version) same in
      let written : after.revision.version ≡ p.revision.version =
        ap (λ (y : Publication). y.revision.version) (write_eq e) in
      let options : o'.expected_version ≡ o.expected_version =
        ap (λ (y : SaveOptions). y.expected_version) (options_eq e) in
      renews (omega arith)

  pub create_draft_publication-Grows :
      (input : CreateDraftRequest)
      → create_draft_publication g input actor context s r ≡ (x, r')
      → Grows r r'
  unfolding create_draft_publication
  create_draft_publication-Grows input h =
      perform-Grows g context r r' x (prepare_draft g actor context s r input)
        (λ p o e.
          Planned-Advances (parsed_draft input) p o (write p o) refl
            (prepare_draft-Planned g actor context s r input (write p o) e).1)
        h
