-- ===== src/Gateway/Service/Atomic.antt =====
-- An operation of src/application/publication-gateway/service.ts that throws has changed nothing.
use mayday_dispatch.Prelude.{String, ◌≡◌, refl, sym, ap, ◌∙◌, subst, Option}
use mayday_dispatch.Domain.Publication.{Publication}
use mayday_dispatch.Gateway.Errors.{Result, ok, err, Failure}
use mayday_dispatch.Gateway.Authorization.{Actor}
use mayday_dispatch.Gateway.Dto.{
  CreateDraftRequest, UpdateRequest, AttachRequest, TransitionRequest,
}
use mayday_dispatch.Repository.{Repository, SaveOptions}
use mayday_dispatch.Gateway.Service.{
  Gateway, RequestContext, Supply, Plan, replay, write, perform, audit_event,
}
use mayday_dispatch.Gateway.Service.Outcome.{
  Failed, unchanged, unanswered, perform-Failed, response-saved,
}
use mayday_dispatch.Gateway.Service.Draft.{prepare_draft, create_draft_publication}
use mayday_dispatch.Gateway.Service.Draft.Prepared.{Planned, prepare_draft-Planned}
use mayday_dispatch.Gateway.Service.Update.{prepare_update, update_publication}
use mayday_dispatch.Gateway.Service.Update.Prepared.{prepare_update-Prepared}
use mayday_dispatch.Gateway.Service.Attach.{prepare_attach, attach_evidence_to}
use mayday_dispatch.Gateway.Service.Attach.Attached.{prepare_attach-Prepared}
use mayday_dispatch.Gateway.Service.Transition.{prepare_transition, transition_publication}
use mayday_dispatch.Gateway.Service.Transition.Release.{prepare_transition-Prepared}
use mayday_dispatch.Audit.{AuditEvent}

-- The plan notes the correlation id of the request.
data Correlated (context : RequestContext) : Plan → Type 0 where
  replays : (p : Publication) → Correlated context (replay p)
  notes :
      (p : Publication) (o : SaveOptions)
      → o.audit_event.correlation_id ≡ context.correlation_id
      → Correlated context (write p o)

module _ (g : Gateway) (context : RequestContext) (r r' : Repository) where
  Failed-unchanged :
      (m : Result Plan)
      → ((plan : Plan) → m ≡ ok plan → Correlated context plan)
      → Failed g context r r' m
      → r' ≡ r
  Failed-unchanged m correlated (unchanged _ e) = e
  Failed-unchanged _ correlated (unanswered p o q saved refused) =
      elim (correlated (write p o) refl) [
        | notes _ _ e ↦ absurd (cc (sym (response-saved g context p o r r' q saved e) ∙ refused))
      ]

  -- A call whose plan notes the correlation id of the request, and which throws.
  thrown :
      (m : Result Plan) {e : Failure}
      → ((plan : Plan) → m ≡ ok plan → Correlated context plan)
      → perform g context m r ≡ (err e, r')
      → r' ≡ r
  thrown m correlated h = Failed-unchanged m correlated (perform-Failed g context r m r' h)

module _ (g : Gateway) (actor : Option Actor) (context : RequestContext) (s : Supply)
    (r r' : Repository) (e : Failure) where
  Planned-Correlated :
      {d : CreateDraftRequest} (plan : Plan)
      → Planned g actor context s r d plan
      → Correlated context plan
  Planned-Correlated _ (Planned.earlier k _ _) = replays k.response
  Planned-Correlated _ (Planned.fresh evidence p o _ _ _ _ _ same _ _) = notes p o same
  Planned-Correlated _ (Planned.upstream x evidence p o _ _ _ _ _ _ same _ _ _) = notes p o same

  -- A call of `createDraft` that throws leaves the repository as it was.
  pub create_draft_publication-unchanged :
      (input : CreateDraftRequest)
      → create_draft_publication g input actor context s r ≡ (err e, r')
      → r' ≡ r
  unfolding create_draft_publication
  create_draft_publication-unchanged input h =
      thrown g context r r' (prepare_draft g actor context s r input)
        (λ plan e.
          Planned-Correlated plan (prepare_draft-Planned g actor context s r input plan e).1)
        h

  -- A call of `update` that throws leaves the repository as it was.
  pub update_publication-unchanged :
      (id : String) (input : UpdateRequest)
      → update_publication g id input actor context s r ≡ (err e, r')
      → r' ≡ r
  unfolding update_publication
  update_publication-unchanged id input h =
      thrown g context r r' (prepare_update g actor context s r id input)
        (λ plan e.
          let (p, o, w, c) = prepare_update-Prepared g actor context s r id input plan e in
          subst (Correlated context) (sym w) (notes p o c.correlated))
        h

  -- A call of `attachEvidence` that throws leaves the repository as it was.
  pub attach_evidence_to-unchanged :
      (id : String) (input : AttachRequest)
      → attach_evidence_to g id input actor context s r ≡ (err e, r')
      → r' ≡ r
  unfolding attach_evidence_to
  attach_evidence_to-unchanged id input h =
      thrown g context r r' (prepare_attach g actor context s r id input)
        (λ plan e.
          let (p, o, w, c) = prepare_attach-Prepared g actor context s r id input plan e in
          subst (Correlated context) (sym w) (notes p o c.correlated))
        h

  -- A call of `transition` that throws leaves the repository as it was.
  pub transition_publication-unchanged :
      (id : String) (input : TransitionRequest)
      → transition_publication g id input actor context s r ≡ (err e, r')
      → r' ≡ r
  unfolding transition_publication audit_event
  transition_publication-unchanged id input h =
      thrown g context r r' (prepare_transition g actor context s r id input)
        (λ plan e.
          let (p, o, w, c) = prepare_transition-Prepared g actor context s r id input plan e in
          subst (Correlated context) (sym w) (
            notes p o (
              ap (λ (x : SaveOptions). x.audit_event.correlation_id) c.options
              ∙ ap (λ (x : AuditEvent). x.correlation_id) c.audited)))
        h
