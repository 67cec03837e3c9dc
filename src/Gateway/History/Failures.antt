-- ===== src/Gateway/History/Failures.antt =====
-- The requests to src/application/publication-gateway/service.ts that throw.
use mayday_dispatch.Prelude.{Option, ◌≡◌}
use mayday_dispatch.Gateway.Errors.{Failure, err}
use mayday_dispatch.Gateway.Authorization.{Actor}
use mayday_dispatch.Gateway.Service.{Gateway, RequestContext, Supply}
use mayday_dispatch.Gateway.Service.Atomic.{
  create_draft_publication-unchanged, update_publication-unchanged, attach_evidence_to-unchanged,
  transition_publication-unchanged,
}
use mayday_dispatch.Gateway.History.{
  Call, Request, serve, serve_request, draft_from, edit, attach, move,
}
use mayday_dispatch.Repository.{Repository}

request-unchanged :
    (g : Gateway) (q : Request) (actor : Option Actor) (context : RequestContext) (s : Supply)
    (r r' : Repository) (e : Failure)
    → serve_request g q actor context s r ≡ (err e, r')
    → r' ≡ r
unfolding serve_request
request-unchanged g (draft_from d) actor context s r r' e h =
    create_draft_publication-unchanged g actor context s r r' e d h
request-unchanged g (edit id u) actor context s r r' e h =
    update_publication-unchanged g actor context s r r' e id u h
request-unchanged g (attach id a) actor context s r r' e h =
    attach_evidence_to-unchanged g actor context s r r' e id a h
request-unchanged g (move id t) actor context s r r' e h =
    transition_publication-unchanged g actor context s r r' e id t h

-- A request that throws has changed nothing: not the publications, nor an audit event, a manifest or
-- the record of a key.
pub serve-unchanged :
    (g : Gateway) (c : Call) (r r' : Repository) (e : Failure) → serve g c r ≡ (err e, r') → r' ≡ r
serve-unchanged g c r r' e h = request-unchanged g c.request c.actor c.context c.supply r r' e h
