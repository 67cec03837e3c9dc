-- ===== src/Gateway/History.antt =====
-- The repository under any sequence of requests to the service of
-- src/application/publication-gateway/service.ts and of lockdowns: each request is an atomic step.
pub mod Records
pub mod Failures
use mayday_dispatch.Prelude.{
  String, Bool, ◌≡◌, refl, Option, sym, subst, inl, inr, some, Memᴰ, arith, Bool-cases,
}
use mayday_dispatch.Gateway.Errors.{Result}
use mayday_dispatch.Gateway.Authorization.{Actor}
use mayday_dispatch.Gateway.Dto.{
  CreateDraftRequest, UpdateRequest, AttachRequest, TransitionRequest, Response,
}
use mayday_dispatch.Repository.{Repository, find_by_id, get_publication}
use mayday_dispatch.Repository.Control.{set_publication_lockdown, same_flag}
use mayday_dispatch.Gateway.Service.{Gateway, RequestContext, Supply}
use mayday_dispatch.Gateway.Service.Draft.{create_draft_publication}
use mayday_dispatch.Gateway.Service.Update.{update_publication}
use mayday_dispatch.Gateway.Service.Attach.{attach_evidence_to}
use mayday_dispatch.Gateway.Service.Transition.{transition_publication}
use mayday_dispatch.Gateway.Service.Slugs.{OneSlug}
use mayday_dispatch.Gateway.Service.Growth.{Grows, Grows-refl, Grows-trans}
use mayday_dispatch.Gateway.Service.Slugs.Kept.{
  create_draft_publication-OneSlug, update_publication-OneSlug, attach_evidence_to-OneSlug,
  transition_publication-OneSlug,
}
use mayday_dispatch.Gateway.Service.Growth.Operations.{
  create_draft_publication-Grows, update_publication-Grows, attach_evidence_to-Grows,
  transition_publication-Grows,
}

pub data Request : Type 0 where
  draft_from : CreateDraftRequest → Request
  edit : (id : String) → UpdateRequest → Request
  attach : (id : String) → AttachRequest → Request
  move : (id : String) → TransitionRequest → Request

-- A request of an actor, with its context, new ids and readings of the clock.
pub record Call : Type 0 where
  pub actor : Option Actor
  pub context : RequestContext
  pub supply : Supply
  pub request : Request

unfoldable pub serve_request :
    Gateway
    → Request
    → Option Actor
    → RequestContext
    → Supply
    → Repository
    → Result Response × Repository
serve_request g (draft_from d) = create_draft_publication g d
serve_request g (edit id u) = update_publication g id u
serve_request g (attach id a) = attach_evidence_to g id a
serve_request g (move id t) = transition_publication g id t

-- A request is handed to its operation.
abbrev pub serve : Gateway → Call → Repository → Result Response × Repository
serve g c r = serve_request g c.request c.actor c.context c.supply r

-- One request, whether it succeeds or throws, or one change of the lockdown.
pub data Event (g : Gateway) : Repository → Repository → Type 0 where
  served : (c : Call) (r : Repository) → Event g r (serve g c r).1
  locked :
      (enabled : Bool) (actor : Actor) (event_id correlation_id request_id timestamp : String)
      (r : Repository)
      → Event g r
          (set_publication_lockdown event_id enabled actor correlation_id request_id timestamp r).1

pub data History (g : Gateway) : Repository → Repository → Type 0 where
  start : (r : Repository) → History g r r
  next : {r s t : Repository} → History g r s → Event g s t → History g r t

serve-OneSlug :
    (g : Gateway) (q : Request) (actor : Option Actor) (context : RequestContext) (s : Supply)
    (r : Repository)
    → OneSlug r
    → OneSlug (serve_request g q actor context s r).1
unfolding serve_request
serve-OneSlug g (draft_from d) actor context s r one =
    create_draft_publication-OneSlug g actor context s r _ _ one d refl
serve-OneSlug g (edit id u) actor context s r one =
    update_publication-OneSlug g actor context s r _ _ one id u refl
serve-OneSlug g (attach id a) actor context s r one =
    attach_evidence_to-OneSlug g actor context s r _ _ one id a refl
serve-OneSlug g (move id t) actor context s r one =
    transition_publication-OneSlug g actor context s r _ _ one id t refl

serve-Grows :
    (g : Gateway) (q : Request) (actor : Option Actor) (context : RequestContext) (s : Supply)
    (r : Repository)
    → Grows r (serve_request g q actor context s r).1
unfolding serve_request
serve-Grows g (draft_from d) actor context s r =
    create_draft_publication-Grows g actor context s r _ _ d refl
serve-Grows g (edit id u) actor context s r =
    update_publication-Grows g actor context s r _ _ id u refl
serve-Grows g (attach id a) actor context s r =
    attach_evidence_to-Grows g actor context s r _ _ id a refl
serve-Grows g (move id t) actor context s r =
    transition_publication-Grows g actor context s r _ _ id t refl

-- A change of the lockdown leaves the publications.
pub lockdown-publications :
    (event_id : String) (enabled : Bool) (actor : Actor)
    (correlation_id request_id timestamp : String) (r : Repository)
    → (set_publication_lockdown event_id enabled actor correlation_id request_id timestamp
        r).1.publications
      ≡ r.publications
unfolding set_publication_lockdown
lockdown-publications event_id enabled actor correlation_id request_id timestamp r =
    elim (Bool-cases (same_flag r.lockdown.enabled enabled)) [
      | inl e ↦ rw e refl
      | inr e ↦ rw e refl
    ]

same-OneSlug : (r r' : Repository) → r'.publications ≡ r.publications → OneSlug r → OneSlug r'
unfolding OneSlug
same-OneSlug r r' e one p q mp mq = one p q (subst (Memᴰ p) e mp) (subst (Memᴰ q) e mq)

same-Grows : (r r' : Repository) → r'.publications ≡ r.publications → Grows r r'
unfolding Grows find_by_id
same-Grows r r' e id p h = (p, subst (λ ps. get_publication id ps ≡ some p) (sym e) h, omega arith)

Event-OneSlug : (g : Gateway) {r r' : Repository} → Event g r r' → OneSlug r → OneSlug r'
Event-OneSlug g (served c r) one = serve-OneSlug g c.request c.actor c.context c.supply r one
Event-OneSlug g (locked enabled a i c q t r) one =
    same-OneSlug r _ (lockdown-publications i enabled a c q t r) one

Event-Grows : (g : Gateway) {r r' : Repository} → Event g r r' → Grows r r'
Event-Grows g (served c r) = serve-Grows g c.request c.actor c.context c.supply r
Event-Grows g (locked enabled a i c q t r) =
    same-Grows r _ (lockdown-publications i enabled a c q t r)

-- Whatever requests and lockdowns follow, if no two stored publications of different ids share a
-- slug at the start, then no two do at the end.
pub History-OneSlug : (g : Gateway) (r r' : Repository) → History g r r' → OneSlug r → OneSlug r'
History-OneSlug g r r' (start _) one = one
History-OneSlug g r r' (next {s} h e) one = Event-OneSlug g e (History-OneSlug g r s h one)

-- Whatever requests and lockdowns follow, each publication that is stored at the start is stored
-- under its id at the end, in the same or a later version.
pub History-Grows : (g : Gateway) (r r' : Repository) → History g r r' → Grows r r'
History-Grows g r r' (start _) = Grows-refl r r' refl
History-Grows g r r' (next {s} h e) = Grows-trans r s r' (History-Grows g r s h) (Event-Grows g e)
