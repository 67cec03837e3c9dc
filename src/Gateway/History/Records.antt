-- ===== src/Gateway/History/Records.antt =====
-- What a history leaves behind: publications that pass their schema, and an audit event for every
-- request that changes anything.
use mayday_dispatch.Prelude.{
  ◌≡◌, refl, sym, subst, ◌⊎◌, inl, inr, true, [], ◌∷◌, ◌++◌, Memᴰ, Option,
}
use mayday_dispatch.Domain.Patterns.{Formats}
use mayday_dispatch.Domain.Publication.{Publication, is_valid_publication}
use mayday_dispatch.Domain.Parsed.Publication.{is_valid_publication-parsed}
use mayday_dispatch.Gateway.Errors.{Result}
use mayday_dispatch.Gateway.Authorization.{Actor}
use mayday_dispatch.Audit.{AuditEvent, is_valid_audit_event}
use mayday_dispatch.Repository.{Repository}
use mayday_dispatch.Repository.Save.Laws.{save-Saved}
use mayday_dispatch.Repository.Save.Effect.{save-Effect}
use mayday_dispatch.Gateway.Service.{Gateway, RequestContext, Supply, Plan, perform}
use mayday_dispatch.Gateway.Service.Outcome.{Ended, kept, saved, perform-Ended}
use mayday_dispatch.Gateway.Service.Slugs.{set_publication-Memᴰ}
use mayday_dispatch.Gateway.Service.Draft.{prepare_draft, create_draft_publication}
use mayday_dispatch.Gateway.Service.Update.{prepare_update, update_publication}
use mayday_dispatch.Gateway.Service.Attach.{prepare_attach, attach_evidence_to}
use mayday_dispatch.Gateway.Service.Transition.{prepare_transition, transition_publication}
use mayday_dispatch.Gateway.History.{
  Request, draft_from, edit, attach, move, Call, serve, serve_request, Event, served, locked,
  History, start, next, lockdown-publications,
}

-- Every stored publication passes its schema.
unfoldable pub AllValid : Formats → Repository → Type 0
AllValid f r = (p : Publication) → Memᴰ p r.publications → is_valid_publication f p ≡ true

-- Nothing is changed, or one valid audit event is appended.
abbrev pub Audited : Formats → Repository → Repository → Type 0
Audited f r r' =
    (r' ≡ r)
    ⊎ ((e : AuditEvent) × (is_valid_audit_event f e ≡ true)
        × (r'.audit_events ≡ r.audit_events ++ e ∷ []))

module _ (g : Gateway) (r r' : Repository) where
  Ended-AllValid : (m : Result Plan) → Ended g r r' m → AllValid g.formats r → AllValid g.formats r'
  unfolding AllValid
  Ended-AllValid m (kept _ same) valid p t = valid p (subst (λ s. Memᴰ p s.publications) same t)
  Ended-AllValid _ (saved p o q done) valid x t =
      let s = save-Saved g.formats g.digest p o r r' done in
      let (_, effect) = save-Effect g.formats g.digest p o r r' done in
      elim (set_publication-Memᴰ q x r.publications (subst (Memᴰ x) effect.publications t)) [
        | inl e ↦ rw (e, s.stored, is_valid_publication-parsed g.formats p) s.valid
        | inr old ↦ valid x old
      ]

  Ended-Audited : (m : Result Plan) → Ended g r r' m → Audited g.formats r r'
  Ended-Audited m (kept _ same) = inl same
  Ended-Audited _ (saved p o q done) =
      let s = save-Saved g.formats g.digest p o r r' done in
      let (_, effect) = save-Effect g.formats g.digest p o r r' done in
      inr (o.audit_event, s.audited, effect.audit_events)

module _ (g : Gateway) (actor : Option Actor) (context : RequestContext) (s : Supply)
    (r : Repository) where
  prepare : Request → Result Plan
  prepare (draft_from d) = prepare_draft g actor context s r d
  prepare (edit id u) = prepare_update g actor context s r id u
  prepare (attach id a) = prepare_attach g actor context s r id a
  prepare (move id t) = prepare_transition g actor context s r id t

  serve-perform :
      (q : Request) → serve_request g q actor context s r ≡ perform g context (prepare q) r
  unfolding serve_request prepare create_draft_publication update_publication attach_evidence_to
      transition_publication
  serve-perform (draft_from d) = refl
  serve-perform (edit id u) = refl
  serve-perform (attach id a) = refl
  serve-perform (move id t) = refl

  serve-Ended : (q : Request) → Ended g r (serve_request g q actor context s r).1 (prepare q)
  serve-Ended q =
      perform-Ended g context r _ (prepare q) (serve_request g q actor context s r).0
        (sym (serve-perform q))

-- A request that changes anything appends exactly one audit event, which passes its schema.
pub serve-Audited : (g : Gateway) (c : Call) (r : Repository) → Audited g.formats r (serve g c r).1
serve-Audited g c r =
    Ended-Audited g r _ (prepare g c.actor c.context c.supply r c.request)
      (serve-Ended g c.actor c.context c.supply r c.request)

same-AllValid :
    (f : Formats) (r r' : Repository)
    → r'.publications ≡ r.publications
    → AllValid f r
    → AllValid f r'
unfolding AllValid
same-AllValid f r r' e valid p t = valid p (subst (Memᴰ p) e t)

Event-AllValid :
    (g : Gateway) {r r' : Repository} → Event g r r' → AllValid g.formats r → AllValid g.formats r'
Event-AllValid g (served c r) valid =
    Ended-AllValid g r _ (prepare g c.actor c.context c.supply r c.request)
      (serve-Ended g c.actor c.context c.supply r c.request) valid
Event-AllValid g (locked enabled a i c q t r) valid =
    same-AllValid g.formats r _ (lockdown-publications i enabled a c q t r) valid

-- Whatever requests and lockdowns follow, if every stored publication passes its schema at the
-- start, then every one does at the end.
pub History-AllValid :
    (g : Gateway) (r r' : Repository)
    → History g r r'
    → AllValid g.formats r
    → AllValid g.formats r'
History-AllValid g r r' (start _) valid = valid
History-AllValid g r r' (next {s} h e) valid = Event-AllValid g e (History-AllValid g r s h valid)
