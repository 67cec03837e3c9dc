-- ===== src/Gateway/Service/Outcome.antt =====
-- What `persist` and `response` of src/application/publication-gateway/service.ts make of a plan.
use mayday_dispatch.Prelude.{◌≡◌, refl, sym, ap, ◌∙◌, subst, Bool, true, false, arith, leb}
use mathlib.Core.Path.{subst₂}
use mayday_dispatch.Domain.Patterns.{Formats}
use mayday_dispatch.Domain.Publication.{
  Publication, is_valid_publication, is_valid_content, is_valid_revision, is_valid_provenance,
  is_valid_origin,
}
use mayday_dispatch.Domain.Parsed.Publication.{is_valid_publication-parsed}
use mayday_dispatch.Gateway.Errors.{Result, ok, err, Failure}
use mayday_dispatch.Gateway.Dto.{Response, is_valid_response}
use mayday_dispatch.Audit.{AuditEvent, is_valid_audit_event, is_filled}
use mayday_dispatch.Repository.{Repository, SaveOptions}
use mayday_dispatch.Repository.Save.{save}
use mayday_dispatch.Repository.Save.Laws.{save-Saved, save_error_unchanged}
use mayday_dispatch.Gateway.Service.{
  Gateway, RequestContext, Plan, replay, write, persist, perform, response, translate,
}

abbrev pub is_ok : {A : Type 0} → Result A → Bool
is_ok (ok a) = true
is_ok (err e) = false

-- A plan that was carried out: nothing is written for a replay, and one save is made for a write.
pub data Performed (g : Gateway) (context : RequestContext) (r : Repository) (resp : Response)
    (r' : Repository) : Result Plan → Type 0 where
  replayed :
      (p : Publication)
      → r' ≡ r
      → response g p context ≡ ok resp
      → Performed g context r resp r' (ok (replay p))
  written :
      (p : Publication) (o : SaveOptions) (q : Publication)
      → save g.formats g.digest p o r ≡ (ok q, r')
      → response g q context ≡ ok resp
      → Performed g context r resp r' (ok (write p o))

-- A plan that failed: nothing is changed, or else the save of a plan was done and only the
-- response was refused.
pub data Failed (g : Gateway) (context : RequestContext) (r r' : Repository)
    : Result Plan → Type 0 where
  unchanged : (plan : Result Plan) → r' ≡ r → Failed g context r r' plan
  unanswered :
      (p : Publication) (o : SaveOptions) (q : Publication)
      → save g.formats g.digest p o r ≡ (ok q, r')
      → is_ok (response g q context) ≡ false
      → Failed g context r r' (ok (write p o))

module _ (g : Gateway) (context : RequestContext) (r : Repository) where
  finish : Result Publication × Repository → Result Response × Repository
  finish (ok q, s) = (response g q context, s)
  finish (err e, s) = (err (translate e), s)

  perform-write :
      (p : Publication) (o : SaveOptions) (m : Result Publication × Repository)
      → save g.formats g.digest p o r ≡ m
      → perform g context (ok (write p o)) r ≡ finish m
  unfolding perform persist finish
  perform-write p o (ok q, s) e = rw e refl
  perform-write p o (err f, s) e = rw e refl

  write-Performed :
      (p : Publication) (o : SaveOptions) (resp : Response) (r' : Repository)
      (m : Result Publication × Repository)
      → save g.formats g.digest p o r ≡ m
      → finish m ≡ (ok resp, r')
      → Performed g context r resp r' (ok (write p o))
  unfolding finish
  write-Performed p o resp r' (ok q, s) e h =
      written p o q (subst (λ t. save g.formats g.digest p o r ≡ (ok q, t)) (ap (λ t. t.1) h) e)
        (ap (λ t. t.0) h)
  write-Performed p o resp r' (err f, s) e h = absurd (cc (ap (λ t. t.0) h))

  pub perform-Performed :
      (plan : Result Plan) (resp : Response) (r' : Repository)
      → perform g context plan r ≡ (ok resp, r')
      → Performed g context r resp r' plan
  unfolding perform
  perform-Performed (err e) resp r' h = absurd (cc (ap (λ t. t.0) h))
  perform-Performed (ok (replay p)) resp r' h = replayed p (sym (ap (λ t. t.1) h)) (ap (λ t. t.0) h)
  perform-Performed (ok (write p o)) resp r' h =
      write-Performed p o resp r' (save g.formats g.digest p o r) refl
        (sym (perform-write p o (save g.formats g.digest p o r) refl) ∙ h)

  is_ok-err : (m : Result Response) {e : Failure} → m ≡ err e → is_ok m ≡ false
  is_ok-err m h = rw h refl

  write-Failed :
      (p : Publication) (o : SaveOptions) (r' : Repository) (m : Result Publication × Repository)
      {e : Failure}
      → save g.formats g.digest p o r ≡ m
      → finish m ≡ (err e, r')
      → Failed g context r r' (ok (write p o))
  unfolding finish
  write-Failed p o r' (ok q, s) e h =
      unanswered p o q (subst (λ t. save g.formats g.digest p o r ≡ (ok q, t)) (ap (λ t. t.1) h) e)
        (is_ok-err (response g q context) (ap (λ t. t.0) h))
  write-Failed p o r' (err f, s) e h =
      unchanged _ (sym (ap (λ t. t.1) h) ∙ save_error_unchanged g.formats g.digest p o r s e)

  pub perform-Failed :
      (plan : Result Plan) (r' : Repository) {e : Failure}
      → perform g context plan r ≡ (err e, r')
      → Failed g context r r' plan
  unfolding perform
  perform-Failed (err f) r' h = unchanged _ (sym (ap (λ t. t.1) h))
  perform-Failed (ok (replay p)) r' h = unchanged _ (sym (ap (λ t. t.1) h))
  perform-Failed (ok (write p o)) r' h =
      write-Failed p o r' (save g.formats g.digest p o r) refl
        (sym (perform-write p o (save g.formats g.digest p o r) refl) ∙ h)

-- What an operation did to the repository, whether it answered or threw.
pub data Ended (g : Gateway) (r r' : Repository) : Result Plan → Type 0 where
  kept : (plan : Result Plan) → r' ≡ r → Ended g r r' plan
  saved :
      (p : Publication) (o : SaveOptions) (q : Publication)
      → save g.formats g.digest p o r ≡ (ok q, r')
      → Ended g r r' (ok (write p o))

Performed-Ended :
    (g : Gateway) (context : RequestContext) (r r' : Repository) (resp : Response)
    (plan : Result Plan)
    → Performed g context r resp r' plan
    → Ended g r r' plan
Performed-Ended g context r r' resp _ (replayed p same _) = kept _ same
Performed-Ended g context r r' resp _ (written p o q h _) = saved p o q h

Failed-Ended :
    (g : Gateway) (context : RequestContext) (r r' : Repository) (plan : Result Plan)
    → Failed g context r r' plan
    → Ended g r r' plan
Failed-Ended g context r r' _ (unchanged plan same) = kept plan same
Failed-Ended g context r r' _ (unanswered p o q h _) = saved p o q h

pub perform-Ended :
    (g : Gateway) (context : RequestContext) (r r' : Repository) (plan : Result Plan)
    (x : Result Response)
    → perform g context plan r ≡ (x, r')
    → Ended g r r' plan
perform-Ended g context r r' plan (ok resp) h =
    Performed-Ended g context r r' resp plan (perform-Performed g context r plan resp r' h)
perform-Ended g context r r' plan (err e) h =
    Failed-Ended g context r r' plan (perform-Failed g context r plan r' h)

valid_parts :
    (f : Formats) (p : Publication)
    → is_valid_publication f p ≡ true
    → (is_valid_content f p ≡ true)
      × (is_valid_revision f p.revision ≡ true)
      × (is_valid_provenance f p.provenance ≡ true)
unfolding is_valid_publication
valid_parts f p h = (ground arith, ground arith, ground arith)

valid_id : (f : Formats) (p : Publication) → is_valid_content f p ≡ true → f.is_uuid p.id ≡ true
unfolding is_valid_content
valid_id f p h = ground arith

valid_revision :
    (f : Formats) (p : Publication)
    → is_valid_revision f p.revision ≡ true
    → (leb 1 p.revision.version ≡ true) × (f.is_datetime p.revision.updated_at ≡ true)
unfolding is_valid_revision
valid_revision f p h = (ground arith, ground arith)

valid_origin :
    (f : Formats) (p : Publication)
    → is_valid_provenance f p.provenance ≡ true
    → is_valid_origin f p.provenance.origin ≡ true
unfolding is_valid_provenance
valid_origin f p h = ground arith

filled_correlation :
    (f : Formats) (e : AuditEvent)
    → is_valid_audit_event f e ≡ true
    → is_filled e.correlation_id ≡ true
unfolding is_valid_audit_event
filled_correlation f e h = ground arith

-- After a save the response is never refused: what was stored passes the schema of the response.
pub response-saved :
    (g : Gateway) (context : RequestContext) (p : Publication) (o : SaveOptions) (r r' : Repository)
    (q : Publication)
    → save g.formats g.digest p o r ≡ (ok q, r')
    → o.audit_event.correlation_id ≡ context.correlation_id
    → is_ok (response g q context) ≡ true
unfolding response is_valid_response
response-saved g context p o r r' q h same =
    let f = g.formats in
    let s = save-Saved f g.digest p o r r' h in
    let valid : is_valid_publication f q ≡ true =
      rw (s.stored, is_valid_publication-parsed f p) s.valid in
    let (content, revision, provenance) = valid_parts f q valid in
    let (version, updated) = valid_revision f q revision in
    let correlated : is_filled context.correlation_id ≡ true =
      subst (λ c. is_filled c ≡ true) same (filled_correlation f o.audit_event s.audited) in
    rw (valid, valid_id f q content, version, valid_origin f q provenance, updated, correlated) refl

pub write-injective :
    {p q : Publication} {o o' : SaveOptions}
    → ◌≡◌ {A = Result Plan} (ok (write p o)) (ok (write q o'))
    → (p ≡ q) × (o ≡ o')
write-injective h = (cc, cc)

-- Two values that a plan determines are replaced in what was proved of them.
pub replan :
    (P : Publication → SaveOptions → Type 0) {p q : Publication} {o o' : SaveOptions}
    → ◌≡◌ {A = Result Plan} (ok (write p o)) (ok (write q o'))
    → P p o
    → P q o'
replan P h x = subst₂ P (write-injective h).0 (write-injective h).1 x

-- A plan that is never a replay was carried out by one save.
pub performed-write :
    (g : Gateway) (context : RequestContext) (r r' : Repository) (resp : Response) (m : Result Plan)
    → ((plan : Plan) → m ≡ ok plan → (p : Publication) × (o : SaveOptions) × (plan ≡ write p o))
    → Performed g context r resp r' m
    → (p : Publication) × (o : SaveOptions) × (q : Publication) × (m ≡ ok (write p o))
      × (save g.formats g.digest p o r ≡ (ok q, r'))
performed-write g context r r' resp _ writes (replayed p _ _) =
    let (a, o, e) = writes (replay p) refl in absurd (cc e)
performed-write g context r r' resp _ writes (written p o q h _) = (p, o, q, refl, h)
