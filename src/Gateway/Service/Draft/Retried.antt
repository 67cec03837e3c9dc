-- ===== src/Gateway/Service/Draft/Retried.antt =====
-- A request to `createDraft` of src/application/publication-gateway/service.ts that is sent again
-- with its idempotency key.
use mayday_dispatch.Prelude.{
  String, ◌≡◌, refl, sym, ap, ◌∙◌, subst, Option, none, some, eq_refl, List,
}
use mayday_dispatch.Domain.Publication.{Publication}
use mayday_dispatch.Gateway.Errors.{Result, ok, err}
use mayday_dispatch.Gateway.Authorization.{Actor}
use mayday_dispatch.Gateway.Dto.{CreateDraftRequest, parsed_draft, Response}
use mayday_dispatch.Audit.{AuditEvent}
use mayday_dispatch.Repository.{
  Repository, SaveOptions, IdempotencyRecord, ReleaseManifest, get_record, find_idempotency,
  storage_key, set_record,
}
use mayday_dispatch.Repository.Save.{
  save, push_manifest, push_audit, write_publication, write_record,
}
use mayday_dispatch.Repository.Save.Laws.{save-Saved, noted, get_record-set}
use mayday_dispatch.Gateway.Service.{Gateway, RequestContext, Supply, Plan, truthy, actor_scope}
use mayday_dispatch.Gateway.Service.Atomic.{create_draft_publication-unchanged}
use mayday_dispatch.Gateway.Service.Outcome.{Performed, perform-Performed}
use mayday_dispatch.Gateway.Service.Draft.{
  find_record, key_entry, prepare_draft, create_draft_publication,
}
use mayday_dispatch.Gateway.Service.Draft.Prepared.{Planned, prepare_draft-Planned}
use mayday_dispatch.Gateway.Service.Draft.Created.{
  Created, create_draft_publication-Created, performed-plan, no_some,
}

kept_records :
    (q : Publication) (e : AuditEvent) (m : Option ReleaseManifest) (r : Repository)
    → (push_manifest m (push_audit e (write_publication q r))).idempotency ≡ r.idempotency
unfolding push_manifest push_audit write_publication
kept_records q e none r = refl
kept_records q e (some m) r = refl

own_record :
    (k : String) (v : IdempotencyRecord) (m : List (String × IdempotencyRecord))
    → get_record k (set_record k v m) ≡ some v
own_record k v m = get_record-set k k v m ∙ rw eq_refl refl

noted_record :
    (g : Gateway) (d : CreateDraftRequest) (actor : Option Actor) (key created_at : String)
    (q : Publication) (r : Repository)
    → (k : IdempotencyRecord) × (find_record
          (some key)
          actor
          (noted q (key_entry g (some key) d actor created_at) r)
        ≡ some k)
unfolding find_record find_idempotency key_entry write_record
noted_record g d actor key created_at q r =
    (_, own_record (storage_key (actor_scope actor) key) _ r.idempotency)

find_record-same :
    (key : Option String) (actor : Option Actor) (r r' : Repository)
    → r'.idempotency ≡ r.idempotency
    → find_record key actor r' ≡ find_record key actor r
unfolding find_record find_idempotency
find_record-same none actor r r' e = refl
find_record-same (some key) actor r r' e = ap (get_record (storage_key (actor_scope actor) key)) e

module _ (g : Gateway) (d : CreateDraftRequest) (actor : Option Actor) (keys : Option String)
    (key : String) (given : keys ≡ some key) (r r' : Repository) where
  -- After a save that notes the key, its record is found.
  saved_record :
      (p : Publication) (o : SaveOptions) {q : Publication}
      → ((created_at : String) × (o.idempotency ≡ key_entry g keys d actor created_at))
      → save g.formats g.digest p o r ≡ (ok q, r')
      → (k : IdempotencyRecord) × (find_record keys actor r' ≡ some k)
  saved_record p o {q} (created_at, entry) h =
      let s = save-Saved g.formats g.digest p o r r' h in
      let (k, found) = noted_record g d actor key created_at q r in
      let noted_here : o.idempotency ≡ key_entry g (some key) d actor created_at =
        entry ∙ ap (λ x. key_entry g x d actor created_at) given in
      let records : r'.idempotency
          ≡ (noted q (key_entry g (some key) d actor created_at) r).idempotency =
        ap (λ (x : Repository). x.idempotency) s.after
        ∙ (kept_records q o.audit_event o.release_manifest (noted q o.idempotency r)
            ∙ ap (λ e. (noted q e r).idempotency) noted_here) in
      (
        k,
        ap (λ x. find_record x actor r') given
            ∙ (find_record-same (some key) actor _ r' records ∙ found),
      )

module _ (g : Gateway) (actor : Option Actor) (context : RequestContext) (s : Supply)
    (r r' : Repository) (d : CreateDraftRequest) (key : String)
    (given : truthy context.idempotency_key ≡ some key) where
  Planned-record :
      (plan : Plan) (resp : Response)
      → Planned g actor context s r d plan
      → Performed g context r resp r' (ok plan)
      → (k : IdempotencyRecord) × (find_record (truthy context.idempotency_key) actor r' ≡ some k)
  Planned-record _ resp (Planned.earlier k found _) (Performed.replayed p same _) =
      (k, ap (find_record (truthy context.idempotency_key) actor) same ∙ found)
  Planned-record _ resp (Planned.fresh _ p o _ _ _ _ _ _ _ entry) (Performed.written _ _ q h _) =
      saved_record g d actor (truthy context.idempotency_key) key given r r' p o entry h
  Planned-record _ resp (Planned.upstream _ _ p o _ _ _ _ _ _ _ _ _ entry)
        (Performed.written _ _ q h _) =
      saved_record g d actor (truthy context.idempotency_key) key given r r' p o entry h

Created-once :
    (g : Gateway) (actor : Option Actor) (context : RequestContext) (s : Supply)
    (d : CreateDraftRequest) (r r' : Repository) (k : IdempotencyRecord)
    → find_record (truthy context.idempotency_key) actor r ≡ some k
    → Created g actor context s d r r'
    → r' ≡ r
Created-once g actor context s d r r' k found (Created.repeated _ _ _ same) = same
Created-once g actor context s d r r' k found (Created.created _ _ _ _ _ _ _ first) =
    absurd (no_some (sym first ∙ found))
Created-once g actor context s d r r' k found
      (Created.synchronized_from_origin _ _ _ _ _ _ _ _ first) =
    absurd (no_some (sym first ∙ found))

created_performed :
    (g : Gateway) (actor : Option Actor) (context : RequestContext) (s : Supply) (r r' : Repository)
    (input : CreateDraftRequest) (resp : Response)
    → create_draft_publication g input actor context s r ≡ (ok resp, r')
    → Performed g context r resp r' (prepare_draft g actor context s r input)
unfolding create_draft_publication
created_performed g actor context s r r' input resp h =
    perform-Performed g context r (prepare_draft g actor context s r input) resp r' h

-- A call of `createDraft` that succeeded with an idempotency key, and that the actor sends again
-- with the same key at once, changes nothing, whatever the clock and the new ids are by then.
pub create_draft_publication-retried :
    (g : Gateway) (actor : Option Actor) (context : RequestContext) (s s' : Supply)
    (r r' r'' : Repository) (input : CreateDraftRequest) (key : String) (resp : Response)
    (x : Result Response)
    → truthy context.idempotency_key ≡ some key
    → create_draft_publication g input actor context s r ≡ (ok resp, r')
    → create_draft_publication g input actor context s' r' ≡ (x, r'')
    → r'' ≡ r'
create_draft_publication-retried g actor context s s' r r' r'' input key resp (err e) given first
      again =
    create_draft_publication-unchanged g actor context s' r' r'' e input again
create_draft_publication-retried g actor context s s' r r' r'' input key resp (ok y) given first
      again =
    let done = created_performed g actor context s r r' input resp first in
    let (plan, e) = performed-plan g context r r' resp _ done in
    let (drafter, planned) = prepare_draft-Planned g actor context s r input plan e in
    let (k, found) =
      Planned-record g actor context s r r' (parsed_draft input) key given plan resp planned
        (subst (Performed g context r resp r') e done) in
    Created-once g actor context s' (parsed_draft input) r' r'' k found
      (create_draft_publication-Created g actor context s' r' r'' input y again).1
