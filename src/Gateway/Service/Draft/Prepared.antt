-- ===== src/Gateway/Service/Draft/Prepared.antt =====
-- What `createDraft` of src/application/publication-gateway/service.ts has checked, on each of its
-- three ways to an answer.
use mayday_dispatch.Prelude.{
  ℕ, String, ◌≡◌, refl, true, Option, none, some, List, arith, eqb, or_else, ◌==◌, eq_text, ap, ◌∙◌,
  subst, if◌then◌else◌,
}
use mayday_dispatch.Domain.Publication.{Publication}
use mayday_dispatch.Gateway.Errors.{ok, >>=-eq-ok, >>-eq-ok, require-eq-ok, ok-injective}
use mayday_dispatch.Gateway.Authorization.{Actor, create_draft, assert_can}
use mayday_dispatch.Gateway.Dto.{CreateDraftRequest, is_valid_draft, parsed_draft}
use mayday_dispatch.Evidence.{RegisteredEvidence}
use mayday_dispatch.Repository.{Repository, SaveOptions, IdempotencyRecord, find_by_origin_identity}
use mayday_dispatch.Gateway.Service.{
  Gateway, RequestContext, Supply, Plan, replay, write, is_external, is_application,
  assert_mayday3_evidence_only, assert_expected_version, assert_unlocked_draft,
  validate_publication, assert_slug_available, assert_evidence_policy, resolve_evidence,
  audit_event, truthy,
}
use mayday_dispatch.Gateway.Service.Inversion.{assert_expected_version-eq-ok}
use mayday_dispatch.Gateway.Service.Draft.{
  assert_matches_origin, replayed, find_record, resolve_idempotency, new_draft, synchronized,
  prepare_synchronization, prepare_new_draft, prepare_for_origin, prepare_unless, prepare_draft,
  key_entry,
}

module _ (g : Gateway) (actor : Option Actor) (context : RequestContext) (s : Supply)
    (r : Repository) (d : CreateDraftRequest) where
  -- The facts behind a plan of `createDraft`, from the parsed request.
  pub data Planned : Plan → Type 0 where
    earlier :
        (k : IdempotencyRecord)
        → find_record (truthy context.idempotency_key) actor r ≡ some k
        → k.request_hash ≡ g.request_hash d
        → Planned (replay k.response)
    fresh :
        (evidence : List RegisteredEvidence) (after : Publication) (o : SaveOptions)
        → resolve_evidence g.registered d.evidence_ids actor ≡ ok evidence
        → find_by_origin_identity d.origin r ≡ none
        → assert_slug_available d.slug none r ≡ ok tt
        → validate_publication g.formats (new_draft d evidence s) ≡ ok after
        → o.expected_version ≡ 0
        → o.audit_event.correlation_id ≡ context.correlation_id
        → find_record (truthy context.idempotency_key) actor r ≡ none
        → ((created_at : String) × (o.idempotency
              ≡ key_entry g (truthy context.idempotency_key) d actor created_at))
        → Planned (write after o)
    upstream :
        (existing : Publication) (evidence : List RegisteredEvidence) (after : Publication)
        (o : SaveOptions)
        → resolve_evidence g.registered d.evidence_ids actor ≡ ok evidence
        → find_by_origin_identity d.origin r ≡ some existing
        → d.expected_version ≡ some existing.revision.version
        → assert_unlocked_draft existing actor ≡ ok tt
        → (if d.slug == existing.slug
            then ok tt
            else assert_slug_available d.slug (some existing.id) r)
          ≡ ok tt
        → validate_publication g.formats (synchronized existing d evidence s) ≡ ok after
        → o.audit_event.correlation_id ≡ context.correlation_id
        → o.expected_version ≡ existing.revision.version
        → find_record (truthy context.idempotency_key) actor r ≡ none
        → ((created_at : String) × (o.idempotency
              ≡ key_entry g (truthy context.idempotency_key) d actor created_at))
        → Planned (write after o)

  replayed-eq-ok :
      (k : Option IdempotencyRecord) (hash : String) (p : Publication)
      → replayed k hash ≡ ok (some p)
      → (e : IdempotencyRecord) × (k ≡ some e) × (e.request_hash ≡ hash) × (e.response ≡ p)
  unfolding replayed
  replayed-eq-ok none hash p h = absurd (cc (ok-injective h))
  replayed-eq-ok (some e) hash p h =
      let (same, h1) = require-eq-ok (e.request_hash == hash) _ _ h in
      (e, refl, eq_text e.request_hash hash same, cc (ok-injective h1))

  replayed-none :
      (k : Option IdempotencyRecord) (hash : String) → replayed k hash ≡ ok none → k ≡ none
  unfolding replayed
  replayed-none none hash h = refl
  replayed-none (some e) hash h =
      let (same, h1) = require-eq-ok (e.request_hash == hash) _ _ h in absurd (cc (ok-injective h1))

  new_draft-Planned :
      (evidence : List RegisteredEvidence) (plan : Plan)
      → find_record (truthy context.idempotency_key) actor r ≡ none
      → resolve_evidence g.registered d.evidence_ids actor ≡ ok evidence
      → find_by_origin_identity d.origin r ≡ none
      → prepare_new_draft g actor context s r d evidence ≡ ok plan
      → Planned plan
  unfolding prepare_new_draft audit_event
  new_draft-Planned evidence plan first resolved new h =
      let (unset, h1) = require-eq-ok (eqb (or_else d.expected_version 0) 0) _ _ h in
      let (slug, h2) = >>-eq-ok (assert_slug_available d.slug none r) _ h1 in
      let (q, valid, h3) =
        >>=-eq-ok (validate_publication g.formats (new_draft d evidence s)) _ h2 in
      let (policy, h4) = >>-eq-ok (assert_evidence_policy q.evidence actor q) _ h3 in
      subst Planned (ok-injective h4)
        (fresh evidence q _ resolved new slug valid refl refl first (_, refl))

  synchronization-Planned :
      (existing : Publication) (expected : ℕ) (evidence : List RegisteredEvidence) (plan : Plan)
      → find_record (truthy context.idempotency_key) actor r ≡ none
      → resolve_evidence g.registered d.evidence_ids actor ≡ ok evidence
      → find_by_origin_identity d.origin r ≡ some existing
      → d.expected_version ≡ some expected
      → prepare_synchronization g actor context s r existing d expected evidence ≡ ok plan
      → Planned plan
  unfolding prepare_synchronization audit_event
  synchronization-Planned existing expected evidence plan first resolved known version h =
      let (allowed, h1) = >>-eq-ok (assert_can create_draft actor (some existing)) _ h in
      let (current, h2) = >>-eq-ok (assert_expected_version expected existing) _ h1 in
      let (unlocked, h3) = >>-eq-ok (assert_unlocked_draft existing actor) _ h2 in
      let (slug, h4) =
        >>-eq-ok
          (if d.slug == existing.slug
            then ok tt
            else assert_slug_available d.slug (some existing.id) r)
          _ h3 in
      let (q, valid, h5) =
        >>=-eq-ok (validate_publication g.formats (synchronized existing d evidence s)) _ h4 in
      let (policy, h6) = >>-eq-ok (assert_evidence_policy q.evidence actor q) _ h5 in
      let same = assert_expected_version-eq-ok expected existing current in
      subst Planned (ok-injective h6) (
        upstream existing evidence q _ resolved known (version ∙ ap some same) unlocked slug valid
          refl same first (_, refl))

  for_origin-Planned :
      (existing : Option Publication) (expected : Option ℕ) (evidence : List RegisteredEvidence)
      (plan : Plan)
      → find_record (truthy context.idempotency_key) actor r ≡ none
      → resolve_evidence g.registered d.evidence_ids actor ≡ ok evidence
      → find_by_origin_identity d.origin r ≡ existing
      → d.expected_version ≡ expected
      → prepare_for_origin g actor context s r existing d expected evidence ≡ ok plan
      → Planned plan
  unfolding prepare_for_origin
  for_origin-Planned none expected evidence plan first resolved e v h =
      new_draft-Planned evidence plan first resolved e h
  for_origin-Planned (some p) none evidence plan first resolved e v h = cc
  for_origin-Planned (some p) (some n) evidence plan first resolved e v h =
      synchronization-Planned p n evidence plan first resolved e v h

  unless-Planned :
      (p : Option Publication) (plan : Plan)
      → resolve_idempotency g d actor context r ≡ ok p
      → prepare_unless g actor context s r p d ≡ ok plan
      → Planned plan
  unfolding prepare_unless resolve_idempotency
  unless-Planned (some p) plan e h =
      let (k, found, same, response) =
        replayed-eq-ok (find_record (truthy context.idempotency_key) actor r) (g.request_hash d) p
          e in
      subst Planned (ap replay response ∙ ok-injective h) (earlier k found same)
  unless-Planned none plan e h =
      let (evidence, resolved, h1) =
        >>=-eq-ok (resolve_evidence g.registered d.evidence_ids actor) _ h in
      for_origin-Planned (find_by_origin_identity d.origin r) d.expected_version evidence plan
        (replayed-none (find_record (truthy context.idempotency_key) actor r) (g.request_hash d) e)
        resolved refl refl h1

-- Who may call `createDraft` with a request.
pub record Drafter (actor : Option Actor) (d : CreateDraftRequest) : Type 0 where
  pub allowed : assert_can create_draft actor none ≡ ok tt
  pub evidence_only : assert_mayday3_evidence_only actor ≡ ok tt
  pub own_origin :
      is_external actor ≡ true → is_application actor d.origin.originating_application ≡ true

own_origin :
    (actor : Option Actor) (d : CreateDraftRequest)
    → assert_matches_origin actor d ≡ ok tt
    → is_external actor ≡ true
    → is_application actor d.origin.originating_application ≡ true
unfolding assert_matches_origin
own_origin actor d h external = ground arith

pub prepare_draft-Planned :
    (g : Gateway) (actor : Option Actor) (context : RequestContext) (s : Supply) (r : Repository)
    (input : CreateDraftRequest) (plan : Plan)
    → prepare_draft g actor context s r input ≡ ok plan
    → Drafter actor (parsed_draft input) × Planned g actor context s r (parsed_draft input) plan
unfolding prepare_draft
prepare_draft-Planned g actor context s r input plan h =
    let d = parsed_draft input in
    let (valid, h1) = require-eq-ok (is_valid_draft g.formats input) _ _ h in
    let (e2, h2) = >>-eq-ok (assert_mayday3_evidence_only actor) _ h1 in
    let (e3, h3) = >>-eq-ok (assert_can create_draft actor none) _ h2 in
    let (e4, h4) = >>-eq-ok (assert_matches_origin actor d) _ h3 in
    let (p, e5, h5) = >>=-eq-ok (resolve_idempotency g d actor context r) _ h4 in
    (
      record { allowed = e3; evidence_only = e2; own_origin = own_origin actor d e4 },
      unless-Planned g actor context s r d p plan e5 h5,
    )
