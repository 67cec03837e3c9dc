-- ===== src/EvidenceGateway/Processed.antt =====
-- What `update` of src/application/evidence-gateway/service.ts may change.
use mayday_dispatch.Prelude.{
  ℕ, ◌+◌, String, false, not, ◌&&◌, ◌≡◌, refl, sym, ap, ◌∙◌, Option, none, some, List, [], ◌∷◌, eqb,
  eqb→eq, inl, inr, Bool-cases, arith, ◌==◌, eq_refl, eq_text,
}
use mayday_dispatch.Domain.Patterns.{Formats}
use mayday_dispatch.Domain.Citation.{Visibility, public, is_visibility_public}
use mayday_dispatch.Gateway.Errors.{
  Result, ok, err, >>=-eq-ok, >>-eq-ok, require-eq-ok, forbid-eq-ok, ok-injective, Failure,
}
use mayday_dispatch.Gateway.Authorization.{Actor}
use mayday_dispatch.Evidence.{RegisteredEvidence, parsed_evidence}
use mayday_dispatch.Evidence.Registry.{
  Registry, get_registered_evidence, get_evidence, update_evidence,
}
use mayday_dispatch.Evidence.Registry.Laws.{get-update_evidence, update_evidence-unchanged}
use mayday_dispatch.EvidenceGateway.{
  EvidenceAction, assert_can_evidence, UpdateEvidenceRequest, is_valid_evidence_update,
  parsed_evidence_update, patched, found_evidence, require_evidence, check_parent, rethrown,
  prepare_evidence_update, write_evidence, update_registered_evidence,
}

found_evidence-eq :
    (o : Option RegisteredEvidence) (id : String) {e : RegisteredEvidence}
    → found_evidence o id ≡ ok e
    → o ≡ some e
found_evidence-eq none id h = absurd (cc h)
found_evidence-eq (some x) id h = ap some (ok-injective h)

require_evidence-eq-ok :
    (s : Registry) (id : String) {e : RegisteredEvidence}
    → require_evidence s id ≡ ok e
    → get_registered_evidence s id ≡ some e
unfolding require_evidence
require_evidence-eq-ok s id h = found_evidence-eq (get_registered_evidence s id) id h

some_is : {a b : RegisteredEvidence} → some a ≡ some b → a ≡ b
some_is h = cc

get_evidence-id :
    (id : String) (es : List RegisteredEvidence) {e : RegisteredEvidence}
    → get_evidence id es ≡ some e
    → e.id ≡ id
unfolding get_evidence
get_evidence-id id [] h = absurd (cc h)
get_evidence-id id (x ∷ es) {e} h = elim (Bool-cases (x.id == id)) [
  | inl same ↦
      ap (λ (y : RegisteredEvidence). y.id) (sym (some_is (rw same at h))) ∙ eq_text x.id id same
  | inr other ↦ get_evidence-id id es (rw other at h)
]

stored-id :
    (s : Registry) (id : String) {e : RegisteredEvidence}
    → get_registered_evidence s id ≡ some e
    → e.id ≡ id
unfolding get_registered_evidence
stored-id s id h = get_evidence-id id s.evidence h

not_escalated :
    (old new : Visibility)
    → (not (is_visibility_public old) && is_visibility_public new) ≡ false
    → new ≡ public
    → old ≡ public
not_escalated old new h e = ground arith

-- What an update that succeeds has done.
pub record Processed (actor : Option Actor) (id : String) (u : UpdateEvidenceRequest)
    (s s' : Registry) : Type 0 where
  pub allowed : assert_can_evidence EvidenceAction.update actor ≡ ok tt
  pub before : RegisteredEvidence
  pub stored : get_registered_evidence s id ≡ some before
  pub version : before.version ≡ u.expected_version
  pub after : RegisteredEvidence
  pub found : get_registered_evidence s' id ≡ some after
  pub next_version : after.version ≡ before.version + 1
  pub same_registration : (after.id ≡ before.id) × (after.registered_at ≡ before.registered_at)
  pub not_escalated : after.visibility ≡ public → before.visibility ≡ public
  pub others :
      (other : String)
      → (id == other) ≡ false
      → get_registered_evidence s' other ≡ get_registered_evidence s other

rethrown-eq-ok :
    (m : Result RegisteredEvidence × Registry) {q : RegisteredEvidence} {s' : Registry}
    → rethrown m ≡ (ok q, s')
    → m ≡ (ok q, s')
rethrown-eq-ok (ok e, s) h = h
rethrown-eq-ok (err e, s) h = absurd (cc (ap (λ t. t.0) h))

module _ (f : Formats) (id : String) (actor : Option Actor) (input : UpdateEvidenceRequest)
    (now : String) (s s' : Registry) {q : RegisteredEvidence} where
  written-Processed :
      (m : Result (RegisteredEvidence × ℕ))
      → prepare_evidence_update f id actor input now s ≡ m
      → write_evidence f m s ≡ (ok q, s')
      → Processed actor id (parsed_evidence_update input) s s'
  unfolding write_evidence prepare_evidence_update patched parsed_evidence
  written-Processed (err e) p h = absurd (cc (ap (λ t. t.0) h))
  written-Processed (ok (updated, expected)) p h =
      let u = parsed_evidence_update input in
      let (allowed, h1) = >>-eq-ok (assert_can_evidence EvidenceAction.update actor) _ p in
      let (valid, h2) = require-eq-ok (is_valid_evidence_update f input) _ _ h1 in
      let (old, e3, h3) = >>=-eq-ok (require_evidence s id) _ h2 in
      let (current, h4) = require-eq-ok (eqb old.version u.expected_version) _ _ h3 in
      let new = patched old u now in
      let (parent, h5) = >>-eq-ok (check_parent new.parent_evidence_id s) _ h4 in
      let (kept, h6) =
        forbid-eq-ok
          (not (is_visibility_public old.visibility) && is_visibility_public new.visibility) _ _
          h5 in
      let same : new ≡ updated = ap (λ t. t.0) (ok-injective h6) in
      let (_, _, parsed, finds) =
        get-update_evidence f updated s s' expected
          (rethrown-eq-ok (update_evidence f updated expected s) h) in
      let stored = require_evidence-eq-ok s id e3 in
      let result : q ≡ parsed_evidence new = parsed ∙ ap parsed_evidence (sym same) in
      let here : updated.id ≡ id =
        ap (λ (x : RegisteredEvidence). x.id) (sym same) ∙ stored-id s id stored in
      record {
        allowed = allowed;
        before = old;
        stored = stored;
        version = eqb→eq old.version u.expected_version current;
        after = q;
        found = finds id ∙ rw (here, eq_refl) refl;
        next_version = ap (λ (x : RegisteredEvidence). x.version) result;
        same_registration = (
          ap (λ (x : RegisteredEvidence). x.id) result,
          ap (λ (x : RegisteredEvidence). x.registered_at) result,
        );
        not_escalated = (λ e.
            not_escalated old.visibility new.visibility kept
              (sym (ap (λ (x : RegisteredEvidence). x.visibility) result) ∙ e));
        others = (λ other ne. finds other ∙ rw (here, ne) refl);
      }

  -- An update of registered evidence that succeeds is by an actor that may update, of evidence that
  -- is registered, at the version that the request names. The evidence is found afterwards under
  -- the same id with the next version and the same time of registration; it is public only if it
  -- was public before; and other ids find what they found.
  pub update_registered_evidence-Processed :
      update_registered_evidence f id actor input now s ≡ (ok q, s')
      → Processed actor id (parsed_evidence_update input) s s'
  unfolding update_registered_evidence
  update_registered_evidence-Processed h =
      written-Processed (prepare_evidence_update f id actor input now s) refl h

rethrown-eq-err :
    (f : Formats) (e : RegisteredEvidence) (n : ℕ) (s s' : Registry)
    (m : Result RegisteredEvidence × Registry) {failure : Failure}
    → update_evidence f e n s ≡ m
    → rethrown m ≡ (err failure, s')
    → s' ≡ s
rethrown-eq-err f e n s s' (ok x, t) u h = absurd (cc (ap (λ t. t.0) h))
rethrown-eq-err f e n s s' (err x, t) u h =
    sym (ap (λ t. t.1) h) ∙ update_evidence-unchanged f e n s t u

write_evidence-unchanged :
    (f : Formats) (m : Result (RegisteredEvidence × ℕ)) (s s' : Registry) {failure : Failure}
    → write_evidence f m s ≡ (err failure, s')
    → s' ≡ s
unfolding write_evidence
write_evidence-unchanged f (err e) s s' h = sym (ap (λ t. t.1) h)
write_evidence-unchanged f (ok (e, n)) s s' h =
    rethrown-eq-err f e n s s' (update_evidence f e n s) refl h

-- An update of registered evidence that throws leaves the registry as it was.
update_registered_evidence-unchanged :
    (f : Formats) (id : String) (actor : Option Actor) (input : UpdateEvidenceRequest)
    (now : String) (s s' : Registry) (e : Failure)
    → update_registered_evidence f id actor input now s ≡ (err e, s')
    → s' ≡ s
unfolding update_registered_evidence
update_registered_evidence-unchanged f id actor input now s s' e h =
    write_evidence-unchanged f (prepare_evidence_update f id actor input now s) s s' h
