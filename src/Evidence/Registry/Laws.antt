-- ===== src/Evidence/Registry/Laws.antt =====
-- What the evidence registry in memory stores, and which update it refuses.
use mayday_dispatch.Prelude.{
  ℕ, String, ◌≡◌, refl, sym, ap, ◌∙◌, subst, ◌≢◌, Bool, true, false, Option, none, some, List, [],
  ◌∷◌, ◌==◌, eq_iff, if◌then◌else◌, arith, is_some, eqb, eq_refl,
}
use mayday_dispatch.Domain.Patterns.{Formats}
use mayday_dispatch.Gateway.Errors.{
  Result, ok, err, Failure, plain_error, zod_error, require, forbid, require-eq-ok, ok-injective,
}
use mayday_dispatch.Evidence.{RegisteredEvidence, is_valid_evidence, parsed_evidence}
use mayday_dispatch.Evidence.Registry.{
  Registry, EvidenceKey, get_evidence, set_evidence, get_registered_evidence, note_answer,
  store_evidence, checked, has_version, register, update_evidence,
}

get_evidence-set :
    (e : RegisteredEvidence) (id : String) (es : List RegisteredEvidence)
    → get_evidence id (set_evidence e es) ≡ (if e.id == id then some e else get_evidence id es)
unfolding get_evidence set_evidence
get_evidence-set e id [] = refl
get_evidence-set e id (old ∷ es) =
    ground (arith, get_evidence-set e id es, eq_iff e.id id, eq_iff old.id id, eq_iff old.id e.id)

stored_under :
    (e : RegisteredEvidence) (key : Option EvidenceKey) (s : Registry) (id : String)
    → get_registered_evidence (note_answer key e (store_evidence e s)) id
      ≡ (if e.id == id then some e else get_registered_evidence s id)
unfolding get_registered_evidence note_answer store_evidence
stored_under e none s id = get_evidence-set e id s.evidence
stored_under e (some k) s id = get_evidence-set e id s.evidence

checked-eq-ok :
    (m : Result (Unit {0})) (e : RegisteredEvidence) (changed s s' : Registry)
    {q : RegisteredEvidence}
    → checked m e changed s ≡ (ok q, s')
    → (m ≡ ok tt) × (q ≡ e) × (s' ≡ changed)
checked-eq-ok (ok tt) e changed s s' h =
    (refl, sym (ok-injective (ap (λ t. t.0) h)), sym (ap (λ t. t.1) h))
checked-eq-ok (err failure) e changed s s' h = absurd (cc (ap (λ t. t.0) h))

checked-err :
    (m : Result (Unit {0})) (e : RegisteredEvidence) (changed s s' : Registry) {failure : Failure}
    → checked m e changed s ≡ (err failure, s')
    → s' ≡ s
checked-err (ok tt) e changed s s' h = absurd (cc (ap (λ t. t.0) h))
checked-err (err failure) e changed s s' h = sym (ap (λ t. t.1) h)

other_version : (v n : ℕ) → v ≢ n → eqb v n ≡ false
other_version v n h = ground arith

passes : (b : Bool) (e : Failure) → require b e ≡ ok tt → b ≡ true
passes true e h = refl
passes false e h = cc

unused : (o : Option RegisteredEvidence) → forbid (is_some o) plain_error ≡ ok tt → o ≡ none
unused none h = refl
unused (some e) h = cc

has_version-eq :
    (o : Option RegisteredEvidence) (n : ℕ)
    → has_version o n ≡ true
    → (e : RegisteredEvidence) × (o ≡ some e) × (e.version ≡ n)
has_version-eq none n h = absurd (cc h)
has_version-eq (some e) n h = (e, refl, ground arith)

module _ (f : Formats) (e : RegisteredEvidence) (s s' : Registry) {q : RegisteredEvidence} where
  -- A registration that succeeds is of an id that was not registered and of evidence that passes
  -- its schema; the parsed evidence is found under its id, and every other id finds what it found.
  get-register :
      (key : Option EvidenceKey)
      → register f e key s ≡ (ok q, s')
      → (get_registered_evidence s e.id ≡ none)
        × (is_valid_evidence f e ≡ true)
        × (q ≡ parsed_evidence e)
        × ((id : String)
            → get_registered_evidence s' id
              ≡ (if e.id == id then some q else get_registered_evidence s id))
  unfolding register parsed_evidence
  get-register key h =
      let (passed, same, after) = checked-eq-ok _ (parsed_evidence e) _ s s' h in
      let (valid, free) = require-eq-ok (is_valid_evidence f e) zod_error _ passed in
      (
        unused (get_registered_evidence s e.id) free,
        valid,
        same,
        (λ id. rw (after, same) (stored_under (parsed_evidence e) key s id)),
      )

  -- An update that succeeds is of registered evidence at the expected version, to evidence that
  -- passes its schema; the parsed evidence is found under its id, and every other id finds what it
  -- found.
  pub get-update_evidence :
      (expected : ℕ)
      → update_evidence f e expected s ≡ (ok q, s')
      → ((old : RegisteredEvidence) × (get_registered_evidence s e.id ≡ some old)
          × (old.version ≡ expected))
        × (is_valid_evidence f e ≡ true)
        × (q ≡ parsed_evidence e)
        × ((id : String)
            → get_registered_evidence s' id
              ≡ (if e.id == id then some q else get_registered_evidence s id))
  unfolding update_evidence parsed_evidence note_answer
  get-update_evidence expected h =
      let (passed, same, after) = checked-eq-ok _ (parsed_evidence e) _ s s' h in
      let (current, rest) =
        require-eq-ok (has_version (get_registered_evidence s e.id) expected) plain_error _
          passed in
      (
        has_version-eq (get_registered_evidence s e.id) expected current,
        passes (is_valid_evidence f e) zod_error rest,
        same,
        (λ id. rw (after, same) (stored_under (parsed_evidence e) none s id)),
      )

  -- Two writers that read the same version of registered evidence: once one has stored another
  -- version, the update of the other throws, and changes nothing.
  stale_evidence_refused :
      (expected : ℕ)
      → update_evidence f e expected s ≡ (ok q, s')
      → q.version ≢ expected
      → (e' : RegisteredEvidence) → e'.id ≡ e.id
      → update_evidence f e' expected s' ≡ (err plain_error, s')
  unfolding update_evidence
  stale_evidence_refused expected h newer e' same_id =
      let (_, _, _, finds) = get-update_evidence expected h in
      let found : get_registered_evidence s' e'.id ≡ some q =
        finds e'.id ∙ rw (same_id, eq_refl) refl in
      let stale : has_version (get_registered_evidence s' e'.id) expected ≡ false =
        subst (λ o. has_version o expected ≡ false) (sym found)
          (other_version q.version expected newer) in
      rw stale refl

pub update_evidence-unchanged :
    (f : Formats) (e : RegisteredEvidence) (expected : ℕ) (s s' : Registry) {failure : Failure}
    → update_evidence f e expected s ≡ (err failure, s')
    → s' ≡ s
unfolding update_evidence
update_evidence-unchanged f e expected s s' h = checked-err _ (parsed_evidence e) _ s s' h
