-- ===== src/Repository/Save/Laws.antt =====
-- What `save` of src/publications/repository.ts guarantees on each outcome.
use mayday_dispatch.Prelude.{
  String, ◌≡◌, refl, sym, ap, ◌∙◌, ◌⊎◌, inl, inr, Bool, true, not, Option, none, some, List, [],
  ◌∷◌, arith, ◌==◌, eq_iff, if◌then◌else◌, Bool-cases,
}
use mayday_dispatch.Domain.Patterns.{Formats}
use mayday_dispatch.Domain.Publication.{Publication, is_valid_publication, parsed_publication}
use mayday_dispatch.Domain.Public.{PublicPublication}
use mayday_dispatch.Gateway.Errors.{
  Result, ok, err, Failure, zod_error, require-eq-ok, repository_idempotency_conflict_error,
}
use mayday_dispatch.Audit.{is_valid_audit_event}
use mayday_dispatch.Repository.{
  Repository, SaveOptions, IdempotencyKey, IdempotencyRecord, get_publication, set_publication,
  get_record, set_record, find_idempotency,
}
use mayday_dispatch.Repository.Save.{
  check_manifest, check_save, is_current, stored_version, remember, write, conflicts, write_record,
  write_publication, push_audit, push_manifest, save,
}

pub get-set :
    (p : Publication) (id : String) (ps : List Publication)
    → get_publication id (set_publication p ps)
      ≡ (if p.id == id then some p else get_publication id ps)
unfolding get_publication set_publication
get-set p id [] = refl
get-set p id (q ∷ ps) =
    ground (arith, eq_iff p.id id, eq_iff q.id id, eq_iff q.id p.id, get-set p id ps)

pub get_record-set :
    (k j : String) (v : IdempotencyRecord) (m : List (String × IdempotencyRecord))
    → get_record j (set_record k v m) ≡ (if k == j then some v else get_record j m)
unfolding get_record set_record
get_record-set k j v [] = refl
get_record-set k j v (entry ∷ m) =
    ground (arith, get_record-set k j v m, eq_iff entry.0 j, eq_iff entry.0 k, eq_iff k j)

-- The repository after the idempotency key was noted.
abbrev pub noted : Publication → Option IdempotencyKey → Repository → Repository
noted p none r = r
noted p (some k) r = write_record p k r

abbrev pub may_note : Option IdempotencyKey → Repository → Bool
unfolding conflicts
may_note none r = true
may_note (some k) r = not (conflicts (find_idempotency k.actor_scope k.key r) k)

-- The repository after a whole save.
abbrev pub written : Publication → SaveOptions → Repository → Repository
written q o r =
    push_manifest o.release_manifest
      (push_audit o.audit_event (write_publication q (noted q o.idempotency r)))

pub Result-cases : (m : Result (Unit {0})) → (m ≡ ok tt) ⊎ ((e : Failure) × (m ≡ err e))
Result-cases (ok tt) = inl refl
Result-cases (err e) = inr (e, refl)

remember-cases :
    (q : Publication) (k : Option IdempotencyKey) (r : Repository)
    → (remember q k r ≡ (ok tt, noted q k r)) ⊎ ((e : Failure) × (remember q k r ≡ (err e, r)))
unfolding remember
remember-cases q none r = inl refl
remember-cases q (some k) r =
    elim (Bool-cases (conflicts (find_idempotency k.actor_scope k.key r) k)) [
      | inl h ↦ inr (repository_idempotency_conflict_error, rw h refl)
      | inr h ↦ inl (rw h refl)
    ]

write-cases :
    (q : Publication) (o : SaveOptions) (r : Repository)
    → (write q o r ≡ (ok q, written q o r)) ⊎ ((e : Failure) × (write q o r ≡ (err e, r)))
unfolding write
write-cases q o r = elim (remember-cases q o.idempotency r) [
  | inl h ↦ inl (rw h refl)
  | inr (e, h) ↦ inr (e, rw h refl)
]

module _ (f : Formats) (digest : PublicPublication → String) where
  -- The facts behind a save that succeeds.
  pub record Saved (p : Publication) (o : SaveOptions) (r : Repository) (q : Publication)
      (r' : Repository) : Type 0 where
    pub valid : is_valid_publication f p ≡ true
    pub stored : q ≡ parsed_publication p
    pub current : is_current o.expected_version (stored_version q.id r) ≡ true
    pub audited : is_valid_audit_event f o.audit_event ≡ true
    pub released : check_manifest f digest q o.audit_event o.release_manifest ≡ ok tt
    pub after : r' ≡ written q o r

  pub save-valid :
      (p : Publication) (o : SaveOptions) (r : Repository)
      → is_valid_publication f p ≡ true
      → check_save f digest (parsed_publication p) o r ≡ ok tt
      → save f digest p o r ≡ write (parsed_publication p) o r
  unfolding save
  save-valid p o r v c = rw (v, c) refl

  pub save-cases :
      (p : Publication) (o : SaveOptions) (r : Repository)
      → ((is_valid_publication f p ≡ true)
          × (check_save f digest (parsed_publication p) o r ≡ ok tt)
          × (save f digest p o r ≡ (ok (parsed_publication p), written (parsed_publication p) o r)))
        ⊎ ((e : Failure) × (save f digest p o r ≡ (err e, r)))
  unfolding save
  save-cases p o r = elim (Bool-cases (is_valid_publication f p)) [
    | inr v ↦ inr (zod_error, rw v refl)
    | inl v ↦ elim (Result-cases (check_save f digest (parsed_publication p) o r)) [
      | inr (e, c) ↦ inr (e, rw (v, c) refl)
      | inl c ↦ elim (write-cases (parsed_publication p) o r) [
        | inl w ↦ inl (v, c, save-valid p o r v c ∙ w)
        | inr (e, w) ↦ inr (e, save-valid p o r v c ∙ w)
      ]
    ]
  ]

  -- A save that throws, whatever it throws, leaves the repository as it was: nothing of the
  -- publication, the audit event, the manifest and the key is written.
  pub save_error_unchanged :
      (p : Publication) (o : SaveOptions) (r r' : Repository) {e : Failure}
      → save f digest p o r ≡ (err e, r')
      → r' ≡ r
  save_error_unchanged p o r r' h = elim (save-cases p o r) [
    | inl (v, c, w) ↦ absurd (cc (ap (λ t. t.0) (sym w ∙ h)))
    | inr (e, w) ↦ sym (ap (λ t. t.1) (sym w ∙ h))
  ]

  pub check_save-eq-ok :
      (q : Publication) (o : SaveOptions) (r : Repository)
      → check_save f digest q o r ≡ ok tt
      → (is_current o.expected_version (stored_version q.id r) ≡ true)
        × (is_valid_audit_event f o.audit_event ≡ true)
        × (check_manifest f digest q o.audit_event o.release_manifest ≡ ok tt)
  unfolding check_save
  check_save-eq-ok q o r h =
      let (current, h1) =
        require-eq-ok (is_current o.expected_version (stored_version q.id r)) _ _ h in
      let (audited, h2) = require-eq-ok (is_valid_audit_event f o.audit_event) _ _ h1 in
      (current, audited, h2)

  pub save-Saved :
      (p : Publication) (o : SaveOptions) (r r' : Repository) {q : Publication}
      → save f digest p o r ≡ (ok q, r')
      → Saved p o r q r'
  save-Saved p o r r' {q} h = elim (save-cases p o r) [
    | inr (e, w) ↦ absurd (cc (ap (λ t. t.0) (sym w ∙ h)))
    | inl (v, c, w) ↦
        let e : q ≡ parsed_publication p = cc (ap (λ t. t.0) (sym w ∙ h)) in
        let after : r' ≡ written (parsed_publication p) o r = sym (ap (λ t. t.1) (sym w ∙ h)) in
        let (current, audited, released) = check_save-eq-ok (parsed_publication p) o r c in
        record {
          valid = v;
          stored = e;
          current = rw e current;
          audited = audited;
          released = rw e released;
          after = rw e after;
        }
  ]
