-- ===== src/Repository/Save/Effect.antt =====
-- What a successful `save` changes, and how the version check orders two saves.
use mayday_dispatch.Prelude.{
  ℕ, String, ◌≡◌, refl, sym, ◌∙◌, ◌≢◌, inl, inr, true, false, Option, none, some, List, [], ◌∷◌,
  ◌++◌, arith, ◌==◌, if◌then◌else◌, eq_refl, ap, subst,
}
use mayday_dispatch.Domain.Patterns.{Formats}
use mayday_dispatch.Domain.Publication.{Publication, parsed_publication}
use mayday_dispatch.Domain.Public.{PublicPublication}
use mayday_dispatch.Gateway.Errors.{ok, err, Failure}
use mayday_dispatch.Audit.{AuditEvent}
use mayday_dispatch.Repository.{
  Repository, SaveOptions, IdempotencyKey, ReleaseManifest, get_publication, set_publication,
  find_by_id,
}
use mayday_dispatch.Repository.Save.{
  is_current, stored_version, write_record, write_publication, push_audit, push_manifest, save,
}
use mayday_dispatch.Repository.Save.Laws.{
  save-Saved, save-cases, check_save-eq-ok, written, noted, get-set,
}

abbrev pub listed : Option ReleaseManifest → List ReleaseManifest
listed none = []
listed (some m) = m ∷ []

-- The change that one save makes.
pub record Effect (q : Publication) (o : SaveOptions) (r r' : Repository) : Type 0 where
  pub publications : r'.publications ≡ set_publication q r.publications
  pub audit_events : r'.audit_events ≡ r.audit_events ++ o.audit_event ∷ []
  pub release_manifests : r'.release_manifests ≡ r.release_manifests ++ listed o.release_manifest
  pub lockdown : r'.lockdown ≡ r.lockdown

append-none : (xs : List ReleaseManifest) → xs ++ [] ≡ xs
append-none [] = refl
append-none (x ∷ xs) = ap (λ t. x ∷ t) (append-none xs)

module _ (q : Publication) (e : AuditEvent) (r : Repository) where
  changed : Option ReleaseManifest → Option IdempotencyKey → Repository
  changed m k = push_manifest m (push_audit e (write_publication q (noted q k r)))

  publications-changed :
      (m : Option ReleaseManifest) (k : Option IdempotencyKey)
      → (changed m k).publications ≡ set_publication q r.publications
  unfolding changed push_manifest push_audit write_publication write_record
  publications-changed none none = refl
  publications-changed none (some k) = refl
  publications-changed (some m) none = refl
  publications-changed (some m) (some k) = refl

  audit-changed :
      (m : Option ReleaseManifest) (k : Option IdempotencyKey)
      → (changed m k).audit_events ≡ r.audit_events ++ e ∷ []
  unfolding changed push_manifest push_audit write_publication write_record
  audit-changed none none = refl
  audit-changed none (some k) = refl
  audit-changed (some m) none = refl
  audit-changed (some m) (some k) = refl

  manifests-changed :
      (m : Option ReleaseManifest) (k : Option IdempotencyKey)
      → (changed m k).release_manifests ≡ r.release_manifests ++ listed m
  unfolding changed push_manifest push_audit write_publication write_record
  manifests-changed none none = sym (append-none r.release_manifests)
  manifests-changed none (some k) = sym (append-none r.release_manifests)
  manifests-changed (some m) none = refl
  manifests-changed (some m) (some k) = refl

  lockdown-changed :
      (m : Option ReleaseManifest) (k : Option IdempotencyKey) → (changed m k).lockdown ≡ r.lockdown
  unfolding changed push_manifest push_audit write_publication write_record
  lockdown-changed none none = refl
  lockdown-changed none (some k) = refl
  lockdown-changed (some m) none = refl
  lockdown-changed (some m) (some k) = refl

pub written-Effect :
    (q : Publication) (o : SaveOptions) (r : Repository) → Effect q o r (written q o r)
unfolding changed
written-Effect q o r = record {
  publications = publications-changed q o.audit_event r o.release_manifest o.idempotency;
  audit_events = audit-changed q o.audit_event r o.release_manifest o.idempotency;
  release_manifests = manifests-changed q o.audit_event r o.release_manifest o.idempotency;
  lockdown = lockdown-changed q o.audit_event r o.release_manifest o.idempotency;
}

module _ (f : Formats) (digest : PublicPublication → String) where
  module _ (p : Publication) (o : SaveOptions) (r r' : Repository) {q : Publication}
      (saved : save f digest p o r ≡ (ok q, r')) where
    -- A save that succeeds returns the parsed publication and changes only these things: the
    -- publication of that id, one more audit event, and the manifest, if there is one.
    pub save-Effect : (q ≡ parsed_publication p) × Effect q o r r'
    save-Effect =
        let s = save-Saved f digest p o r r' saved in
        (s.stored, subst (Effect q o r) (sym s.after) (written-Effect q o r))

    -- What is found afterwards: the new publication under its id, and what was there before under
    -- any other; and a save succeeds only on the version that it expects.
    pub find-save :
        (id : String) → find_by_id id r' ≡ (if p.id == id then some q else find_by_id id r)
    unfolding find_by_id parsed_publication
    find-save id =
        let (e, effect) = save-Effect in
        let same_id : q.id ≡ p.id = ap (λ t. t.id) e in
        ap (get_publication id) effect.publications
        ∙ (get-set q id r.publications ∙ rw same_id refl)

    pub save-current : is_current o.expected_version (stored_version p.id r) ≡ true
    unfolding parsed_publication
    save-current =
        let s = save-Saved f digest p o r r' saved in
        let same_id : q.id ≡ p.id = ap (λ t. t.id) s.stored in
        subst (λ id. is_current o.expected_version (stored_version id r) ≡ true) same_id s.current

    pub stored_version-save : stored_version p.id r' ≡ some q.revision.version
    unfolding stored_version find_by_id
    stored_version-save = rw (find-save p.id, eq_refl) refl

    refused :
        (expected : ℕ)
        → expected ≡ o.expected_version
        → q.revision.version ≢ o.expected_version
        → is_current expected (some q.revision.version) ≡ false
    refused expected same newer = ground arith

    -- Two writers that read the same version: once one has saved a new version, the save of the
    -- other throws, and changes nothing.
    pub lost_update_refused :
        (p' : Publication) (o' : SaveOptions)
        → p'.id ≡ p.id
        → o'.expected_version ≡ o.expected_version
        → q.revision.version ≢ o.expected_version
        → (e : Failure) × (save f digest p' o' r' ≡ (err e, r'))
    unfolding parsed_publication
    lost_update_refused p' o' same_id same_version newer = elim (save-cases f digest p' o' r') [
      | inr failed ↦ failed
      | inl (v, c, w) ↦
          let current = (check_save-eq-ok f digest (parsed_publication p') o' r' c).0 in
          let stored : stored_version p'.id r' ≡ some q.revision.version =
            rw same_id stored_version-save in
          let late : is_current o'.expected_version (some q.revision.version) ≡ true =
            subst (λ s. is_current o'.expected_version s ≡ true) stored current in
          absurd (cc (sym late ∙ refused o'.expected_version same_version newer))
    ]
