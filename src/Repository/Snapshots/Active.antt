-- ===== src/Repository/Snapshots/Active.antt =====
-- Which manifests the public snapshots of src/publications/repository.ts come from.
use mayday_dispatch.Prelude.{
  All-from, String, ◌≡◌, refl, sym, ap, ◌∙◌, subst, ◌⊎◌, inl, inr, true, false, Bool, ◌==◌, List,
  [], ◌∷◌, All, Memᴰ, Bool-cases, ||-eq-true, includes, eq_text, ltb, if◌then◌else◌,
}
use mayday_dispatch.Domain.Patterns.{Formats}
use mayday_dispatch.Domain.Lifecycle.{is_public_state}
use mayday_dispatch.Domain.Publication.{Publication}
use mayday_dispatch.Domain.Public.{PublicPublication, is_valid_public, parsed_public}
use mayday_dispatch.Gateway.Errors.{ok, >>=-eq-ok, require-eq-ok, ok-injective}
use mayday_dispatch.Repository.{Repository, ReleaseManifest}
use mayday_dispatch.Repository.Save.{validate_public_snapshot}
use mayday_dispatch.Repository.Snapshots.{
  active_ids, add_manifest, latest_from, latest_manifests, snapshots_of, list_public_snapshots,
}

-- A stored publication of that id is released.
pub record ActiveId (ps : List Publication) (id : String) : Type 0 where
  pub publication : Publication
  pub stored : Memᴰ publication ps
  pub same_id : publication.id ≡ id
  pub released : is_public_state publication.lifecycle_state ≡ true

later :
    (p : Publication) {ps : List Publication} {id : String} → ActiveId ps id → ActiveId (p ∷ ps) id
later p a = record {
  publication = a.publication;
  stored = Memᴰ.tail a.stored;
  same_id = a.same_id;
  released = a.released;
}

includes-active_ids :
    (ps : List Publication) (id : String) → includes id (active_ids ps) ≡ true → ActiveId ps id
unfolding active_ids
includes-active_ids [] id h = absurd (cc h)
includes-active_ids (p ∷ ps) id h = elim (Bool-cases (is_public_state p.lifecycle_state)) [
  | inr e ↦ later p (includes-active_ids ps id (rw e at h))
  | inl e ↦ elim (||-eq-true (p.id == id) (includes id (active_ids ps)) (rw e at h)) [
    | inl same ↦ record {
      publication = p;
      stored = Memᴰ.head refl;
      same_id = eq_text p.id id same;
      released = e;
    }
    | inr rest ↦ later p (includes-active_ids ps id rest)
  ]
]

place-Memᴰ :
    (same newer : Bool) (m n x : ReleaseManifest) (ns rest : List ReleaseManifest)
    → (Memᴰ n rest → (n ≡ m) ⊎ Memᴰ n ns)
    → Memᴰ n (if same then (if newer then m else x) ∷ ns else x ∷ rest)
    → (n ≡ m) ⊎ Memᴰ n (x ∷ ns)
place-Memᴰ true true m n x ns rest f (Memᴰ.head e) = inl e
place-Memᴰ true true m n x ns rest f (Memᴰ.tail t) = inr (Memᴰ.tail t)
place-Memᴰ true false m n x ns rest f h = inr h
place-Memᴰ false newer m n x ns rest f (Memᴰ.head e) = inr (Memᴰ.head e)
place-Memᴰ false newer m n x ns rest f (Memᴰ.tail t) = elim (f t) [
  | inl e ↦ inl e
  | inr u ↦ inr (Memᴰ.tail u)
]

add_manifest-Memᴰ :
    (m n : ReleaseManifest) (ns : List ReleaseManifest)
    → Memᴰ n (add_manifest m ns)
    → (n ≡ m) ⊎ Memᴰ n ns
unfolding add_manifest
add_manifest-Memᴰ m n [] (Memᴰ.head e) = inl e
add_manifest-Memᴰ m n [] (Memᴰ.tail t) = inr t
add_manifest-Memᴰ m n (x ∷ ns) h =
    place-Memᴰ (x.publication_id == m.publication_id)
      (ltb x.publication_version m.publication_version) m n x ns (add_manifest m ns)
      (add_manifest-Memᴰ m n ns) h

-- A manifest of the repository, for a publication that is released.
Kept : List String → List ReleaseManifest → ReleaseManifest → Type 0
Kept active ms m = Memᴰ m ms × (includes m.publication_id active ≡ true)

sooner :
    (active : List String) (x : ReleaseManifest) (ms : List ReleaseManifest) (m : ReleaseManifest)
    → Kept active ms m
    → Kept active (x ∷ ms) m
unfolding Kept
sooner active x ms m (t, h) = (Memᴰ.tail t, h)

latest_from-Kept :
    (active : List String) (latest ms : List ReleaseManifest) (m : ReleaseManifest)
    → Memᴰ m (latest_from active latest ms)
    → Memᴰ m latest ⊎ Kept active ms m
unfolding latest_from Kept
latest_from-Kept active latest [] m h = inl h
latest_from-Kept active latest (x ∷ ms) m h = elim (Bool-cases (includes x.publication_id active)) [
  | inr e ↦ elim (latest_from-Kept active latest ms m (rw e at h)) [
    | inl t ↦ inl t
    | inr k ↦ inr (sooner active x ms m k)
  ]
  | inl e ↦ elim (latest_from-Kept active (add_manifest x latest) ms m (rw e at h)) [
    | inr k ↦ inr (sooner active x ms m k)
    | inl t ↦ elim (add_manifest-Memᴰ x m latest t) [
      | inr u ↦ inl u
      | inl same ↦
          inr (
            Memᴰ.head same,
            ap (λ (y : ReleaseManifest). includes y.publication_id active) same ∙ e,
          )
    ]
  ]
]

module _ (f : Formats) (digest : PublicPublication → String) where
  -- Where a public snapshot comes from.
  pub record Released (r : Repository) (x : PublicPublication) : Type 0 where
    pub manifest : ReleaseManifest
    pub recorded : Memᴰ manifest r.release_manifests
    pub active : ActiveId r.publications manifest.publication_id
    pub snapshot : x ≡ parsed_public manifest.public_snapshot
    pub valid : is_valid_public f manifest.public_snapshot ≡ true
    pub intact : digest x ≡ manifest.public_content_digest

  snapshot-Released :
      (r : Repository) (m : ReleaseManifest) (x : PublicPublication)
      → Memᴰ m (latest_manifests r)
      → validate_public_snapshot f digest m.public_snapshot m.public_content_digest ≡ ok x
      → Released r x
  unfolding validate_public_snapshot latest_manifests Kept
  snapshot-Released r m x listed h =
      let snapshot = parsed_public m.public_snapshot in
      let (valid, h1) = require-eq-ok (is_valid_public f m.public_snapshot) _ _ h in
      let (intact, h2) = require-eq-ok (digest snapshot == m.public_content_digest) _ _ h1 in
      let same : snapshot ≡ x = ok-injective h2 in
      elim (latest_from-Kept (active_ids r.publications) [] r.release_manifests m listed) [
        | inl none_yet ↦ elim none_yet [ ]
        | inr (recorded, active) ↦ record {
          manifest = m;
          recorded = recorded;
          active = includes-active_ids r.publications m.publication_id active;
          snapshot = sym same;
          valid = valid;
          intact = ap digest (sym same) ∙ eq_text (digest snapshot) m.public_content_digest intact;
        }
      ]

  snapshots_of-Released :
      (r : Repository) (ms : List ReleaseManifest) (xs : List PublicPublication)
      → All (λ m. Memᴰ m (latest_manifests r)) ms
      → snapshots_of f digest ms ≡ ok xs
      → All (Released r) xs
  unfolding snapshots_of
  snapshots_of-Released r [] xs a h = subst (All (Released r)) (ok-injective h) tt
  snapshots_of-Released r (m ∷ ms) xs (listed, a) h =
      let (x, e, h1) =
        >>=-eq-ok (validate_public_snapshot f digest m.public_snapshot m.public_content_digest) _
          h in
      let (rest, e2, h2) = >>=-eq-ok (snapshots_of f digest ms) _ h1 in
      subst (All (Released r)) (ok-injective h2)
        (snapshot-Released r m x listed e, snapshots_of-Released r ms rest a e2)

  -- Every public snapshot is the parsed snapshot of a recorded manifest that still has its digest,
  -- and a publication of the manifest's id is stored in a public state: an archived or withdrawn
  -- publication has none.
  pub list_public_snapshots-Released :
      (r : Repository) (xs : List PublicPublication)
      → list_public_snapshots f digest r ≡ ok xs
      → All (Released r) xs
  unfolding list_public_snapshots
  list_public_snapshots-Released r xs h =
      snapshots_of-Released r (latest_manifests r) xs
        (All-from _ (latest_manifests r) (λ m listed. listed)) h
