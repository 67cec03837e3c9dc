-- ===== src/Repository/Sqlite/Represents.antt =====
-- When the tables of the repository in SQLite, of src/publications/repository.ts, stand for a
-- repository in memory.
use mathlib.Core.Option
use mathlib.Core.List.{map}
use mayday_dispatch.Prelude.{
  ℕ, String, ◌≡◌, refl, ap, ◌∙◌, inl, inr, Bool, true, false, not, ◌&&◌, Option, none, some, List,
  [], ◌∷◌, ◌++◌, ◌==◌, eqb, arith, if◌then◌else◌, Bool-cases, is_some, All,
}
use mayday_dispatch.Domain.Publication.{Publication}
use mayday_dispatch.Repository.{
  Repository, IdempotencyKey, IdempotencyRecord, get_publication, set_publication, get_record,
  set_record, storage_key, ReleaseManifest,
}
use mayday_dispatch.Repository.Save.Effect.{listed}
use mayday_dispatch.Repository.Sqlite.{
  RevisionRow, row_of, origin_row, find_publication, find_revision, find_key,
  update_publication_row, update_origin_row, PublicationRow,
}
use mayday_dispatch.Repository.Sqlite.Save.Steps.{Core, with_manifest}

-- The entry of the repository in memory for a row of the keys.
abbrev pub entry_of : IdempotencyRecord → String × IdempotencyRecord
entry_of k = (storage_key k.actor_scope k.key, k)

-- The current revision of a publication holds it.
abbrev pub IsCurrentRevision : List RevisionRow → Publication → Type 0
IsCurrentRevision revisions p =
    (r : RevisionRow) × (find_revision p.id p.revision.version revisions ≡ some r)
    × (r.revision ≡ p.revision)
    × (r.snapshot ≡ p)

-- The tables stand for a repository in memory.
pub record Represents (c : Core) (r : Repository) : Type 0 where
  pub publications : c.publications ≡ map row_of r.publications
  pub origins : c.origins ≡ map origin_row r.publications
  pub revisions : All (IsCurrentRevision c.revisions) r.publications
  pub keys : map entry_of c.idempotency_keys ≡ r.idempotency
  pub audit_events : c.audit_events ≡ r.audit_events
  pub operational_audit_events : c.operational_audit_events ≡ r.operational_audit_events
  pub release_manifests : c.release_manifests ≡ r.release_manifests
  pub lockdown : c.lockdown ≡ r.lockdown

pub find-row_of :
    (id : String) (ps : List Publication)
    → find_publication id (map row_of ps) ≡ Option.map row_of (get_publication id ps)
unfolding find_publication get_publication
find-row_of id [] = refl
find-row_of id (p ∷ ps) = elim (Bool-cases (p.id == id)) [
  | inl e ↦ rw (find_publication, get_publication, e) refl
  | inr e ↦ rw (find_publication, get_publication, e) (find-row_of id ps)
]

if-cons :
    {A : Type 0} (b : Bool) (x : A) (xs ys : List A)
    → (if b then x ∷ xs else x ∷ ys) ≡ x ∷ (if b then xs else ys)
if-cons true x xs ys = refl
if-cons false x xs ys = refl

pub stored_publications :
    (p : Publication) (ps : List Publication)
    → (if not (is_some (get_publication p.id ps))
        then map row_of ps ++ row_of p ∷ []
        else update_publication_row (row_of p) (map row_of ps))
      ≡ map row_of (set_publication p ps)
unfolding get_publication set_publication update_publication_row
stored_publications p [] = refl
stored_publications p (q ∷ ps) = elim (Bool-cases (q.id == p.id)) [
  | inl e ↦ rw (get_publication, set_publication, update_publication_row, e) refl
  | inr e ↦
      rw (get_publication, set_publication, update_publication_row, e)
        (if-cons (not (is_some (get_publication p.id ps))) (row_of q)
            (map row_of ps ++ row_of p ∷ []) (update_publication_row (row_of p) (map row_of ps))
          ∙ ap (λ t. row_of q ∷ t) (stored_publications p ps))
]

pub stored_origins :
    (p : Publication) (ps : List Publication)
    → (if not (is_some (get_publication p.id ps))
        then map origin_row ps ++ origin_row p ∷ []
        else update_origin_row (origin_row p) (map origin_row ps))
      ≡ map origin_row (set_publication p ps)
unfolding get_publication set_publication update_origin_row
stored_origins p [] = refl
stored_origins p (q ∷ ps) = elim (Bool-cases (q.id == p.id)) [
  | inl e ↦ rw (get_publication, set_publication, update_origin_row, e) refl
  | inr e ↦
      rw (get_publication, set_publication, update_origin_row, e)
        (if-cons (not (is_some (get_publication p.id ps))) (origin_row q)
            (map origin_row ps ++ origin_row p ∷ [])
            (update_origin_row (origin_row p) (map origin_row ps))
          ∙ ap (λ t. origin_row q ∷ t) (stored_origins p ps))
]

pub is_some-map : {A B : Type 0} (f : A → B) (o : Option A) → is_some (Option.map f o) ≡ is_some o
is_some-map f none = refl
is_some-map f (some a) = refl

find_revision-append :
    (id : String) (v : ℕ) (r : RevisionRow) (rs : List RevisionRow) (x : RevisionRow)
    → find_revision id v rs ≡ some x
    → find_revision id v (rs ++ r ∷ []) ≡ some x
unfolding find_revision
find_revision-append id v r [] x h = cc
find_revision-append id v r (y ∷ rs) x h = ground (arith, find_revision-append id v r rs x)

pub find_revision-new :
    (id : String) (v : ℕ) (r : RevisionRow) (rs : List RevisionRow)
    → is_some (find_revision id v rs) ≡ false
    → (r.publication_id == id && eqb r.revision.version v) ≡ true
    → find_revision id v (rs ++ r ∷ []) ≡ some r
unfolding find_revision
find_revision-new id v r [] h e = rw (find_revision, e) refl
find_revision-new id v r (y ∷ rs) h e = ground (arith, find_revision-new id v r rs)

pub current-append :
    (r : RevisionRow) (rs : List RevisionRow) (ps : List Publication)
    → All (IsCurrentRevision rs) ps
    → All (IsCurrentRevision (rs ++ r ∷ [])) ps
current-append r rs [] h = tt
current-append r rs (p ∷ ps) ((x, f, v, e), hs) =
    ((x, find_revision-append p.id p.revision.version r rs x f, v, e), current-append r rs ps hs)

pub All-set :
    (P : Publication → Type 0) (p : Publication) (ps : List Publication)
    → All P ps
    → P p
    → All P (set_publication p ps)
unfolding set_publication
All-set P p [] h new = (new, tt)
All-set P p (q ∷ ps) (h, hs) new = elim (Bool-cases (q.id == p.id)) [
  | inl e ↦ rw (set_publication, e) (new, hs)
  | inr e ↦ rw (set_publication, e) (h, All-set P p ps hs new)
]

-- No row of another key has the storage key of this one.
abbrev pub IsSeparate : Option IdempotencyKey → List IdempotencyRecord → Type 0
IsSeparate none ks = Unit
IsSeparate (some k) ks =
    All
      (λ (x : IdempotencyRecord).
        (x.actor_scope == k.actor_scope && x.key == k.key) ≡ false
        → (storage_key x.actor_scope x.key == storage_key k.actor_scope k.key) ≡ false)
      ks

pub fresh_storage :
    (k : IdempotencyKey) (ks : List IdempotencyRecord)
    → IsSeparate (some k) ks
    → is_some (find_key k.actor_scope k.key ks) ≡ false
    → get_record (storage_key k.actor_scope k.key) (map entry_of ks) ≡ none
unfolding find_key get_record
fresh_storage k [] s h = refl
fresh_storage k (x ∷ ks) (s, ss) h =
    elim (Bool-cases (x.actor_scope == k.actor_scope && x.key == k.key)) [
      | inl e ↦ absurd (cc (rw (find_key, e) at h))
      | inr e ↦ rw (get_record, s e) (fresh_storage k ks ss (rw (find_key, e) at h))
    ]

pub set_record-append :
    (j : String) (v : IdempotencyRecord) (m : List (String × IdempotencyRecord))
    → get_record j m ≡ none
    → set_record j v m ≡ m ++ (j, v) ∷ []
unfolding get_record set_record
set_record-append j v [] h = refl
set_record-append j v (entry ∷ m) h = elim (Bool-cases (entry.0 == j)) [
  | inl e ↦ absurd (cc (rw (get_record, e) at h))
  | inr e ↦
      rw (set_record, e) (ap (λ t. entry ∷ t) (set_record-append j v m (rw (get_record, e) at h)))
]

pub map-append_one :
    (ks : List IdempotencyRecord) (k : IdempotencyRecord)
    → map entry_of (ks ++ k ∷ []) ≡ map entry_of ks ++ entry_of k ∷ []
map-append_one [] k = refl
map-append_one (x ∷ ks) k = ap (λ t. entry_of x ∷ t) (map-append_one ks k)

append-none : {A : Type 0} (xs : List A) → xs ≡ xs ++ []
append-none [] = refl
append-none (x ∷ xs) = ap (λ t. x ∷ t) (append-none xs)

pub with_manifest-listed :
    (m : Option ReleaseManifest) (ms : List ReleaseManifest) → with_manifest m ms ≡ ms ++ listed m
with_manifest-listed none ms = append-none ms
with_manifest-listed (some m) ms = refl

pub map_version :
    (o : Option Publication)
    → Option.map (λ (x : PublicationRow). x.current_version) (Option.map row_of o)
      ≡ Option.map (λ (p : Publication). p.revision.version) o
map_version none = refl
map_version (some p) = refl
