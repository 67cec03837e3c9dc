-- ===== src/Repository/Snapshots.antt =====
-- src/publications/repository.ts: the public snapshots of the repository in memory.
pub mod Active
use mayday_dispatch.Prelude.{
  Option, [], ◌∷◌, ◌==◌, ltb, if◌then◌else◌, find, includes, String, List,
}
use mayday_dispatch.Domain.Patterns.{Formats}
use mayday_dispatch.Domain.Lifecycle.{is_public_state}
use mayday_dispatch.Domain.Publication.{Publication}
use mayday_dispatch.Domain.Public.{PublicPublication}
use mayday_dispatch.Gateway.Errors.{Result, ok, ◌>>=◌}
use mayday_dispatch.Repository.{ReleaseManifest, Repository}
use mayday_dispatch.Repository.Save.{validate_public_snapshot}

-- The ids of the publications that are released now.
unfoldable pub active_ids : List Publication → List String
active_ids [] = []
active_ids (p ∷ ps) =
    if is_public_state p.lifecycle_state then p.id ∷ active_ids ps else active_ids ps

-- The map of the latest manifests: the first place of a publication stays, a newer one replaces it.
unfoldable pub add_manifest : ReleaseManifest → List ReleaseManifest → List ReleaseManifest
add_manifest m [] = m ∷ []
add_manifest m (n ∷ ns) =
    if n.publication_id == m.publication_id
    then (if ltb n.publication_version m.publication_version then m else n) ∷ ns
    else n ∷ add_manifest m ns

unfoldable pub latest_from :
    List String → List ReleaseManifest → List ReleaseManifest → List ReleaseManifest
unfolding add_manifest
latest_from active latest [] = latest
latest_from active latest (m ∷ ms) =
    latest_from active (if includes m.publication_id active then add_manifest m latest else latest)
      ms

unfoldable pub latest_manifests : Repository → List ReleaseManifest
unfolding latest_from active_ids
latest_manifests r = latest_from (active_ids r.publications) [] r.release_manifests

module _ (f : Formats) (digest : PublicPublication → String) where
  unfoldable pub snapshots_of : List ReleaseManifest → Result (List PublicPublication)
  unfolding validate_public_snapshot
  snapshots_of [] = ok []
  snapshots_of (m ∷ ms) = do
    snapshot ← validate_public_snapshot f digest m.public_snapshot m.public_content_digest
    rest ← snapshots_of ms
    ok (snapshot ∷ rest)

  unfoldable pub list_public_snapshots : Repository → Result (List PublicPublication)
  unfolding snapshots_of latest_manifests
  list_public_snapshots r = snapshots_of (latest_manifests r)

  unfoldable pub get_public_snapshot_by_slug :
      String → Repository → Result (Option PublicPublication)
  unfolding list_public_snapshots
  get_public_snapshot_by_slug slug r = do
    snapshots ← list_public_snapshots r
    ok (find (λ p. p.slug == slug) snapshots)
