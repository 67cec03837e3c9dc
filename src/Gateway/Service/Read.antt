-- ===== src/Gateway/Service/Read.antt =====
-- src/application/publication-gateway/service.ts: `list`, `getPublication` and `getPublicBySlug`.
use mayday_dispatch.Prelude.{String, Option, none, some, List, map, if◌then◌else◌, all}
use mayday_dispatch.Domain.Lifecycle.{is_public_state}
use mayday_dispatch.Domain.Publication.{Publication, is_valid_publication, parsed_publication}
use mayday_dispatch.Domain.Public.{PublicPublication, is_valid_public, parsed_public}
use mayday_dispatch.Gateway.Errors.{
  Result, ok, err, gateway_error, not_found, no_details, zod_error, ◌>>=◌, ◌>>◌, require,
}
use mayday_dispatch.Gateway.Authorization.{Actor, list, retrieve, read_public, assert_can}
use mayday_dispatch.Gateway.Dto.{Response}
use mayday_dispatch.Repository.{Repository}
use mayday_dispatch.Repository.Snapshots.{get_public_snapshot_by_slug}
use mayday_dispatch.Gateway.Service.{Gateway, RequestContext, require_publication, response}

unfoldable pub list_publications : Gateway → Option Actor → Repository → Result (List Publication)
list_publications g actor r = do
  assert_can list actor none
  require (all (is_valid_publication g.formats) r.publications) zod_error
  ok (map parsed_publication r.publications)

-- `getPublication`
unfoldable pub get_stored_publication :
    Gateway → (id : String) → Option Actor → RequestContext → Repository → Result Response
get_stored_publication g id actor context r = do
  p ← require_publication id r
  assert_can retrieve actor (some p)
  response g p context

unfoldable pub shown : Option PublicPublication → Result PublicPublication
shown none = err (gateway_error not_found no_details)
shown (some p) =
    if is_public_state p.lifecycle_state then ok p else err (gateway_error not_found no_details)

-- `getPublicBySlug`
unfoldable pub get_public_by_slug :
    Gateway → (slug : String) → Option Actor → Repository → Result PublicPublication
get_public_by_slug g slug actor r = do
  assert_can read_public actor none
  found ← get_public_snapshot_by_slug g.formats g.digest slug r
  publication ← shown found
  require (is_valid_public g.formats publication) zod_error
  ok (parsed_public publication)
