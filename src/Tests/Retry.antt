-- ===== src/Tests/Retry.antt =====
-- A draft request that is sent twice with one idempotency key.
use mayday_dispatch.Prelude.{◌≡◌, refl, some, none}
use mayday_dispatch.Tests.{running, gateway, context, supply, actor}
use mayday_dispatch.Tests.Service.{draft_request}
use mayday_dispatch.Repository.{Repository, empty}
use mayday_dispatch.Gateway.Authorization.{editor}
use mayday_dispatch.Gateway.Service.{RequestContext, Supply}
use mayday_dispatch.Gateway.Service.Draft.{create_draft_publication}
use mayday_dispatch.Gateway.Service.Draft.Retried.{create_draft_publication-retried}

abbrev keyed : RequestContext
keyed = record context { idempotency_key = some "key-1" }

abbrev later_supply : Supply
later_supply = record supply { publication_id = "pub-3"; audit_id = "audit-2" }

abbrev once : Repository
once =
    (create_draft_publication gateway (draft_request none) (some (actor editor)) keyed supply
      empty).1

create_draft_publication-retried_example :
    (create_draft_publication gateway
      (draft_request none)
      (some (actor editor))
      keyed
      later_supply
      once).1
    ≡ once
unfolding running
create_draft_publication-retried_example =
    create_draft_publication-retried gateway (some (actor editor)) keyed supply later_supply empty
      once _ (draft_request none) "key-1" _ _ refl refl refl
