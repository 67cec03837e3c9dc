-- ===== src/Tests/Withdrawal.antt =====
-- A published publication is made a draft again through its origin, by an editor.
use mayday_dispatch.Tests.{running, gateway, context, supply, actor, holding, publication}
use mayday_dispatch.Prelude.{◌≡◌, refl, some, true, false}
use mayday_dispatch.Tests.Service.{draft_request}
use mayday_dispatch.Domain.Lifecycle.{draft, published, is_public_state, can_transition_lifecycle}
use mayday_dispatch.Domain.Publication.{Publication}
use mayday_dispatch.Repository.{find_by_id}
use mayday_dispatch.Gateway.Service.Draft.{create_draft_publication}
use mayday_dispatch.Gateway.Authorization.{editor}
use mayday_dispatch.Gateway.Service.Draft.Created.{create_draft_publication-withdraws}

create_draft_publication-withdraws_example :
    (after : Publication) × (find_by_id "pub-1"
        (create_draft_publication gateway
          (draft_request (some 4))
          (some (actor editor))
          context
          supply
          (holding (publication published 4))).1
      ≡ some after)
    × (after.lifecycle_state ≡ draft)
    × (is_public_state published ≡ true
        → can_transition_lifecycle published after.lifecycle_state ≡ false)
unfolding running
create_draft_publication-withdraws_example =
    create_draft_publication-withdraws gateway (some (actor editor)) context supply
      (holding (publication published 4)) _ (draft_request (some 4)) _ (publication published 4)
      refl refl refl
