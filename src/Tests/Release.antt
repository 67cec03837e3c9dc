-- ===== src/Tests/Release.antt =====
-- A release of the sample publication, and what it records.
use mayday_dispatch.Prelude.{refl}
use mayday_dispatch.Tests.{running, gateway, context, supply, holding, publication}
use mayday_dispatch.Tests.Service.{to_published, publisher_actor}
use mayday_dispatch.Domain.Lifecycle.{ready}
use mayday_dispatch.Gateway.Service.Transition.Recorded.{Recorded, transition_publication-Recorded}
use mayday_dispatch.Gateway.Service.Transition.{transition_publication}

transition_publication-Recorded_example :
    Recorded gateway "pub-1"
      (holding (publication ready 3))
      (transition_publication gateway "pub-1" to_published publisher_actor context supply
        (holding (publication ready 3))).1
unfolding running
transition_publication-Recorded_example =
    transition_publication-Recorded gateway publisher_actor context supply
      (holding (publication ready 3)) _ "pub-1" to_published _ refl refl
