-- ===== src/Tests/Histories.antt =====
-- A history that starts with the empty repository: a draft, and a lockdown.
use mayday_dispatch.Prelude.{some, none, true, ◌≡◌, refl}
use mayday_dispatch.Domain.Lifecycle.{published}
use mayday_dispatch.Gateway.History.Failures.{serve-unchanged}
use mayday_dispatch.Tests.{running, formats, gateway, context, supply, actor, holding, publication}
use mayday_dispatch.Tests.Service.{draft_request, correction_request}
use mayday_dispatch.Repository.{Repository, empty}
use mayday_dispatch.Repository.Control.{set_publication_lockdown}
use mayday_dispatch.Gateway.History.Records.{Audited, AllValid, serve-Audited, History-AllValid}
use mayday_dispatch.Gateway.History.{
  History, Call, serve, serve_request, edit, History-OneSlug, Event, History-Grows, draft_from,
}
use mayday_dispatch.Gateway.Service.Growth.{Grows}
use mayday_dispatch.Gateway.Service.Slugs.{OneSlug}
use mayday_dispatch.Gateway.Authorization.{admin, editor}

abbrev drafting : Call
drafting = record {
  actor = some (actor editor);
  context = context;
  supply = supply;
  request = draft_from (draft_request none);
}

abbrev drafted : Repository
drafted = (serve gateway drafting empty).1

abbrev locked_down : Repository
locked_down =
    (set_publication_lockdown "event-1" true (actor admin) "corr-2" "req-2" "2026-02-02T00:00:00Z"
      drafted).1

history : History gateway empty locked_down
history =
    History.next (History.next (History.start empty) (Event.served drafting empty))
      (Event.locked true (actor admin) "event-1" "corr-2" "req-2" "2026-02-02T00:00:00Z" drafted)

empty-OneSlug : OneSlug empty
unfolding OneSlug
empty-OneSlug p q mp mq e = elim mp [ ]

empty-AllValid : AllValid formats empty
unfolding AllValid
empty-AllValid p m = elim m [ ]

History-OneSlug_example : OneSlug locked_down
History-OneSlug_example = History-OneSlug gateway empty locked_down history empty-OneSlug

History-Grows_example : Grows empty locked_down
History-Grows_example = History-Grows gateway empty locked_down history

History-AllValid_example : AllValid formats locked_down
History-AllValid_example = History-AllValid gateway empty locked_down history empty-AllValid

serve-Audited_example : Audited formats empty drafted
serve-Audited_example = serve-Audited gateway drafting empty

-- An edit of version 4, when version 5 is stored.
abbrev refused : Call
refused = record drafting { request = edit "pub-1" correction_request }

serve-unchanged_example :
    (serve gateway refused (holding (publication published 5))).1
    ≡ holding (publication published 5)
unfolding running serve_request
serve-unchanged_example =
    serve-unchanged gateway refused (holding (publication published 5)) _ _ refl
