-- ===== src/Tests/Rules.antt =====
-- The rules of the domain and of the roles, at sample data.
use mayday_dispatch.Prelude.{◌≡◌, refl, ◌↔◌, true, none, some, List, [], ◌∷◌, Memᴰ}
use mayday_dispatch.Tests.{running, formats, actor, publication}
use mayday_dispatch.Gateway.Authorization.{update, editor, assert_can}
use mayday_dispatch.Gateway.Errors.{ok}
use mayday_dispatch.Domain.Lifecycle.{draft, review, ready, published, updated, archived}
use mayday_dispatch.Domain.Publication.{is_valid_publication, parsed_publication}
use mayday_dispatch.Domain.Lifecycle.Paths.{Chain, Visits, release_needs_ready}
use mayday_dispatch.Domain.Blocks.{
  sanitize_public_blocks, Entry, Block, timeline, evidence_reference,
}
use mayday_dispatch.Gateway.Readiness.{validate_publication_readiness}
use mayday_dispatch.Domain.Public.Disclosure.{Projected, to_public_publication-Projected}
use mayday_dispatch.Domain.Blocks.Disclosure.{timeline_is_kept}
use mayday_dispatch.Domain.Public.{project}
use mayday_dispatch.Gateway.Readiness.Criteria.{MayRelease, ready_iff}
use mayday_dispatch.Domain.Parsed.Publication.{is_valid_publication-parsed}
use mayday_dispatch.Gateway.Authorization.Grants.{Granted, assert_can_iff}

assert_can_iff_example :
    (assert_can update (some (actor editor)) (some (publication published 2)) ≡ ok tt)
    ↔ Granted (actor editor) update (some (publication published 2))
assert_can_iff_example =
    assert_can_iff update (actor editor) (some (publication published 2)) (λ e. cc)

ready_iff_example :
    ((validate_publication_readiness (publication ready 2)).ready ≡ true)
    ↔ MayRelease (publication ready 2)
ready_iff_example = ready_iff (publication ready 2)

released_chain : Chain ready archived
unfolding running
released_chain =
    Chain.step ready published refl
      (Chain.step published updated refl (Chain.step updated archived refl (Chain.here archived)))

draft_chain : Chain draft published
unfolding running
draft_chain =
    Chain.step draft review refl
      (Chain.step review ready refl (Chain.step ready published refl (Chain.here published)))

release_needs_ready_example : Visits ready draft_chain
release_needs_ready_example = release_needs_ready draft_chain refl refl

abbrev entry : Entry
entry = record {
  date = "2026-01-01";
  title = "Arrival";
  description = "Two ships arrive.";
  citation_id = none;
  evidence_id = some "ev-2";
}

abbrev blocks : List Block
blocks =
    evidence_reference "b1" "ev-1" (some "Log")
    ∷ evidence_reference "b2" "ev-2" none
    ∷ timeline "b3" "Events" (entry ∷ [])
    ∷ []

timeline_is_kept_example :
    Memᴰ (timeline "b3" "Events" (entry ∷ [])) (sanitize_public_blocks [] blocks)
timeline_is_kept_example =
    timeline_is_kept [] "b3" "Events" (entry ∷ []) blocks (Memᴰ.tail (Memᴰ.tail (Memᴰ.head refl)))

is_valid_publication-parsed_example :
    is_valid_publication formats (parsed_publication (publication draft 1))
    ≡ is_valid_publication formats (publication draft 1)
is_valid_publication-parsed_example = is_valid_publication-parsed formats (publication draft 1)

to_public_publication-Projected_example :
    Projected (publication published 3) (project (publication published 3) none)
unfolding running
to_public_publication-Projected_example =
    to_public_publication-Projected formats (publication published 3)
      (project (publication published 3) none) refl
