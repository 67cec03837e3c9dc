-- ===== src/Repository/Sqlite/Refines.antt =====
-- src/publications/repository.ts: the repository in SQLite against the repository in memory.
use mathlib.Core.Option
use mayday_dispatch.Prelude.{Option, List}
use mayday_dispatch.Domain.Publication.{Publication}
use mayday_dispatch.Repository.{Repository, ok}
use mayday_dispatch.Gateway.Errors.{ok}
use mayday_dispatch.Repository.Sqlite.Save.Steps.{Core}
use mayday_dispatch.Repository.Sqlite.Represents.{Represents}
