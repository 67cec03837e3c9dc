-- ===== src/Tests/Registry.antt =====
-- The evidence registry at the sample evidence.
use mayday_dispatch.Prelude.{none, []}
use mayday_dispatch.Tests.{formats, evidence}
use mayday_dispatch.Evidence.Registry.{Registry, register}

abbrev blank : Registry
blank = record { evidence = []; answers = [] }

abbrev pub filled : Registry
filled = (register formats evidence none blank).1
