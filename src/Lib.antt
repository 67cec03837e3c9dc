-- ===== src/Lib.antt =====
-- Dispatch publishes reports. Editors and external applications work on publications through the
-- publication gateway, which checks rights, versions and schemas and stores each change in the
-- publication repository together with an audit event; the public site reads snapshots that were
-- made at a release. A worker takes in observations of the news from another service and keeps them
-- in a cache, where operators review which of them the public feed may show.
--
-- The parts, and the files that model them (paths of the program are from the repository's root):
--
-- * Domain/ models src/domain/. Domain/Lifecycle.antt has the lifecycle states and
--   `canTransitionLifecycle`, Domain/Citation.antt and Domain/Publication.antt the records and
--   schemas of src/domain/publication.ts, Domain/Public.antt its `toPublicPublication` with the
--   response schema of src/application/publication-gateway/dto.ts, and Domain/Blocks.antt with
--   Domain/Blocks/Schema.antt the blocks of src/domain/content-blocks.ts. A schema is two functions:
--   `is_valid_…` tells whether it accepts a value, and `parsed_…` is its output, in which texts are
--   trimmed. Domain/Patterns.antt has the regular expressions as functions on the codes of a text.
--   Domain/Json.antt has the JSON values of `extensions`.
-- * Audit.antt models src/audit/events.ts, Evidence.antt the schema of src/evidence/registry.ts and
--   Evidence/Registry.antt its registry in memory.
-- * Gateway/ models src/application/publication-gateway/: Authorization.antt, Errors.antt,
--   Readiness.antt and Dto.antt the files of the same names, and Service.antt with its children the
--   class of service.ts: Draft.antt is `createDraft`, Update.antt `update`, Attach.antt
--   `attachEvidence`, Transition.antt `transition`, and Read.antt the reads. History.antt has the
--   sequences of requests and lockdowns.
-- * Repository.antt and its children model src/publications/repository.ts. For the repository in
--   memory, Save.antt is `save`, Snapshots.antt the public snapshots, and Control.antt the lockdown.
--   For the one in SQLite, Sqlite.antt has the tables, Sqlite/Rows.antt and Sqlite/Save.antt `save`,
--   Sqlite/Read.antt `readPublication` and the finders, Sqlite/Evidence.antt the registered evidence,
--   and Sqlite/Released.antt the manifests, the snapshots, the histories and the lockdown.
--   Sqlite/Represents.antt says when tables stand for a repository in memory.
-- * EvidenceGateway.antt models the authorization policy and `update` of
--   src/application/evidence-gateway/.
-- * Observations.antt and its children model src/news-observations/: Observations.antt with
--   Schema.antt and Normal.antt is contract.ts, Provider.antt provider.ts, Cache.antt with
--   Cache/Apply.antt and Sync.antt the cache and the synchronizer of synchronized-cache.ts,
--   Consumer.antt and Consumer/Requests.antt live-consumer.ts, and Worker.antt sync-worker.ts. The
--   synchronizer takes its provider as an argument, a function with a state, which
--   `list_for_synchronization` of the consumer is; the worker takes one call of the synchronizer in
--   the same way.
-- * Prelude.antt has what all of them share, and Tests/ runs the definitions on sample data.
--
-- State and errors. The state is a record: `Repository`, `Database`, `Cache`, `Consumer`, `Worker`.
-- An exception is a value of `Failure`, and a computation that may throw returns a `Result`. A step
-- takes the state and returns a result and a state: what was written before an exception stays
-- written. An operation of the gateway first decides on a `Plan` (`prepare_…`), with the guards in
-- the order of the source, and then `perform` writes and answers, which is the order of the source
-- too. A request runs alone: the methods in memory await nothing between the check of a version and
-- the write, and SQLite runs a transaction by itself. A transaction that throws is rolled back, so
-- it returns a result with the new database inside and no database beside an error.
--
-- A table is a list of rows in the order of insertion. A statement that breaks a key or a reference
-- that the migrations declare throws, and ORDER BY is a stable sort by a comparison.
--
-- Parameters. What zod decides about the formats uuid, date and datetime, and what the platform's
-- `URL` parses, is the record `Formats`; what it does with dates, case and the order of texts is the
-- record `Platform`. The hashes of a snapshot, of a request and of an observation are functions, and
-- so is the look-up in the evidence registry. The service that the consumer calls is the record
-- `Transport`. New ids and readings of the clock are arguments. What is assumed of a parameter is a
-- hypothesis of the theorem that needs it.
--
-- Recursion is structural. The loops that a bound of the program ends (the pages of a
-- synchronization, the attempts of a request and of a run) recurse on what the bound leaves, so they
-- run as often as the source's. Only `follow`, a client of the fixture provider, has fuel of its own:
-- one more than there are observations is enough, as each page that is not the last has one. Numbers
-- are natural numbers: the schemas ask for positive integers, and the source only adds to them.
--
-- Not modelled: the search and the detail of evidence, the other operations of the evidence gateway,
-- the provider that reads the cache against the clock, the HTTP transport of the live consumer, what
-- a synchronization still does when it has lost against the time limit of a run of the worker, the
-- routes and sessions, the clients of other applications, public queries, and the pages of the site.
-- The health reports, the migrations and the reading of the environment are input and output.

pub mod Prelude
pub mod Domain
pub mod Audit
pub mod Evidence
pub mod Gateway
pub mod Repository
pub mod Tests
pub mod EvidenceGateway
pub mod Observations
