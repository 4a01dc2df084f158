-- ===== src/Lib.antt =====
-- A model of the core of SME_DATA_CENTER, a data center for small enterprises: who may read which
-- business resource, and how an account signs in, keeps a session and loses it.
--
-- The parts and their files:
--   Authorization          packages/domain/src/business-authorization.ts: `validateBusinessGrant`,
--                          `validateBusinessScope`, `canReadResource`, each a function of the same
--                          name. Its children state what a selection, a grant and the decision mean.
--   Authorization/Sql      packages/db/src/business-authorization-sql.ts: `compileAuthorizedScope`, as the
--                          condition that its SQL states of a resource.
--   Auth/Schema            packages/db/prisma/schema.prisma: the rows of the authentication tables as
--                          records, the tables as lists in one record `Db`, unique keys as checks of
--                          the creations, security events as a log.
--   Auth/Sessions          apps/api/src/auth/prisma-auth-repository.ts: sessions, durable credentials
--                          and access tokens.
--   Auth/Login             the same file and apps/api/src/auth/auth-core.ts, primitives.ts: password
--                          login with its progressive cooldown.
--   Auth/Devices           the same repository: device authorizations.
--   Auth/Setup             the same repository: setup grants, setup sessions and new passwords.
--   Auth/Browser           apps/api/src/auth/prisma-browser-session.ts and browser-session.ts.
--   Auth/Core              apps/api/src/auth/auth-core.ts: `AuthCore` on the repository, with its
--                          lifetimes.
--   Auth/History           any sequence of those operations on one database, for what holds in every
--                          history; Auth/Forever and Auth/Ending draw the conclusions.
--   Chunker                apps/worker/src/chunking/evidence-chunker.ts: the split of long blocks;
--                          Chunker/Evidence: `createEvidenceChunks`, its variables as a record.
--   Downloads/Schema       the tables of packages/db/src/partition-downloads.ts, and
--                          `enqueueStorageGarbage` of packages/db/src/storage-garbage.ts.
--   Downloads/Requests     partition-downloads.ts: `terminate`, `expireRow`, `contentCurrent`,
--                          `checkContent`, and `fenced` with the worker's lease.
--   Downloads/Workers      the same file: `markRunning` to `publish`, `publicStatus`, `internal`.
--   Downloads/Prepare      the same file: `prepare` with `authority` and `manifest`.
--   Downloads/Access       the same file: `read`, `issueCurrent`, `validateCurrent`.
--   Downloads/Sweep        the same file: `expire`, `invalidatePartitionDownloadsForPartitions`.
--   Downloads/Limits       packages/domain/src/partition-downloads.ts and runtime-limits.ts:
--                          `loadPartitionDownloadLimits`.
--   Downloads/History      any sequence of those operations. Downloads/Transitions is the abstract
--                          view, the table of requests with the steps that it may take, and
--                          Downloads/Refinement takes the operations apart into those steps.
--                          Downloads/Access/Conditions says of the tables what `issueCurrent` asks
--                          for, and Decided and Counted beside it that its tests decide that.
--   Retry                  packages/db/src/retry.ts: `retryIdempotentDatabaseOperation`.
--   Common                 what the modules share: tests, lists, tables and texts.
--
-- How the code is read: a transaction is a function from a database to a result with the database
-- after it; one that throws leaves the database as it was. Ids, hashes and names that are only
-- compared are numbers, times are milliseconds, and ids that the database generates are arguments.
-- Texts that the code takes apart are lists of UTF-16 units. An operation that reads a row and then
-- writes has a part that starts from the row it read (`rotate_found` and the like), where the writes
-- of another transaction may stand between. Functions are structural; only the slices of a
-- long word (`slices`) run on fuel, the length of the word, which is enough: each slice takes at
-- least one unit where the bound is positive. The attempts of Retry run on fuel too, for which three is
-- enough. Each reading of the clock by the partition downloads may give any time (`Times`), also at
-- each turn of the loops of `expire` and `invalidatePartitionDownloadsForPartitions` (`Rounds`).
--
-- Not modelled: argon2 and SHA-256 (parameters: `Crypto`, and the hash and digest of the browser sessions),
-- random secrets (arguments), the ids of chunks, HTTP, the web interface, the rest of the worker, the
-- ledger archive and structured queries. The partition downloads take the texts of ids, SHA-256 and the
-- SQL of readable partitions as parameters (`Env`), and scopes in their canonical form.
pub mod Auth
pub mod Authorization
pub mod Chunker
pub mod Common
pub mod Downloads
pub mod Retry
