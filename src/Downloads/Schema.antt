-- ===== src/Downloads/Schema.antt =====
-- The tables that packages/db/src/partition-downloads.ts reads and writes, as far as it does
-- (packages/db/prisma/schema.prisma).
-- Ids, names, days and the like are compared and never taken apart: they are numbers, in the order
-- that the database gives their texts. Object keys, idempotency keys and the checksum of an artifact
-- are texts, since the code looks into them. Times are milliseconds.
mod Tables
mod Writes
unfoldable pub use Tables.*
unfoldable pub use Writes.*
