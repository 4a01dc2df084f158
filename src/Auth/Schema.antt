-- ===== src/Auth/Schema.antt =====
-- The tables that apps/api/src/auth reads and writes (packages/db/prisma/schema.prisma), and the
-- writes that its transactions are made of.
-- Row ids, hashes, client ids and the like are compared and never taken apart: they are numbers.
-- Times are milliseconds. The ids that the database generates are arguments of the operations that
-- create rows. A transaction that fails (`err`) leaves the database as it was.
mod Tables
mod Writes
pub mod Creation
pub mod Sample
unfoldable pub use Tables.*
unfoldable pub use Writes.*
