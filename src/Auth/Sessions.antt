-- ===== src/Auth/Sessions.antt =====
-- Sessions, durable credentials and access tokens: prisma-auth-repository.ts, from
-- `revokeSessionFamily` and `createSessionBundle` on.
-- `rotate_found` and `authenticate_found` start from rows that have been read already, so that
-- another transaction's writes may stand between the reading and the writing.
mod Rows
mod Bundles
mod Rotating
mod Access
pub mod Family
pub mod Ended
pub mod Replay
pub mod Reuse
pub mod Apart
pub mod Everywhere
pub mod Single
pub mod Generations
pub mod Opened
pub mod Accepted
mod Tests
unfoldable pub use Rows.*
unfoldable pub use Bundles.*
unfoldable pub use Rotating.*
unfoldable pub use Access.*
