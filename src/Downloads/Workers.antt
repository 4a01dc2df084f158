-- ===== src/Downloads/Workers.antt =====
-- What a worker does with its lease: markRunning, recordProgress, fail, registerCandidate and publish.
mod Views
mod Running
mod Publishing
unfoldable pub use Views.*
unfoldable pub use Running.*
unfoldable pub use Publishing.*
