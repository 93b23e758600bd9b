-- ===== src/Sync.antt =====
-- Synchronisation: server/src/transport/http/sync.rs, on the in-memory store.
-- `Receipt` and `Parse` are the helpers, `Account`, `Transaction`, `Push`, `Pull` and `Bootstrap`
-- the handlers; the other modules are about them.
pub mod Receipt
pub mod Parse
pub mod Account
pub mod Transaction
pub mod Push
pub mod Pull
pub mod Bootstrap
pub mod Refusals
pub mod Effects
pub mod Replay
pub mod Log
pub mod Paging
pub mod Invariant
pub mod DoubleEntry
pub mod Frame
pub mod Versions
pub mod Hierarchy
pub mod References
pub mod Creation
pub mod Capture
pub mod Access
pub mod Pages
pub mod Commits
pub mod HighWater
