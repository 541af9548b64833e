-- ===== src/Sync.antt =====
-- backend/api/events/sync.py: the events of the orchestrator are written to the local database.
-- `Events` has the payloads, `Saving` the serializers, `Assets`, `Inputs`, `Tasks` and `Outputs` the
-- handlers, `Dispatch` the table of callbacks and the loop that consumes a channel. The other
-- modules prove what these do.
pub mod Events
pub mod Saving
pub mod Assets
pub mod Inputs
pub mod Tasks
pub mod Outputs
pub mod Dispatch
pub mod Refresh
pub mod Duplicates
pub mod Consuming
pub mod Updates
mod Samples
mod Examples
pub mod Replay
