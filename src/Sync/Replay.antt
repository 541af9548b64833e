-- ===== src/Sync/Replay.antt =====
-- What happens when an event is delivered again to `sync_on_event_message` of
-- backend/api/events/sync.py. The consumer of backend/api/events/reactor.py saves the id of the last
-- event after the event's transaction, so an event can be delivered again after a crash.
pub mod Saved
pub mod Assets
pub mod Plans
pub mod Insertion
pub mod Tasks
pub mod Creation
pub mod Events
