-- ===== src/Live.antt =====
-- frontend/src/app/liveSnapshotSync.ts: the live connection and the reloads that it asks for. The
-- record holds the object's fields and, below them, its environment: how many event sources were
-- made and which are not closed, the pending timers (one set for each of the two callbacks), the
-- loads that have not answered and those whose `finally` has yet to run, and the effects, newest
-- first. Numbers stand for the identity of event sources.
pub mod Defs
pub mod Streams
pub mod Recovery
pub mod Announced
pub mod CatchingUp
pub mod Silence
pub mod Page
pub mod Showing
pub mod Keeping
mod Tests
pub use Defs.{
  EventPayload, Effect, connection, delivered, failed, opened, Sync, new, Event, started, disposed,
  source_opened, source_failed, message, reconnect_due, retry_due, loaded, load_failed,
  load_finished,
}
