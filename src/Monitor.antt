-- ===== src/Monitor.antt =====
-- frontend/src/app/monitorState.ts: drafts of monitors, their validation, and the texts that the
-- monitor panel shows.
pub mod Parse
pub mod Decimal
pub mod Draft
pub mod Validate
pub mod Sound
pub mod RoundTrip
pub mod Labels
mod Targets
mod Tests
