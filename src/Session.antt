-- ===== src/Session.antt =====
-- frontend/src/app/App.tsx, the component AppContent: its state, and its handlers as steps.
pub mod State
pub mod Selecting
pub mod Saving
pub mod Steps
pub mod Exclusion
pub mod Showing
pub mod Deleting
pub mod Notices
pub mod Dragging
pub mod Dropping
pub mod Placing
pub mod Monitoring
pub mod Submitting
mod Tests
