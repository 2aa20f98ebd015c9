-- ===== src/Client.antt =====
-- frontend/src/api/client.ts: the requests that the page sends, and what becomes of their answers.
-- fetch is the environment: a request is a value, and its answer is an argument.
pub mod Uri
pub mod Utf8
pub mod Decoding
pub mod Endpoints
pub mod Outcome
pub mod Routes
pub mod Events
mod Rejecting
mod Tests
