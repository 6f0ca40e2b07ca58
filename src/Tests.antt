-- ===== src/Tests.antt =====
-- Concrete runs of the model: a wire format, an upstream and a cache that keep what is asked of them.
pub mod Fixtures
mod Requests
mod Wire
mod Faithful
mod Messages
mod Proxy
mod Fetches
mod Tasks
mod Runs
mod Stored
mod Together
