-- ===== src/Capture.antt =====
-- src/commercialrchproxy/capture: the copy that is kept of the bytes of a connection.
pub mod Types
pub mod Jobs
pub mod Stream
pub mod Traffic
pub mod Stored
pub mod Calls
pub mod Drains
pub mod Counting
pub mod Status
pub mod Streaming
mod Tests
