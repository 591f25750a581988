-- ===== src/Recorder.antt =====
-- src/commercialrchproxy/capture/recorder.py: the jobs of a connection and the live spool.
pub mod Types
pub mod Manager
pub mod Worker
pub mod Steps
pub mod Progress
pub mod Sound
pub mod Flags
pub mod Calls
pub mod Working
pub mod Ending
pub mod Published
pub mod Blocking
mod Tests
