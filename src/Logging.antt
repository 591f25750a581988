-- ===== src/Logging.antt =====
-- src/commercialrchproxy/logging/structured.py: the bounded queue of log records.
pub mod Queue
pub mod Retention
mod Tests
