-- ===== src/Parser.antt =====
-- src/commercialrchproxy/parser/worker.py: the workers that process the jobs of the spool.
pub mod Job
pub mod Commit
pub mod Workers
pub mod Facts
pub mod Committing
pub mod Claiming
pub mod Owners
pub mod Publishing
pub mod Reporting
pub mod Interrupted
pub mod Sound
pub mod Fencing
pub mod FencedSteps
pub mod Leases
mod Tests
