-- ===== src/Framing.antt =====
-- src/commercialrchproxy/rch/framing.py: the model, its specification, and the proofs.
pub mod Types
pub mod Scan
pub mod Bcc
pub mod Framer
pub mod Process
pub mod Moves
pub mod Tally
pub mod NewFrames
pub mod Spec
pub mod Skipping
pub mod Decisions
pub mod Reading
pub mod Rounds
pub mod Segmentation
pub mod Feeding
pub mod Finishing
pub mod Contract
pub mod Assess
pub mod Checksum
pub mod BuiltStream
pub mod RoundTrip
mod Tests
