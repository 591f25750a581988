-- ===== src/Receipt.antt =====
-- src/commercialrchproxy/rch/receipt_parser.py: what is made of the frames of both directions.
pub mod Correlate
pub mod Correlation
pub mod Budget
mod Tests
pub mod Issues
pub mod Patterns
pub mod Amounts
pub mod Model
pub mod Builder
pub mod Fields
pub mod Commercial
pub mod Assembly
pub mod Documents
pub mod Kept
pub mod Boundaries
pub mod Sound
pub mod Outline
pub mod Lockstep
pub mod Alike
pub mod Messages
pub mod Numbering
pub mod Counters
pub mod Support
pub mod Answers
pub mod Supported
pub mod Subtypes
pub mod Copies
pub mod Chunks
pub mod Protocol
pub mod Bounds
pub mod OneChunk
pub mod Digits
pub mod Cents
mod DocumentTests
mod CopyTests
mod ProtocolTests
