-- ===== src/Storage.antt =====
-- src/commercialrchproxy/storage: the job codes of a printer.
pub mod Counter
pub mod Codes
pub mod Sequence
mod Tests
