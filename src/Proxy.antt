-- ===== src/Proxy.antt =====
-- src/commercialrchproxy/proxy/streams.py: one direction of the relay.
pub mod Pump
pub mod Relay
mod Tests
pub mod Session
pub mod Observer
pub mod Orderly
pub mod PumpEnds
pub mod Delivered
mod SessionTests
