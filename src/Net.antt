-- ===== src/Net.antt =====
-- src/client/bridge.c, the transport: what the client's callbacks make of libcurl's transfers.
pub mod Slot
pub mod Receive
pub mod Upload
pub mod Outcome
pub mod Header
mod Tests
pub mod Start
