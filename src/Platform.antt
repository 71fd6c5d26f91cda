-- ===== src/Platform.antt =====
-- src/platform.c: the system services of the relay and the client, as they are on Linux.
pub mod Spawn
pub mod Secrets
mod Tests
