-- ===== src/Notifications.antt =====
-- src/client/notifications.c: the desktop notifications of the client, over an asynchronous D-Bus.
pub mod Image
pub mod State
pub mod Callbacks
pub mod Requests
pub mod Events
pub mod Slots
pub mod Kept
pub mod Dismissal
pub mod Uniqueness
pub mod Eviction
pub mod Balance
pub mod References
mod Tests
