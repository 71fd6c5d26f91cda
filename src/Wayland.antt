-- ===== src/Wayland.antt =====
-- src/client/desktop/wayland.c: the raw drop device beside SDL's.
pub mod State
pub mod Device
pub mod Globals
pub mod Offers
pub mod Safety
pub mod Limits
pub mod Delivery
mod Tests
