-- ===== src/Text.antt =====
-- src/client/bridge.c, the text functions: what the client computes over Pango's shaped lines.
pub mod Measure
pub mod Hit
pub mod Boundary
pub mod Word
mod Tests
