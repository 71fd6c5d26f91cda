-- ===== src/Files.antt =====
-- src/relay/uploads.c and src/client/outgoing.c: the private files of uploads, on the relay and on
-- the client, over the kernel's answers.
pub mod Kernel
pub mod Descriptors
pub mod Answered
pub mod Read
pub mod Write
pub mod Uploads
pub mod Outgoing
mod Tests
