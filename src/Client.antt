-- ===== src/Client.antt =====
-- The terminal client, 2_c/client.c: what the user types, the request that it makes, and a pass of the
-- loop of `main`.
pub mod Input
pub mod Menu
pub mod Reader
pub mod Response
pub mod Writer
pub mod Messages
pub mod Screen
pub mod Session
pub mod Lines
pub mod Building
pub mod Asked
pub mod Framing
pub mod Copies
pub mod Conversation
