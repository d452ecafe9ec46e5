-- ===== src/Program.antt =====
-- main.c: what runs around the FUSE operations.
pub mod Options
pub mod Root
pub mod Message
pub mod Main
