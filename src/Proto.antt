-- ===== src/Proto.antt =====
-- src/proto.c: the request and response formats.
pub mod Buffer
pub mod Options
pub mod Listing
