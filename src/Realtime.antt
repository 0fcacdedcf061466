-- ===== src/Realtime.antt =====
-- src/realtime.rs: the pollers that turn a paged message list into a stream without repeats.
pub mod Config
pub mod Seen
pub mod Page
pub mod Poller
pub mod Rooms
