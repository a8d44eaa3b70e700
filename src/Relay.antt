-- ===== src/Relay.antt =====
-- internal/relay: the frames of a streamed reply.
pub mod Frames
