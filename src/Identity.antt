-- ===== src/Identity.antt =====
-- internal/identity: the ids that name a conversation and a request to the upstream.
pub mod Session
pub mod Cache
pub mod Clients
pub mod UserAgent
