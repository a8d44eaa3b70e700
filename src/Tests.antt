-- ===== src/Tests.antt =====
-- Concrete documents, schedulers and requests, and the theorems applied to them.
mod Samples
mod Documents
mod Observations
mod Plans
mod Gates
mod Calls
mod Servers
mod Stores
mod Redirections
mod Streams
mod Sessions
mod Accounts
mod Tunnels
mod Bodies
mod Agents
mod Frames
