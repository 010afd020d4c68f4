-- ===== src/Auth.antt =====
-- Authentication and authorisation (apps/snx-edge-server/src/api/auth.rs and api/users.rs).
pub mod Permissions
pub mod ClientIp
pub mod Roles
pub mod Server
pub mod Login
pub mod Handlers
pub mod Generations
pub mod Coherent
pub mod Writes
pub mod CacheSteps
pub mod Sessions
pub mod Requests
pub mod Gate
pub mod Bumps
pub mod Revocation
pub mod Lockout
pub mod Issue
mod StaleRole
pub mod Replay
pub mod TestServer
mod Tests
