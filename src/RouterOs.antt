-- ===== src/RouterOs.antt =====
-- The RouterOS side of the server (apps/snx-edge-server/src/routeros).
pub mod Comment
pub mod Device
pub mod Client
pub mod Provisioner
pub mod Setup
pub mod Keeps
pub mod Survival
pub mod Progress
pub mod Operator
pub mod Removal
pub mod FailClosed
pub mod Status
pub mod TestRouter
mod Tests
