-- ===== src/Profiles.antt =====
-- The profiles of the VPN connections: their secrets, their rows and their handlers.
pub mod Secrets
pub mod Undo
pub mod RoundTrip
pub mod Cleartext
pub mod Store
pub mod Stored
pub mod Handlers
pub mod Veiled
pub mod Masking
pub mod AtRest
pub mod Keys
pub mod Transfer
pub mod Verified
pub mod TestCipher
mod Tests
