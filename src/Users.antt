-- ===== src/Users.antt =====
-- The user store (apps/snx-edge-server/src/db.rs, apps/snx-edge-types/src/users.rs). A table is the
-- list of its rows; instants are numbers. The ids that `Uuid::new_v4` makes and the current time are
-- arguments.
pub mod Store
pub mod Rows
pub mod State
pub mod LastAdmin
pub mod Reachable
pub mod TestStore
mod Tests
