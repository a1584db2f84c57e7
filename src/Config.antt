-- ===== src/Config.antt =====
-- pkg/config: the manager of the connection to the control plane.
pub mod Plane
pub mod Clients
pub mod Manager
pub mod Retry
pub mod Locks
pub mod Lawful
pub mod Refresh
pub mod Operations
