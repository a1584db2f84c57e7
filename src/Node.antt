-- ===== src/Node.antt =====
-- pkg/node: the CSI node service.
pub mod Host
pub mod Mount
pub mod Systemd
pub mod Ublk
pub mod Info
pub mod State
pub mod Server
pub mod Stage
pub mod Publish
pub mod Service
pub mod Lifecycle
pub mod Returns
pub mod Atomic
pub mod Concurrent
