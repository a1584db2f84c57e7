-- ===== src/Controller.antt =====
-- pkg/controller: the CSI controller service.
pub mod Server
pub mod Service
pub mod Create
pub mod Names
pub mod Delete
pub mod Idempotent
pub mod Publish
pub mod History
