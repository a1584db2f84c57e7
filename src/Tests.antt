-- ===== src/Tests.antt =====
-- Runs of the model, and the theorems at concrete data.
mod Memory
mod Config
mod Controller
mod Machine
mod Mount
mod Info
mod Node
mod Driver
mod Startup
mod Commands
mod Concurrent
mod Handover
