-- ===== src/Tests.antt =====
-- Runs of the model, and the theorems at concrete inputs.
pub mod Instances
pub mod Loads
mod Parts
mod Together
pub mod Tables
mod Mutations
mod Stores
mod Tiered
pub mod Caches
mod Connections
pub mod Demos
mod Machines
mod Invalidators
mod Derives
mod Graphqls
mod Clients
