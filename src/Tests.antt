-- ===== src/Tests.antt =====
-- Runs at concrete inputs: the theorems applied, where their conditions hold.
pub mod Base
pub mod Pixels
mod Texts
mod Tiles
mod Engines
mod Workers
pub mod Calibrations
mod Presets
pub mod Startups
mod Locks
mod Clients
pub mod Patches
pub mod Loadings
mod Starts
