-- ===== src/Tests.antt =====
-- Sample data, and the theorems at concrete inputs.
pub mod Samples
mod Envelopes
mod Caches
mod Sessions
mod Devices
mod Members
mod Sides
mod Plain
mod Separation
mod Accepted
mod Pins
mod Policies
mod Stores
mod Network
