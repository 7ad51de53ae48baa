-- ===== src/Ktp.antt =====
-- The Kyvik Tool Protocol (internal/ktp): declarations, tiers, capabilities, the gate, the registry.
pub mod Tier
pub mod Match
pub mod Path
pub mod Caps
pub mod Gate
pub mod Registry
pub mod Convert
pub mod Schema
mod Tests
