-- ===== src/Security.antt =====
-- The intrusion detection of src/modules/security/mod.rs.
pub mod Address
pub mod Quarantine
pub mod Engine
pub mod Flood
pub mod Names
pub mod Inspection
pub mod Hosts
mod Examples
pub mod InspectionExamples
