-- ===== src/Dstore.antt =====
-- internal/dstore: splitting files over the devices of the mesh, and restoring them.
pub mod Placement
pub mod Chosen
pub mod Transfer
pub mod Process
pub mod Pipeline
pub mod Fuel
pub mod Original
pub mod Restore
pub mod Walk
pub mod RoundTrip
pub mod Directory
pub mod Kept
pub mod Progress
pub mod Paths
pub mod Devices
