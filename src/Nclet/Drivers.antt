-- ===== src/Nclet/Drivers.antt =====
-- controllers/nclet/drivers: the two implementations of the driver that nclet's reconciler takes.
pub mod Noop
pub mod Files
pub mod Topology
pub mod Network
pub mod Containerlab
mod Examples
