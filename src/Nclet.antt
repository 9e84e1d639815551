-- ===== src/Nclet.antt =====
-- controllers/nclet: the agent that runs on a Worker.
pub mod Environments
pub mod Ssh
pub mod Heartbeat
pub mod Drivers
