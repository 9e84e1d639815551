-- ===== src/ControllerManager.antt =====
-- controllers/controller-manager: the election of a worker, the reconciler of ProblemEnvironments,
-- the reconciler of Problems, and the health monitor of Workers.
pub mod Election
pub mod Environments
pub mod Workers
pub mod Problems
pub mod Metrics
