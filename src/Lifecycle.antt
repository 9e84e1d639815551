-- ===== src/Lifecycle.antt =====
-- One ProblemEnvironment under all its actors: the controller manager, nclet, the gateway, the plugin
-- and users who edit it. A step is a write that the server accepts; the server's resource versions let
-- a write through only if it was made from the stored object, so a step starts from that object. An
-- accepted update leaves the status as it is, an accepted status update all the rest: the documented
-- behaviour of the status subresource.
pub mod Fixed
pub mod Actors
pub mod Settled
pub mod Sound
pub mod Machine
pub mod Metas
pub mod Guarded
pub mod Protected
pub mod Completed
mod Examples
use netcon_problem_managemen.Prelude.{ℕ, String, ◌≡◌, true, ◌∷◌, ok}
use netcon_problem_managemen.Api.{ProblemEnvironment}
use netcon_problem_managemen.Kube.{
  Client, World, Write, update_environment, update_environment_status,
}
use netcon_problem_managemen.Webhook.{validate_update}
use netcon_problem_managemen.ControllerManager.Environments.{
  Scheduler, Readings, reconcile_environment,
}
use netcon_problem_managemen.Nclet.Environments.{Driver, Finalizers, reconcile_instance}
use netcon_problem_managemen.Gateway.{is_available}
use netcon_problem_managemen.Gateway
use netcon_problem_managemen.Plugin.{assign, unassign}

-- The stored object after an accepted write.
unfoldable pub stored : Write → ProblemEnvironment → ProblemEnvironment
stored (update_environment new) pe = record pe { meta = new.meta; spec = new.spec }
stored (update_environment_status new) pe = record pe { status = new.status }
stored _ pe = pe

module _ {C F : Type 0} (k : Client C) (scheduler : Scheduler F) (driver : Driver C)
    (finalizers : Finalizers) where
  pub data Step (pe : ProblemEnvironment) : ProblemEnvironment → Type 0 where
    controlled :
        (readings : Readings F) (w : World C) {write : Write}
        → (reconcile_environment k scheduler readings pe w).1.writes ≡ write ∷ w.writes
        → Step pe (stored write pe)
    served :
        (own_name elapsed : String) (now : ℕ → ℕ) (w : World C) {write : Write}
        → (reconcile_instance k driver finalizers own_name elapsed now pe w).1.writes
          ≡ write ∷ w.writes
        → Step pe (stored write pe)
    acquired :
        (now : ℕ)
        → is_available pe ≡ true
        → Step pe (stored (update_environment_status (Gateway.assigned now pe)) pe)
    commanded :
        (namespace name : String) (now : ℕ) (w : World C) {write : Write}
        → (k.get_problem_environment namespace name w.cluster).0 ≡ ok pe
        → (assign k namespace now name w).1.writes ≡ write ∷ w.writes
        → Step pe (stored write pe)
    unassigned :
        (namespace name : String) (now : ℕ) (w : World C) {write : Write}
        → (k.get_problem_environment namespace name w.cluster).0 ≡ ok pe
        → (unassign k namespace now name w).1.writes ≡ write ∷ w.writes
        → Step pe (stored write pe)
    edited :
        (new : ProblemEnvironment)
        → validate_update pe new ≡ ok tt
        → Step pe (stored (update_environment new) pe)

  -- The histories of accepted writes from one version to another.
  pub data Reachable (pe : ProblemEnvironment) : ProblemEnvironment → Type 0 where
    at_once : Reachable pe pe
    then_step : {old new : ProblemEnvironment} → Reachable pe old → Step old new → Reachable pe new
