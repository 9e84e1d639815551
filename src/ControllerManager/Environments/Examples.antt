-- ===== src/ControllerManager/Environments/Examples.antt =====
-- Reconciles against the small server.
use netcon_problem_managemen.Prelude.{refl, none, [], ◌∷◌}
use netcon_problem_managemen.Api.{condition_ready}
use netcon_problem_managemen.Condition.{get_problem_environment_condition, get_condition}
use netcon_problem_managemen.ControllerManager.Environments.{reconcile_environment}
use netcon_problem_managemen.ControllerManager.Environments.Branches.{
  Reaction, reconcile_environment-Reaction,
}
use netcon_problem_managemen.ControllerManager.Environments.Readiness.{
  latest, Reports, reconcile_environment-Reports,
}
use netcon_problem_managemen.Samples.{server, scheduler, readings, world, waiting, fresh}

reconcile_environment-Reaction_example :
    Reaction server scheduler readings fresh []
      (reconcile_environment server scheduler readings fresh (world (fresh ∷ []))).1.writes
reconcile_environment-Reaction_example =
    reconcile_environment-Reaction server scheduler readings fresh (world (fresh ∷ []))

reconcile_environment-Reports_example :
    let pe = waiting "e" in
    Reports none (
      get_problem_environment_condition
        (latest pe (reconcile_environment server scheduler readings pe (world (pe ∷ []))).1.writes)
        condition_ready)
unfolding get_problem_environment_condition get_condition
reconcile_environment-Reports_example =
    reconcile_environment-Reports server scheduler readings (waiting "e") (world (waiting "e" ∷ []))
      refl refl refl
