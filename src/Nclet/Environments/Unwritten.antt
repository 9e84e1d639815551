-- ===== src/Nclet/Environments/Unwritten.antt =====
-- A deployment whose mark is not written.
use netcon_problem_managemen.Prelude.{
  refl, ℕ, String, none, false, ◌==◌, ◌≡◌, ◌≢◌, true, ◌∷◌, eq_iff, arith,
}
use netcon_problem_managemen.Api.{
  ProblemEnvironment, condition_scheduled, condition_deployed, condition_true,
}
use netcon_problem_managemen.Condition.{
  is_true, set_problem_environment_condition, get_problem_environment_condition,
}
use netcon_problem_managemen.Condition.Laws.{is_true_iff}
use netcon_problem_managemen.Kube.{Client, World, deploy_instance}
use netcon_problem_managemen.Nclet.Environments.{
  status_init, Driver, Finalizers, update_container_status, check, deploy, reconcile_instance,
}
use netcon_problem_managemen.Nclet.Environments.Refresh.{same_containers_iff}
use netcon_problem_managemen.Nclet.Environments.Duties.{Mine, marked_deployed}

pub reaches_deploy :
    {C : Type 0} (k : Client C) (driver : Driver C) (finalizers : Finalizers)
    (own_name elapsed : String) (now : ℕ → ℕ) (pe : ProblemEnvironment) (w : World C)
    → Mine k driver finalizers own_name elapsed now pe
    → pe.meta.deletion_timestamp ≡ none
    → finalizers.contains pe ≡ true
    → get_problem_environment_condition pe condition_deployed ≢ condition_true
    → reconcile_instance k driver finalizers own_name elapsed now pe w
      ≡ deploy k driver finalizers own_name elapsed now pe w
unfolding reconcile_instance
reaches_deploy k driver finalizers own_name elapsed now pe w mine live contained pending =
    let on : is_true (get_problem_environment_condition pe condition_scheduled) ≡ true =
      ground (arith, is_true_iff (get_problem_environment_condition pe condition_scheduled)) in
    let here : (pe.spec.worker_name == own_name) ≡ true =
      ground (arith, eq_iff pe.spec.worker_name own_name) in
    let down : is_true (get_problem_environment_condition pe condition_deployed) ≡ false =
      ground (arith, is_true_iff (get_problem_environment_condition pe condition_deployed)) in
    ground arith

-- The Deployed condition is set on the fetched copy, and the copy is written only if the containers
-- change. Where the driver reports after the deployment the containers that the status already has,
-- such as none, the deployment is made and nothing is sent: the stored environment is still not
-- marked as deployed.
pub deploy_forgets :
    {C : Type 0} (k : Client C) (driver : Driver C) (finalizers : Finalizers)
    (own_name elapsed : String) (now : ℕ → ℕ) (pe : ProblemEnvironment) (w : World C)
    → Mine k driver finalizers own_name elapsed now pe
    → pe.meta.deletion_timestamp ≡ none
    → finalizers.contains pe ≡ true
    → get_problem_environment_condition pe condition_deployed ≢ condition_true
    → (driver.check pe w.cluster).0.0 ≡ status_init
    → (driver.check
        (marked_deployed k driver finalizers own_name elapsed now pe)
        (driver.deploy pe (driver.check pe w.cluster).1).1).0.1
      ≡ pe.status.containers
    → let w' = (reconcile_instance k driver finalizers own_name elapsed now pe w).1 in
      (w'.commands ≡ deploy_instance pe ∷ w.commands) × (w'.writes ≡ w.writes)
deploy_forgets {C} k driver finalizers own_name elapsed now pe w mine live contained pending init
      same =
    let to_deploy : reconcile_instance k driver finalizers own_name elapsed now pe w
        ≡ deploy k driver finalizers own_name elapsed now pe w =
      reaches_deploy k driver finalizers own_name elapsed now pe w mine live contained pending in
    let marked : ProblemEnvironment = marked_deployed k driver finalizers own_name elapsed now pe in
    let kept : marked.status.containers ≡ pe.status.containers =
      unfold set_problem_environment_condition in refl in
    let c : C = (driver.deploy pe (driver.check pe w.cluster).1).1 in
    rw to_deploy (
      unfold deploy check update_container_status in
      ground (arith, same_containers_iff (driver.check marked c).0.1 marked.status.containers))
