-- ===== src/Nclet/Environments/Examples.antt =====
-- Reconciles of nclet on the worker w1.
use netcon_problem_managemen.Lifecycle.Completed.{released, release_completes}
use netcon_problem_managemen.Lifecycle.Machine.{Move, reconciled, unwritten, none_yet, then_move}
use netcon_problem_managemen.Kube.{
  World, update_environment, update_environment_status, failed, deploy_instance,
}
use netcon_problem_managemen.Samples.Machine.{Site, site, site_server, there}
use netcon_problem_managemen.Prelude.{false, refl, ne_of_==, none, ok, ◌≡◌, ◌∷◌, [], arith, ℕ, err}
use netcon_problem_managemen.Condition.{
  is_true, get_problem_environment_condition, get_condition, set_problem_environment_condition,
}
use netcon_problem_managemen.Nclet.Environments.{
  same_containers, Driver, update, deploy, check, update_container_status, reconcile_instance,
  status_init,
}
use netcon_problem_managemen.Lifecycle.{stored}
use netcon_problem_managemen.Api.{
  ProblemEnvironment, condition_scheduled, condition_true, condition_deployed,
}
use netcon_problem_managemen.Lifecycle.Guarded.{Guarded}
use netcon_problem_managemen.Lifecycle.Protected.{instance-Guarded}
use netcon_problem_managemen.Samples.{
  environment, condition, server, scheduler, Store, world, deleting,
}
use netcon_problem_managemen.Samples.Nclet.{
  listed, tiny, tiny-Instances, listed-FinalizerLaws, site_server-Untouched, undeployed,
}
use netcon_problem_managemen.Nclet.Environments.Duties.{Duty, reconcile_instance-Duty}
use netcon_problem_managemen.Nclet.Environments.Instances.{unmarked_fails}

-- A driver whose deployments do nothing.
abbrev broken : Driver Store
broken = record {
  check = λ pe s. ((status_init, none), s);
  deploy = λ pe s. (err (failed "pull failed"), s);
  destroy = λ pe s. (ok tt, s);
}

abbrev clock : ℕ → ℕ
clock i = 500

reconcile_instance-Duty_example :
    Duty server broken listed "w1" "1s" clock undeployed
      (world (undeployed ∷ []))
      (reconcile_instance server broken listed "w1" "1s" clock undeployed
        (world (undeployed ∷ []))).1
reconcile_instance-Duty_example =
    reconcile_instance-Duty server broken listed "w1" "1s" clock undeployed
      (world (undeployed ∷ []))

unmarked_fails_example :
    let w = site (undeployed ∷ []) in
    let w1 = (reconcile_instance site_server tiny listed "w1" "1s" clock undeployed w).1 in
    let w2 = (reconcile_instance site_server tiny listed "w1" "1s" clock undeployed w1).1 in
    (w2.commands ≡ deploy_instance undeployed ∷ [])
    × (w2.writes
        ≡ update_environment_status (
            set_problem_environment_condition
              (clock 0)
              undeployed
              condition_deployed
              condition_true
              "DeployFailed"
              "internal error")
          ∷ [])
unfolding get_problem_environment_condition get_condition
unmarked_fails_example =
    unmarked_fails site_server tiny listed "w1" "1s" clock there tiny-Instances undeployed
      (refl, refl) refl refl (λ e. ground (arith, e)) (site (undeployed ∷ [])) refl refl refl

-- Nclet adds its finalizer to an environment, and deploys it.
abbrev scheduled_only : ProblemEnvironment
scheduled_only = environment "env" "w1" (condition condition_scheduled condition_true ∷ [])

abbrev protected : ProblemEnvironment
protected = stored (update_environment (listed.add scheduled_only)) scheduled_only

instance-Guarded_example : Guarded listed "w1" protected
unfolding stored get_problem_environment_condition get_condition is_true reconcile_instance update
    deploy check update_container_status same_containers set_problem_environment_condition
instance-Guarded_example =
    let first =
      (reconcile_instance site_server tiny listed "w1" "1s" (λ i. 500) scheduled_only
        (site (scheduled_only ∷ []))).1 in
    instance-Guarded site_server scheduler tiny listed "w1" (ne_of_== "w1" "" refl)
      listed-FinalizerLaws there tiny-Instances site_server-Untouched {pe = scheduled_only}
      {c = (site (scheduled_only ∷ [])).cluster} refl
      (then_move
        (then_move none_yet (
          reconciled "1s" (λ i. 500) (site (scheduled_only ∷ []))
            {write = update_environment (listed.add scheduled_only)} refl refl))
        (unwritten "1s" (λ i. 500) first refl))
      refl

release_completes_example :
    let pe = deleting undeployed in
    let w = site (pe ∷ []) in
    let gone = released listed pe in
    let c' = (reconcile_instance site_server tiny listed "w1" "1s" clock pe w).1.cluster in
    Move site_server scheduler tiny listed "w1" there pe w.cluster gone c'
    × (listed.contains gone ≡ false)
    × (there gone.meta.name c' ≡ false)
    × ((v : World Site) → (reconcile_instance site_server tiny listed "w1" "1s" clock gone v).1 ≡ v)
unfolding get_problem_environment_condition get_condition
release_completes_example =
    release_completes site_server scheduler tiny listed "w1" listed-FinalizerLaws there
      tiny-Instances site_server-Untouched "1s" clock (deleting undeployed)
      (site (deleting undeployed ∷ [])) (refl, refl) (λ e. ground (arith, e)) refl refl
