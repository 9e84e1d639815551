-- ===== src/Nclet/Environments/Instances.antt =====
-- The contract of a driver: which environments have an instance on the machine, and what the calls
-- of the driver say of it and do to it; and what the reconciler does with such a driver.
use netcon_problem_managemen.Prelude.{
  ℕ, String, Bool, true, false, none, ◌∷◌, ok, err, ◌≡◌, ◌≢◌, ◌↔◌, ◌⊎◌, inl, inr, ◌==◌, eq_iff,
  arith, Result-cases, Option-cases, ap, ◌∙◌, refl,
}
use netcon_problem_managemen.Api.{
  ProblemEnvironment, condition_scheduled, condition_deployed, condition_ready, condition_true,
  condition_false,
}
use netcon_problem_managemen.Condition.{
  is_true, set_problem_environment_condition, get_problem_environment_condition,
}
use netcon_problem_managemen.Condition.Laws.{is_true_iff}
use netcon_problem_managemen.Kube.{
  ApiError, Client, World, update_environment, update_environment_status, deploy_instance,
}
use netcon_problem_managemen.Nclet.Environments.{
  Driver, DriverStatus, status_init, status_deployed, status_error, Finalizers, cleanup, update,
  update_status, deploy, check, update_container_status, reconcile_instance,
}
use netcon_problem_managemen.Nclet.Environments.Refresh.{same_containers_iff}
use netcon_problem_managemen.Nclet.Environments.Duties.{Mine, marked_deployed}
use netcon_problem_managemen.Nclet.Environments.Unwritten.{reaches_deploy, deploy_forgets}

-- `alive name c`: the environment of that name has an instance.
pub record Instances {C : Type 0} (driver : Driver C) (alive : String → C → Bool) : Type 0 where
  pub checked :
      (pe : ProblemEnvironment) (c : C)
      → ((driver.check pe c).0.0 ≡ status_init) ↔ (alive pe.meta.name c ≡ false)
  pub check_same :
      (pe : ProblemEnvironment) (c : C)
      → alive pe.meta.name (driver.check pe c).1 ≡ alive pe.meta.name c
  pub deployed :
      (pe : ProblemEnvironment) (c : C)
      → (driver.deploy pe c).0 ≡ ok tt
      → alive pe.meta.name (driver.deploy pe c).1 ≡ true
  pub deploy_keeps :
      (pe : ProblemEnvironment) (c : C)
      → alive pe.meta.name c ≡ true
      → alive pe.meta.name (driver.deploy pe c).1 ≡ true
  pub destroyed :
      (pe : ProblemEnvironment) (c : C)
      → (driver.destroy pe c).0 ≡ ok tt
      → alive pe.meta.name (driver.destroy pe c).1 ≡ false

module _ {C : Type 0} (k : Client C) (driver : Driver C) (finalizers : Finalizers)
    (own_name elapsed : String) (now : ℕ → ℕ) (alive : String → C → Bool)
    (laws : Instances driver alive) (pe : ProblemEnvironment)
    (mine : Mine k driver finalizers own_name elapsed now pe)
    (contained : finalizers.contains pe ≡ true) where
  -- Of an environment of this worker that is being deleted, with the finalizer of nclet on it, one
  -- reconcile either destroys the instance and then sends the removal of the finalizer, and at its
  -- end there is no instance, or the driver fails, the finalizer stays, and `DestroyFailed` is sent.
  -- The driver keeps its contract, and an update of the server does not touch the instances.
  pub release_without_instance :
      (w : World C)
      → pe.meta.deletion_timestamp ≢ none
      → ((c : C)
          → alive pe.meta.name (k.update_problem_environment (finalizers.remove pe) c).1
            ≡ alive pe.meta.name c)
      → let w' = (reconcile_instance k driver finalizers own_name elapsed now pe w).1 in
        ((w'.writes ≡ update_environment (finalizers.remove pe) ∷ w.writes)
          × (alive pe.meta.name w'.cluster ≡ false))
        ⊎ ((e : ApiError) × ((driver.destroy pe w.cluster).0 ≡ err e)
            × (w'.writes
                ≡ update_environment_status (
                    set_problem_environment_condition
                      (now 0)
                      pe
                      condition_ready
                      condition_false
                      "DestroyFailed"
                      "failed to destroy ProblemEnvironment")
                  ∷ w.writes))
  release_without_instance w gone kept =
      let on : is_true (get_problem_environment_condition pe condition_scheduled) ≡ true =
        ground (arith, is_true_iff (get_problem_environment_condition pe condition_scheduled)) in
      let here : (pe.spec.worker_name == own_name) ≡ true =
        ground (arith, eq_iff pe.spec.worker_name own_name) in
      let same : reconcile_instance k driver finalizers own_name elapsed now pe w
          ≡ cleanup k driver finalizers own_name elapsed now pe w =
        elim (Option-cases pe.meta.deletion_timestamp) [
          | inl live ↦ absurd (gone live)
          | inr (t, deleted) ↦ unfold reconcile_instance in ground arith
        ] in
      rw same (elim (Result-cases (driver.destroy pe w.cluster).0) [
        | inr (e, bad) ↦ inr (e, bad, unfold cleanup update_status in ground arith)
        | inl (tt, done) ↦ inl (
            unfold cleanup update in
            ground (arith, laws.destroyed pe w.cluster done, kept (driver.destroy pe w.cluster).1))
      ])

  module _ (live : pe.meta.deletion_timestamp ≡ none)
      (pending : get_problem_environment_condition pe condition_deployed ≢ condition_true) where
    abbrev marked_failed : ProblemEnvironment
    marked_failed =
        set_problem_environment_condition (now 0) pe condition_deployed condition_true
          "DeployFailed" "internal error"

    checked_gives_up :
        (w : World C)
        → alive pe.meta.name w.cluster ≡ true
        → (status : DriverStatus) → (driver.check pe w.cluster).0.0 ≡ status
        → let w' = (deploy k driver finalizers own_name elapsed now pe w).1 in
          (w'.commands ≡ w.commands)
          × (w'.writes ≡ update_environment_status marked_failed ∷ w.writes)
    unfolding deploy update_status
    checked_gives_up w at status_init e = absurd (ground (arith, laws.checked pe w.cluster))
    checked_gives_up w at status_deployed e = ground arith
    checked_gives_up w at status_error e = ground arith

    -- No instance is deployed twice.
    alive_gives_up :
        (w : World C)
        → alive pe.meta.name w.cluster ≡ true
        → let w' = (reconcile_instance k driver finalizers own_name elapsed now pe w).1 in
          (w'.commands ≡ w.commands)
          × (w'.writes ≡ update_environment_status marked_failed ∷ w.writes)
    alive_gives_up w at =
        let to_deploy : reconcile_instance k driver finalizers own_name elapsed now pe w
            ≡ deploy k driver finalizers own_name elapsed now pe w =
          reaches_deploy k driver finalizers own_name elapsed now pe w mine live contained
            pending in
        rw to_deploy (checked_gives_up w at (driver.check pe w.cluster).0.0 refl)

    -- An environment of this worker that has the finalizer, is not being deleted, is not marked as
    -- deployed and has no instance: where the driver deploys it without an error and reports
    -- afterwards the containers that the status already has, the instance is made, and the next
    -- reconcile of the same environment marks it `DeployFailed`. The driver keeps its contract.
    pub unmarked_fails :
        (w : World C)
        → alive pe.meta.name w.cluster ≡ false
        → let c = (driver.check pe w.cluster).1 in
          let marked = marked_deployed k driver finalizers own_name elapsed now pe in
          (driver.deploy pe c).0 ≡ ok tt
          → (driver.check marked (driver.deploy pe c).1).0.1 ≡ pe.status.containers
          → let w1 = (reconcile_instance k driver finalizers own_name elapsed now pe w).1 in
            let w2 = (reconcile_instance k driver finalizers own_name elapsed now pe w1).1 in
            (w2.commands ≡ deploy_instance pe ∷ w.commands)
            × (w2.writes ≡ update_environment_status marked_failed ∷ w.writes)
    unmarked_fails w absent done same =
        let c : C = (driver.check pe w.cluster).1 in
        let marked : ProblemEnvironment =
          marked_deployed k driver finalizers own_name elapsed now pe in
        let w1 : World C = (reconcile_instance k driver finalizers own_name elapsed now pe w).1 in
        let init : (driver.check pe w.cluster).0.0 ≡ status_init =
          (laws.checked pe w.cluster).1 absent in
        let kept : marked.status.containers ≡ pe.status.containers =
          unfold set_problem_environment_condition in refl in
        let named : marked.meta.name ≡ pe.meta.name =
          unfold set_problem_environment_condition in refl in
        let first : (w1.commands ≡ deploy_instance pe ∷ w.commands) × (w1.writes ≡ w.writes) =
          deploy_forgets k driver finalizers own_name elapsed now pe w mine live contained pending
            init same in
        let at : alive pe.meta.name w1.cluster ≡ true =
          rw
            (reaches_deploy k driver finalizers own_name elapsed now pe w mine live contained
              pending)
            (unfold deploy check update_container_status in
              ground (
                arith,
                same_containers_iff (driver.check marked (driver.deploy pe c).1).0.1
                    marked.status.containers,
                kept,
                laws.deployed pe c done,
                laws.check_same marked (driver.deploy pe c).1,
                named,
              )) in
        let second = alive_gives_up w1 at in
        (
          second.0 ∙ first.0,
          second.1 ∙ ap (λ ws. update_environment_status marked_failed ∷ ws) first.1,
        )
