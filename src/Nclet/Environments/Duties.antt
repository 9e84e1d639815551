-- ===== src/Nclet/Environments/Duties.antt =====
-- What one reconcile of nclet sends to the server and asks of the driver, whatever these answer.
use netcon_problem_managemen.Prelude.{
  ℕ, String, ◌≡◌, refl, ◌≢◌, ◌⊎◌, inl, inr, true, false, Option, none, List, ◌∷◌, ◌==◌, eq_iff,
  arith, Bool-cases, Option-cases, ok, err, Result-cases,
}
use netcon_problem_managemen.Condition.Laws.{is_true_iff}
use netcon_problem_managemen.Api.{
  ContainerStatus, ProblemEnvironment, condition_scheduled, condition_deployed, condition_ready,
  condition_true, condition_false,
}
use netcon_problem_managemen.Condition.{
  is_true, set_problem_environment_condition, get_problem_environment_condition,
}
use netcon_problem_managemen.Kube.{
  ApiError, Client, World, update_environment, update_environment_status, deploy_instance,
  destroy_instance,
}
use netcon_problem_managemen.Nclet.Environments.{
  DriverStatus, status_init, status_deployed, status_error, Driver, Finalizers, update,
  update_status, cleanup, reconcile_instance, update_container_status, check, deploy,
}
use netcon_problem_managemen.Nclet.Environments.Refresh.{same_containers_iff, Refreshed}

module _ {C : Type 0} (k : Client C) (driver : Driver C) (finalizers : Finalizers)
    (own_name elapsed : String) (now : ℕ → ℕ) where
  -- Scheduled, on this worker.
  abbrev pub Mine : ProblemEnvironment → Type 0
  Mine pe =
      (get_problem_environment_condition pe condition_scheduled ≡ condition_true)
      × (pe.spec.worker_name ≡ own_name)

  abbrev pub marked_deployed : ProblemEnvironment → ProblemEnvironment
  marked_deployed pe =
      set_problem_environment_condition (now 0) pe condition_deployed condition_true "Deployed"
        "ProblemEnvironment is deployed"

  pub data Duty (pe : ProblemEnvironment) (before after : World C) : Type 0 where
    idle :
        (¬ Mine pe)
          ⊎ (Mine pe × (pe.meta.deletion_timestamp ≢ none) × (finalizers.contains pe ≡ false))
        → after.writes ≡ before.writes
        → after.commands ≡ before.commands
        → Duty pe before after
    releases :
        Mine pe
        → pe.meta.deletion_timestamp ≢ none
        → finalizers.contains pe ≡ true
        → (driver.destroy pe before.cluster).0 ≡ ok tt
        → after.commands ≡ destroy_instance pe ∷ before.commands
        → after.writes ≡ update_environment (finalizers.remove pe) ∷ before.writes
        → Duty pe before after
    keeps :
        (e : ApiError)
        → Mine pe
        → pe.meta.deletion_timestamp ≢ none
        → finalizers.contains pe ≡ true
        → (driver.destroy pe before.cluster).0 ≡ err e
        → after.commands ≡ destroy_instance pe ∷ before.commands
        → after.writes
          ≡ update_environment_status (
              set_problem_environment_condition
                (now 0)
                pe
                condition_ready
                condition_false
                "DestroyFailed"
                "failed to destroy ProblemEnvironment")
            ∷ before.writes
        → Duty pe before after
    protects :
        Mine pe
        → pe.meta.deletion_timestamp ≡ none
        → finalizers.contains pe ≡ false
        → after.commands ≡ before.commands
        → after.writes ≡ update_environment (finalizers.add pe) ∷ before.writes
        → Duty pe before after
    deploys :
        (containers : Option (List ContainerStatus))
        → Mine pe
        → pe.meta.deletion_timestamp ≡ none
        → finalizers.contains pe ≡ true
        → get_problem_environment_condition pe condition_deployed ≢ condition_true
        → (driver.check pe before.cluster).0.0 ≡ status_init
        → after.commands ≡ deploy_instance pe ∷ before.commands
        → Refreshed (marked_deployed pe) containers before.writes after.writes
        → Duty pe before after
    gives_up :
        Mine pe
        → pe.meta.deletion_timestamp ≡ none
        → finalizers.contains pe ≡ true
        → get_problem_environment_condition pe condition_deployed ≢ condition_true
        → (driver.check pe before.cluster).0.0 ≢ status_init
        → after.commands ≡ before.commands
        → after.writes
          ≡ update_environment_status (
              set_problem_environment_condition
                (now 0)
                pe
                condition_deployed
                condition_true
                "DeployFailed"
                "internal error")
            ∷ before.writes
        → Duty pe before after
    refreshes :
        Mine pe
        → pe.meta.deletion_timestamp ≡ none
        → finalizers.contains pe ≡ true
        → get_problem_environment_condition pe condition_deployed ≡ condition_true
        → after.commands ≡ before.commands
        → Refreshed pe (driver.check pe before.cluster).0.1 before.writes after.writes
        → Duty pe before after

  module _ (pe : ProblemEnvironment) (w : World C) where
    check-Refreshed :
        let w' = (check k driver finalizers own_name elapsed now pe w).1 in
        Refreshed pe (driver.check pe w.cluster).0.1 w.writes w'.writes × (w'.commands ≡ w.commands)
    unfolding check update_container_status update_status
    check-Refreshed =
        ground (arith, same_containers_iff (driver.check pe w.cluster).0.1 pe.status.containers)

    module _ (mine : Mine pe) (contained : finalizers.contains pe ≡ true) where
      cleanup-Duty :
          pe.meta.deletion_timestamp ≢ none
          → Duty pe w (cleanup k driver finalizers own_name elapsed now pe w).1
      unfolding cleanup update update_status
      cleanup-Duty gone = elim (Result-cases (driver.destroy pe w.cluster).0) [
        | inl (tt, done) ↦ releases mine gone contained (ground arith) (ground arith) (ground arith)
        | inr (e, failed) ↦ keeps e mine gone contained (ground arith) (ground arith) (ground arith)
      ]

      module _ (live : pe.meta.deletion_timestamp ≡ none)
          (pending : get_problem_environment_condition pe condition_deployed ≢ condition_true) where
        checked-Duty :
            (status : DriverStatus)
            → (driver.check pe w.cluster).0.0 ≡ status
            → Duty pe w (deploy k driver finalizers own_name elapsed now pe w).1
        unfolding deploy
        checked-Duty status_init e =
            let c : C = (driver.deploy pe (driver.check pe w.cluster).1).1 in
            deploys (driver.check (marked_deployed pe) c).0.1 mine live contained pending
              (ground arith) (unfold check update_container_status update_status in ground arith)
              (unfold check update_container_status update_status in
                ground (
                  arith,
                  same_containers_iff (driver.check (marked_deployed pe) c).0.1
                      (marked_deployed pe).status.containers,
                ))
        checked-Duty status_deployed e =
            gives_up mine live contained pending (ground arith)
              (unfold update_status in ground arith) (unfold update_status in ground arith)
        checked-Duty status_error e =
            gives_up mine live contained pending (ground arith)
              (unfold update_status in ground arith) (unfold update_status in ground arith)

    module _ (mine : Mine pe) where
      named-Duty : Duty pe w (reconcile_instance k driver finalizers own_name elapsed now pe w).1
      unfolding reconcile_instance
      named-Duty =
          let on : is_true (get_problem_environment_condition pe condition_scheduled) ≡ true =
            ground
              (arith, is_true_iff (get_problem_environment_condition pe condition_scheduled)) in
          let here : (pe.spec.worker_name == own_name) ≡ true =
            ground (arith, eq_iff pe.spec.worker_name own_name) in
          elim (Option-cases pe.meta.deletion_timestamp) [
            | inr (t, gone) ↦ elim (Bool-cases (finalizers.contains pe)) [
              | inr out ↦ idle (inr (mine, ground arith, out)) (ground arith) (ground arith)
              | inl contained ↦
                  let same : reconcile_instance k driver finalizers own_name elapsed now pe w
                      ≡ cleanup k driver finalizers own_name elapsed now pe w =
                    ground arith in
                  rw same (cleanup-Duty mine contained (ground arith))
            ]
            | inl live ↦ elim (Bool-cases (finalizers.contains pe)) [
              | inr out ↦
                  protects mine live out (unfold update in ground arith)
                    (unfold update in ground arith)
              | inl contained ↦
                  elim (Bool-cases
                    (is_true (get_problem_environment_condition pe condition_deployed))) [
                      | inl up ↦
                          let same : reconcile_instance k driver finalizers own_name elapsed now pe
                                w
                              ≡ check k driver finalizers own_name elapsed now pe w =
                            ground arith in
                          rw same (
                            refreshes mine live contained
                              ((is_true_iff
                                  (get_problem_environment_condition pe condition_deployed)).0
                                up)
                              check-Refreshed.1 check-Refreshed.0)
                      | inr down ↦
                          let same : reconcile_instance k driver finalizers own_name elapsed now pe
                                w
                              ≡ deploy k driver finalizers own_name elapsed now pe w =
                            ground arith in
                          rw same (
                            checked-Duty mine contained live
                              (ground (
                                arith,
                                is_true_iff
                                    (get_problem_environment_condition pe condition_deployed),
                              ))
                              (driver.check pe w.cluster).0.0 refl)
                    ]
            ]
          ]

  -- What a reconcile of a fetched environment does on every branch, whatever the server and the driver
  -- answer. Where the environment is not scheduled on this worker, or is being deleted and has no
  -- finalizer of nclet, it does nothing. Under deletion, if the finalizer is there, the instance is
  -- destroyed, and the finalizer removed exactly if that succeeds; otherwise Ready is set to False. A
  -- live environment first gets the finalizer. With it, one that is not marked as deployed is deployed
  -- if the driver has no instance, and else marked as failed. One that is marked has its containers
  -- written if the driver's report differs from them.
  pub reconcile_instance-Duty :
      (pe : ProblemEnvironment) (w : World C)
      → Duty pe w (reconcile_instance k driver finalizers own_name elapsed now pe w).1
  unfolding reconcile_instance
  reconcile_instance-Duty pe w =
      let scheduled_iff = is_true_iff (get_problem_environment_condition pe condition_scheduled) in
      let deployed_iff = is_true_iff (get_problem_environment_condition pe condition_deployed) in
      elim (Bool-cases (is_true (get_problem_environment_condition pe condition_scheduled))) [
        | inr out ↦
            idle (inl (λ mine. ground (arith, scheduled_iff, mine.0))) (ground arith) (ground arith)
        | inl scheduled ↦ elim (Bool-cases (pe.spec.worker_name == own_name)) [
          | inr out ↦
              idle (inl (λ mine. ground (arith, eq_iff pe.spec.worker_name own_name, mine.1)))
                (ground arith) (ground arith)
          | inl named ↦
              named-Duty pe w
                (scheduled_iff.0 scheduled, (eq_iff pe.spec.worker_name own_name).0 named)
        ]
      ]
