-- ===== src/ControllerManager/Workers/Examples.antt =====
-- A worker whose lease has run out.
use netcon_problem_managemen.Prelude.{none, ◌≡◌, ◌≢◌, ◌↔◌, ◌⊎◌, refl, some, [], length, false}
use netcon_problem_managemen.Api.{worker_condition_ready, condition_true}
use netcon_problem_managemen.Condition.{get_worker_condition}
use netcon_problem_managemen.Kube.{Lease}
use netcon_problem_managemen.ControllerManager.Workers.{judge_worker}
use netcon_problem_managemen.ControllerManager.Workers.Health.{
  Alive, latest_worker, judge_worker-Alive,
}
use netcon_problem_managemen.Samples.{server, world, worker}

abbrev stale : Lease
stale = record { holder_identity = none; renew_time = some 100; lease_duration_seconds = some 5 }

judge_worker-Alive_example :
    let w1 = worker "w1" false condition_true in
    let (errors, w') = judge_worker server 110 111 w1 stale (world []) in
    ((get_worker_condition (latest_worker w1 w'.writes) worker_condition_ready ≡ condition_true)
      ↔ Alive 110 stale)
    × ((w'.writes ≡ [])
        ⊎ ((length w'.writes ≡ 1)
            × (get_worker_condition (latest_worker w1 w'.writes) worker_condition_ready
                ≢ get_worker_condition w1 worker_condition_ready)))
    × ((latest_worker w1 w'.writes).meta ≡ w1.meta)
    × ((latest_worker w1 w'.writes).spec ≡ w1.spec)
    × ((latest_worker w1 w'.writes).status.worker_info ≡ w1.status.worker_info)
judge_worker-Alive_example =
    judge_worker-Alive server 110 111 (worker "w1" false condition_true) stale (world []) refl
