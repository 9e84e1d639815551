-- ===== src/ControllerManager/Workers/Health.antt =====
-- The Ready condition of a worker after its turn in a round, against its lease.
use netcon_problem_managemen.Prelude.{
  ◌⊎◌, ◌≢◌, ℕ, ◌+◌, ◌<◌, ◌≡◌, ◌↔◌, inl, inr, true, some, List, [], ◌∷◌, length, arith, Option-cases,
}
use netcon_problem_managemen.Api.{Worker, worker_condition_ready, condition_true, condition_false}
use netcon_problem_managemen.Condition.{get_worker_condition}
use netcon_problem_managemen.Condition.Laws.{
  is_true_iff, worker_status-set, set_worker_condition-frame,
}
use netcon_problem_managemen.Kube.{Client, Lease, World, Write, update_worker_info}
use netcon_problem_managemen.ControllerManager.Workers.{
  lease_duration, is_ready, update_health, judge_worker,
}

-- The lease was renewed, and its duration has not passed since.
abbrev pub Alive : ℕ → Lease → Type 0
Alive now lease = (t : ℕ) × (lease.renew_time ≡ some t) × (now < t + lease_duration lease)

is_ready_iff : (now : ℕ) (lease : Lease) → (is_ready now lease ≡ true) ↔ Alive now lease
unfolding is_ready
is_ready_iff now lease = elim (Option-cases lease.renew_time) [
  | inl e ↦ (λ h. absurd (ground arith), λ (t, renewed, rest). absurd (ground arith))
  | inr (t, e) ↦ (λ h. (t, e, ground arith), λ (t', renewed, rest). ground arith)
]

-- The worker as the last request left it.
abbrev pub latest_worker : Worker → List Write → Worker
latest_worker worker (update_worker_info worker' ∷ ws) = worker'
latest_worker worker ws = worker

module _ {C : Type 0} (k : Client C) (now later : ℕ) (worker : Worker) (lease : Lease) (w : World C)
    (quiet : w.writes ≡ []) where
  -- After its turn a worker is Ready exactly if its lease is alive, as far as the request is accepted;
  -- a request goes out only if that changes the condition, at most one, and it leaves the worker's
  -- metadata, specification and usage figures as they were.
  pub judge_worker-Alive :
      let (errors, w') = judge_worker k now later worker lease w in
      ((get_worker_condition (latest_worker worker w'.writes) worker_condition_ready
          ≡ condition_true)
        ↔ Alive now lease)
      × ((w'.writes ≡ [])
          ⊎ ((length w'.writes ≡ 1)
              × (get_worker_condition (latest_worker worker w'.writes) worker_condition_ready
                  ≢ get_worker_condition worker worker_condition_ready)))
      × ((latest_worker worker w'.writes).meta ≡ worker.meta)
      × ((latest_worker worker w'.writes).spec ≡ worker.spec)
      × ((latest_worker worker w'.writes).status.worker_info ≡ worker.status.worker_info)
  unfolding judge_worker update_health
  judge_worker-Alive = ground (
    arith,
    is_ready_iff now lease,
    is_true_iff (get_worker_condition worker worker_condition_ready),
    worker_status-set later worker worker_condition_ready worker_condition_ready condition_false
        "HealthCheckFail" "failed to check health",
    worker_status-set later worker worker_condition_ready worker_condition_ready condition_true
        "HealthCheck" "checked health",
    set_worker_condition-frame later worker worker_condition_ready condition_false "HealthCheckFail"
        "failed to check health",
    set_worker_condition-frame later worker worker_condition_ready condition_true "HealthCheck"
        "checked health",
  )
