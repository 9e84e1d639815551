-- ===== src/Nclet/Heartbeat/Leases.antt =====
-- The lease that nclet renews, as the controller manager reads it.
use netcon_problem_managemen.Prelude.{String, refl, ◌↔◌, ℕ, ◌+◌, ◌<◌, ◌≡◌, [], arith}
use netcon_problem_managemen.Api.{Worker, worker_condition_ready, condition_true}
use netcon_problem_managemen.Condition.{get_worker_condition}
use netcon_problem_managemen.Kube.{Client, Lease, World}
use netcon_problem_managemen.ControllerManager.Workers.{judge_worker, lease_duration}
use netcon_problem_managemen.ControllerManager.Workers.Health.{
  Alive, latest_worker, judge_worker-Alive,
}
use netcon_problem_managemen.Nclet.Heartbeat.{renew_lease}

renewed-Alive :
    (holder : String) (now t : ℕ) (lease : Lease)
    → Alive now (renew_lease holder t lease) ↔ (now < t + 5)
unfolding renew_lease lease_duration
renewed-Alive holder now t lease = (λ (t', e, h). ground arith, λ h. (t, refl, h))

-- A worker whose lease nclet renewed at t is Ready after its turn in the monitor exactly if that turn
-- comes within 5 seconds after t, as far as the request is accepted.
pub judge_worker-renewed :
    {C : Type 0} (k : Client C) (holder : String) (now later t : ℕ) (worker : Worker)
    (lease : Lease) (w : World C)
    → w.writes ≡ []
    → let (errors, w') = judge_worker k now later worker (renew_lease holder t lease) w in
      (get_worker_condition (latest_worker worker w'.writes) worker_condition_ready
        ≡ condition_true)
      ↔ (now < t + 5)
judge_worker-renewed k holder now later t worker lease w quiet =
    let judged = (judge_worker-Alive k now later worker (renew_lease holder t lease) w quiet).0 in
    let renewed = renewed-Alive holder now t lease in
    (λ h. renewed.0 (judged.0 h), λ h. judged.1 (renewed.1 h))
