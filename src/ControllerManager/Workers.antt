-- ===== src/ControllerManager/Workers.antt =====
-- worker_controller.go, `monitorWorkerHealth`: one round of the monitor. `now` is the clock: for each
-- worker its readings by `time.Now`, at the test of the lease and in the write of the condition.
pub mod Health
mod Examples
use netcon_problem_managemen.Prelude.{
  ℕ, suc, ◌+◌, Bool, true, false, not, ◌&&◌, Option, none, some, List, [], ◌∷◌, ◌++◌, Result, ok,
  err, ltb, if◌then◌else◌,
}
use netcon_problem_managemen.Api.{
  Worker, worker_condition_ready, worker_event_ready, worker_event_not_ready, condition_true,
  condition_false,
}
use netcon_problem_managemen.Condition.{is_true, set_worker_condition, get_worker_condition}
use netcon_problem_managemen.Kube.{
  ApiError, Client, Lease, M, normal, pure, fetch, record_event, send_worker_status, ◌>>=◌, ◌>>◌,
}

-- `leaseDurationSeconds`, 5 where the lease has none.
unfoldable pub lease_duration : Lease → ℕ
lease_duration lease = elim lease.lease_duration_seconds [ none ↦ 5 | some seconds ↦ seconds ]

-- Does the lease last past `now`?
pub is_ready : ℕ → Lease → Bool
unfolding lease_duration
is_ready now lease = elim lease.renew_time [
  | none ↦ false
  | some renew_time ↦ ltb now (renew_time + lease_duration lease)
]

module _ {C : Type 0} (k : Client C) where
  -- The end of the loop's body: the update, whose error is kept.
  pub update_health : Worker → M C (List ApiError)
  update_health worker = do
    written ← send_worker_status k worker
    pure (elim written [ ok _ ↦ [] | err e ↦ e ∷ [] ])

  -- The rest of the loop's body, once the lease is read.
  pub judge_worker : ℕ → ℕ → Worker → Lease → M C (List ApiError)
  judge_worker now later worker lease =
      let ready = is_ready now lease in
      let current = is_true (get_worker_condition worker worker_condition_ready) in
      if current && not ready
      then (do
        record_event worker.meta.name normal worker_event_not_ready "Worker went down"
        update_health (
            set_worker_condition later worker worker_condition_ready condition_false
              "HealthCheckFail" "failed to check health"))
      else if not current && ready
      then (do
        record_event worker.meta.name normal worker_event_ready "Worker is ready"
        update_health (
            set_worker_condition later worker worker_condition_ready condition_true "HealthCheck"
              "checked health"))
      else pure []

  monitor_worker : ℕ → ℕ → Worker → M C (List ApiError)
  monitor_worker now later worker = do
    got ← fetch (k.get_lease "netcon" worker.meta.name)
    elim got [ err e ↦ pure (e ∷ []) | ok lease ↦ judge_worker now later worker lease ]

  -- The loop; the errors so far are in `errors`, the oldest first.
  monitor_workers : (ℕ → ℕ) → ℕ → List Worker → List ApiError → M C (List ApiError)
  monitor_workers now i [] errors = pure errors
  monitor_workers now i (worker ∷ workers) errors =
      monitor_worker (now i) (now (i + 1)) worker >>= λ new.
      monitor_workers now (i + 2) workers (errors ++ new)

  -- `multierr.Combine` of no error is nil.
  monitor_worker_health : (ℕ → ℕ) → M C (List ApiError)
  monitor_worker_health now = do
    listed ← fetch k.list_workers
    elim listed [ err e ↦ pure (e ∷ []) | ok workers ↦ monitor_workers now 0 workers [] ]
