-- ===== src/Nclet/Heartbeat/Loop.antt =====
-- controllers/nclet/heartbeat.go, `Start`: the agent registers its worker and its lease, and then takes
-- what its tickers and its context send, one after the other. `CreateOrUpdate` is a parameter: it
-- answers with the object as the server has it then. What a tick finds when it asks the machine comes
-- with it.
pub mod Renewals
pub mod Latest
mod Examples
use netcon_problem_managemen.Prelude.{ℕ, String, Option, none, some, List, [], ◌∷◌, Result, ok, err}
use netcon_problem_managemen.Api.{Worker}
use netcon_problem_managemen.Kube.{ApiError, Client, Lease, Call, M, pure, fetch, ◌>>=◌, ◌>>◌}
use netcon_problem_managemen.Nclet.Heartbeat.{
  Numbers, Agent, init_metrics_collector, collect_metrics, label_worker, renew_lease, report_status,
}

-- `ctrl.CreateOrUpdate` of a Worker, by its name, and of a Lease, by its namespace and name.
pub record Registrar (C : Type 0) : Type 0 where
  pub create_or_update_worker : String → (Worker → Worker) → Call C Worker
  pub create_or_update_lease : String → String → (Lease → Lease) → Call C Lease

-- The cases of the `select`.
pub data Tick (F : Type 0) : Type 0 where
  metrics_collect : Result String F → Result String F → Tick F
  heartbeat : ℕ → Tick F
  status_update : Result String String → Tick F
  context_done : Tick F

-- What `Start` returns; a failure of the machine or of a request.
pub data StartError : Type 0 where
  metrics_failed : String → StartError
  request_failed : ApiError → StartError

module _ {C F : Type 0} (k : Client C) (registrar : Registrar C) (numbers : Numbers F)
    (format_float : F → String) (worker_name worker_class external_ip_address : String)
    (external_port : ℕ) where
  -- `holder` is the name of the Worker as the server answered it.
  pub renew : String → ℕ → M C (Result ApiError Lease)
  renew holder now =
      fetch (registrar.create_or_update_lease "netcon" worker_name (renew_lease holder now))

  -- A tick that does not end the loop. The errors are logged only.
  pub take_tick : String → Tick F → Agent F → M C (Agent F)
  take_tick holder (metrics_collect cpu mem) a = pure (collect_metrics numbers cpu mem a).1
  take_tick holder (heartbeat now) a = do renewed ← renew holder now; pure a
  take_tick holder (status_update hostname) a = do
    report_status k numbers format_float worker_name external_ip_address external_port hostname a
    pure a
  take_tick holder context_done a = pure a

  -- The loop: nothing is returned as long as the context is not done.
  pub beat :
      String → List (Tick F) → Agent F → M C (Option (Result StartError (Unit {0})) × Agent F)
  beat holder [] a = pure (none, a)
  beat holder (context_done ∷ ticks) a = pure (some (ok tt), a)
  beat holder (tick ∷ ticks) a = take_tick holder tick a >>= λ a'. beat holder ticks a'

  -- `used` is the first measurement, `now` the time of the first renewal.
  pub start :
      Result String F
      → ℕ
      → List (Tick F)
      → Agent F
      → M C (Option (Result StartError (Unit {0})) × Agent F)
  start used now ticks a = elim (init_metrics_collector numbers used a).0 [
    | err e ↦ pure (some (err (metrics_failed e)), a)
    | ok _ ↦
        let fresh = (init_metrics_collector numbers used a).1 in
        (do
          registered ← fetch (
              registrar.create_or_update_worker worker_name (label_worker worker_name worker_class))
          elim registered [
            | err e ↦ pure (some (err (request_failed e)), fresh)
            | ok worker ↦ do
              renewed ← renew worker.meta.name now
              elim renewed [
                | err e ↦ pure (some (err (request_failed e)), fresh)
                | ok lease ↦ beat worker.meta.name ticks fresh
              ]
          ])
  ]
