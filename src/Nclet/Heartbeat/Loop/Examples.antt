-- ===== src/Nclet/Heartbeat/Loop/Examples.antt =====
-- Collections of a fresh agent, with whole numbers in place of float64, and a loop of four ticks.
use netcon_problem_managemen.Prelude.{
  false, some, none, ◌↔◌, ◌<◌, [], ℕ, ◌+◌, ◌/◌, ◌≡◌, refl, ◌∷◌, ok, replicate, eqb, if◌then◌else◌,
  List, true, err, ◌++◌,
}
use netcon_problem_managemen.Api.{condition_true, condition_false, worker_condition_ready}
use netcon_problem_managemen.Condition.{get_worker_condition}
use netcon_problem_managemen.Kube.{Lease, not_found, Client, World}
use netcon_problem_managemen.ControllerManager.Workers.{judge_worker}
use netcon_problem_managemen.ControllerManager.Workers.Health.{latest_worker}
use netcon_problem_managemen.Nclet.Heartbeat.Loop.{
  Registrar, Tick, metrics_collect, heartbeat, status_update, context_done, start, beat, take_tick,
  renew,
}
use netcon_problem_managemen.Nclet.Heartbeat.Loop.Renewals.{
  LeaseLaws, Registered, ends, silent, start_returns_iff,
}
use netcon_problem_managemen.Nclet.Heartbeat.Loop.Latest.{judge_worker-last_renewal}
use netcon_problem_managemen.Nclet.Heartbeat.{
  report_status, renew_lease, Numbers, Agent, history_size, collect_metrics, get_metrics, sum_from,
}
use netcon_problem_managemen.Samples.{server, world, worker}
use netcon_problem_managemen.Nclet.Heartbeat.History.{collect_metrics-smears}

abbrev whole_numbers : Numbers ℕ
whole_numbers = record {
  zero = 0;
  add = λ a b. a + b;
  divide = λ a n. a / n;
  is_zero = λ a. eqb a 0;
}

abbrev started : Agent ℕ
started = record {
  cpu_used_history = replicate history_size 0;
  mem_used_history = replicate history_size 0;
}

abbrev old_lease : Lease
old_lease = record { holder_identity = none; renew_time = some 10; lease_duration_seconds = none }

collect_metrics-smears_example :
    let a' =
      (collect_metrics whole_numbers
        (ok 30)
        (ok 40)
        (collect_metrics whole_numbers (ok 50) (ok 60) started).1).1 in
    (a'.cpu_used_history ≡ 30 ∷ replicate 19 50)
    × (a'.mem_used_history ≡ 40 ∷ replicate 19 60)
    × (get_metrics whole_numbers a' ≡ (
      (if eqb 50 0 then 0 else sum_from whole_numbers 0 (30 ∷ replicate 19 50) / 20),
      (if eqb 60 0 then 0 else sum_from whole_numbers 0 (40 ∷ replicate 19 60) / 20),
    ))
collect_metrics-smears_example = collect_metrics-smears whole_numbers started 50 60 30 40 refl refl

-- A server with one lease, and a worker that it made up.
abbrev one_lease : Registrar Lease
one_lease = record {
  create_or_update_worker = λ name change c. (ok (change (worker name false condition_false)), c);
  create_or_update_lease = λ namespace name change c. (ok (change c), change c);
}

abbrev nobody : Client Lease
nobody = record {
  get_problem = λ namespace name c. (err not_found, c);
  get_problem_environment = λ namespace name c. (err not_found, c);
  get_worker = λ name c. (ok (worker name false condition_false), c);
  get_lease = λ namespace name c. (ok c, c);
  list_problems = λ c. (ok [], c);
  list_problem_environments = λ namespace labels c. (ok [], c);
  list_workers = λ c. (ok [], c);
  create_problem_environment = λ pe c. (err not_found, c);
  update_problem_environment = λ pe c. (err not_found, c);
  update_problem_environment_status = λ pe c. (err not_found, c);
  delete_problem_environment = λ pe c. (err not_found, c);
  update_problem_status = λ p c. (err not_found, c);
  update_worker = λ w c. (ok w, c);
  update_worker_status = λ w c. (ok w, c);
}

one_lease-LeaseLaws : LeaseLaws nobody one_lease "w1" (λ c. some c)
one_lease-LeaseLaws = record {
  leased = λ change c lease accepted. (c, refl);
  get_worker = λ name c. refl;
  update_worker_status = λ worker c. refl;
}

abbrev alone : World Lease
alone = record { cluster = old_lease; events = []; writes = []; commands = [] }

abbrev ticks : List (Tick ℕ)
ticks = metrics_collect (ok 50) (err "no memory") ∷ heartbeat 100 ∷ status_update (ok "host") ∷ []

start_returns_iff_example :
    let returned =
      (start nobody one_lease whole_numbers
        (λ n. "0")
        "w1"
        "c1"
        "192.0.2.1"
        2222
        (ok 7)
        90
        (ticks ++ context_done ∷ heartbeat 200 ∷ [])
        started
        alone).0.0 in
    ((returned ≡ some (ok tt)) ↔ (
      Registered nobody one_lease whole_numbers
        (λ n. "0")
        "w1"
        "c1"
        "192.0.2.1"
        2222
        (ok 7)
        90
        old_lease
      × (ends (ticks ++ context_done ∷ heartbeat 200 ∷ []) ≡ true)))
    × ((returned ≡ none) ↔ (
        Registered nobody one_lease whole_numbers
          (λ n. "0")
          "w1"
          "c1"
          "192.0.2.1"
          2222
          (ok 7)
          90
          old_lease
        × (ends (ticks ++ context_done ∷ heartbeat 200 ∷ []) ≡ false)))
start_returns_iff_example =
    start_returns_iff nobody one_lease whole_numbers (λ n. "0") "w1" "c1" "192.0.2.1" 2222 (ok 7) 90
      (ticks ++ context_done ∷ heartbeat 200 ∷ []) started alone

judge_worker-last_renewal_example :
    let (errors, w') =
      judge_worker server 104 104
        (worker "w1" false condition_false)
        (renew_lease "w1" 100 old_lease)
        (world []) in
    (get_worker_condition
        (latest_worker (worker "w1" false condition_false) w'.writes)
        worker_condition_ready
      ≡ condition_true)
    ↔ (104 < 100 + 5)
unfolding beat take_tick renew report_status ends silent
judge_worker-last_renewal_example =
    judge_worker-last_renewal nobody one_lease whole_numbers (λ n. "0") "w1" "c1" "192.0.2.1" 2222
      (λ c. some c) one_lease-LeaseLaws "w1" 100 (metrics_collect (ok 50) (err "no memory") ∷ [])
      (status_update (ok "host") ∷ context_done ∷ []) started alone refl refl
      (renew_lease "w1" 100 old_lease) refl server 104 104 (worker "w1" false condition_false)
      (world []) (renew_lease "w1" 100 old_lease) refl refl
