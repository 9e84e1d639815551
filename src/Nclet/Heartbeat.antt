-- ===== src/Nclet/Heartbeat.antt =====
-- controllers/nclet/heartbeat.go: the usage figures that nclet keeps, and what it reports of itself.
-- float64 is a parameter; an array of CPU_USED_HISTORY_SIZE numbers is a list. What gopsutil and the
-- operating system answer is an argument of the functions that ask them. `CreateOrUpdate` of
-- controller-runtime takes the functions that change its object: those are modelled.
pub mod History
pub mod Leases
pub mod Loop
use netcon_problem_managemen.Prelude.{
  ℕ, zero, suc, ◌+◌, ◌-◌, String, Bool, Option, none, some, List, [], ◌∷◌, Result, ok, err,
  replicate, if◌then◌else◌,
}
use netcon_problem_managemen.Api.{Labels, Worker}
use netcon_problem_managemen.Kube.{Client, Lease, M, pure, fetch, send_worker_status, ◌>>=◌}
use netcon_problem_managemen.ControllerManager.Problems.{set_label}

-- The part of float64 that the averages use.
pub record Numbers (F : Type 0) : Type 0 where
  pub zero : F
  pub add : F → F → F
  pub divide : F → ℕ → F
  pub is_zero : F → Bool

-- CPU_USED_HISTORY_SIZE and MEM_USED_HISTORY_SIZE
abbrev pub history_size : ℕ
history_size = 20

-- The changing part of a HeartbeatAgent.
pub record Agent (F : Type 0) : Type 0 where
  pub cpu_used_history : List F
  pub mem_used_history : List F

module _ {F : Type 0} where
  pub get_elem? : List F → ℕ → Option F
  get_elem? [] i = none
  get_elem? (x ∷ xs) zero = some x
  get_elem? (x ∷ xs) (suc i) = get_elem? xs i

  pub set_elem : List F → ℕ → F → List F
  set_elem [] i y = []
  set_elem (x ∷ xs) zero y = y ∷ xs
  set_elem (x ∷ xs) (suc i) y = x ∷ set_elem xs i y

  -- `history[i+1] = history[i]`
  pub copy_up : ℕ → List F → List F
  copy_up i history = elim (get_elem? history i) [
    | none ↦ history
    | some x ↦ set_elem history (suc i) x
  ]

  -- The loop, from i for `left` rounds.
  pub shift : ℕ → ℕ → List F → List F
  shift i zero history = history
  shift i (suc left) history = shift (suc i) left (copy_up i history)

module _ {F : Type 0} (numbers : Numbers F) where
  pub init_metrics_collector : Result String F → Agent F → Result String (Unit {0}) × Agent F
  init_metrics_collector (err e) a = (err e, a)
  init_metrics_collector (ok used) a = (
    ok tt,
    record {
      cpu_used_history = replicate history_size numbers.zero;
      mem_used_history = replicate history_size numbers.zero;
    },
  )

  pub collect_metrics :
      Result String F → Result String F → Agent F → Result String (Unit {0}) × Agent F
  collect_metrics (err e) mem a = (err e, a)
  collect_metrics (ok cpu) (err e) a = (err e, a)
  collect_metrics (ok cpu) (ok mem) a = (
    ok tt,
    record {
      cpu_used_history = set_elem (shift 0 (history_size - 1) a.cpu_used_history) 0 cpu;
      mem_used_history = set_elem (shift 0 (history_size - 1) a.mem_used_history) 0 mem;
    },
  )

  -- The adding loop.
  pub sum_from : F → List F → F
  sum_from total [] = total
  sum_from total (x ∷ xs) = sum_from (numbers.add total x) xs

  pub average : List F → F
  average history = elim (get_elem? history (history_size - 1)) [
    | none ↦ numbers.zero
    | some oldest ↦
        if numbers.is_zero oldest
        then numbers.zero
        else numbers.divide (sum_from numbers.zero history) history_size
  ]

  pub get_metrics : Agent F → F × F
  get_metrics a = (average a.cpu_used_history, average a.mem_used_history)

-- The function given to `CreateOrUpdate` for the Worker.
pub label_worker : String → String → Worker → Worker
label_worker name class worker =
    let labels : Labels = elim worker.meta.labels [ none ↦ [] | some labels ↦ labels ] in
    record worker {
      meta = record worker.meta {
        labels = some (
            set_label "netcon.janog.gr.jp/workerClass" class
              (set_label "netcon.janog.gr.jp/workerName" name labels));
      };
    }

-- The function given to `CreateOrUpdate` for the Lease, at the time `now`.
pub renew_lease : String → ℕ → Lease → Lease
renew_lease holder now lease = record {
  holder_identity = some holder;
  renew_time = some now;
  lease_duration_seconds = some 5;
}

module _ {C F : Type 0} (k : Client C) (numbers : Numbers F) (format_float : F → String)
    (worker_name external_ip_address : String) (external_port : ℕ) where
  -- A tick of the status ticker; its errors are logged only, so it answers with nothing.
  pub report_status : Result String String → Agent F → M C (Unit {0})
  report_status hostname a = do
    got ← fetch (k.get_worker worker_name)
    elim got [
      | err e ↦ pure tt
      | ok worker ↦ elim hostname [
        | err e ↦ pure tt
        | ok host ↦
            let used = get_metrics numbers a in
            (do
              written ← send_worker_status k (record worker {
                status = record worker.status {
                  worker_info = record {
                    external_ip_address = external_ip_address;
                    external_port = external_port;
                    hostname = host;
                    memory_used_percent = format_float used.1;
                    cpu_used_percent = format_float used.0;
                  };
                };
              })
              pure tt)
      ]
    ]
