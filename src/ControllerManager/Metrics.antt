-- ===== src/ControllerManager/Metrics.antt =====
-- metrics_exporter.go, `collect`: one scrape. The gauges are a state of the model's own: a gauge is a
-- number, a gauge vector the number under each pair of labels, namespace and name. Numbers are
-- written as they are counted, before the conversion to float64. `Start` registers the gauges and
-- calls `collect` at each tick.
pub mod Counted
mod Examples
use netcon_problem_managemen.Prelude.{
  ℕ, ◌+◌, String, Bool, true, false, not, ◌&&◌, Option, none, some, List, [], ◌∷◌, ◌==◌, Result, ok,
  err, length, if◌then◌else◌,
}
use netcon_problem_managemen.Prelude.Int.{ℤ}
use netcon_problem_managemen.Api.{
  ProblemEnvironment, Problem, Worker, condition_ready, condition_assigned, worker_condition_ready,
}
use netcon_problem_managemen.Condition.{
  is_true, get_problem_environment_condition, get_worker_condition,
}
use netcon_problem_managemen.Kube.{ApiError, Client, M, pure, fetch, ◌>>=◌}

-- A gauge vector, by namespace and name.
abbrev pub GaugeVec : Type 0 → Type 0
GaugeVec A = List ((String × String) × A)

-- `WithLabelValues(labels...).Set(value)`
pub set_gauge : {A : Type 0} → String → String → A → GaugeVec A → GaugeVec A
set_gauge namespace name value [] = ((namespace, name), value) ∷ []
set_gauge namespace name value (((ns, n), v) ∷ gauges) =
    if (ns == namespace) && (n == name)
    then ((namespace, name), value) ∷ gauges
    else ((ns, n), v) ∷ set_gauge namespace name value gauges

pub record Gauges : Type 0 where
  pub workers_total : ℕ
  pub workers_ready : GaugeVec ℕ
  pub workers_schedulable : GaugeVec ℕ
  pub workers_scheduled_problem_environments_total : GaugeVec ℕ
  pub problems_total : ℕ
  pub problems_assignable_replicas_total : GaugeVec ℤ
  pub problem_environments_total : GaugeVec ℕ
  pub problem_environments_ready_total : GaugeVec ℕ
  pub problem_environments_assigned_total : GaugeVec ℕ
  pub problem_environments_ready : GaugeVec ℕ

-- The loop that counts the environments of a worker.
count_on_worker : String → ℕ → List ProblemEnvironment → ℕ
count_on_worker name total [] = total
count_on_worker name total (pe ∷ pes) =
    count_on_worker name (if pe.spec.worker_name == name then total + 1 else total) pes

set_worker_gauges : List ProblemEnvironment → List Worker → Gauges → Gauges
set_worker_gauges pes [] g = g
set_worker_gauges pes (worker ∷ workers) g =
    let namespace = worker.meta.namespace in
    let name = worker.meta.name in
    let schedulable_value : ℕ = if not worker.spec.disable_schedule then 1 else 0 in
    let ready_value : ℕ =
      if is_true (get_worker_condition worker worker_condition_ready) then 1 else 0 in
    set_worker_gauges pes workers (record g {
      workers_ready = set_gauge namespace name ready_value g.workers_ready;
      workers_schedulable = set_gauge namespace name schedulable_value g.workers_schedulable;
      workers_scheduled_problem_environments_total =
          set_gauge namespace name (count_on_worker name 0 pes)
            g.workers_scheduled_problem_environments_total;
    })

set_assignable_gauges : List Problem → Gauges → Gauges
set_assignable_gauges [] g = g
set_assignable_gauges (problem ∷ problems) g = set_assignable_gauges problems (record g {
  problems_assignable_replicas_total =
      set_gauge problem.meta.namespace problem.meta.name problem.spec.assignable_replicas
        g.problems_assignable_replicas_total;
})

-- Is the first owner named so?
pub is_owned_by : String → ProblemEnvironment → Bool
is_owned_by name pe = elim pe.meta.owner_references [
  | [] ↦ false
  | owner ∷ owners ↦ owner.name == name
]

-- The loop over the environments for one problem: total, ready and assigned.
pub count_owned : String → ℕ × ℕ × ℕ → List ProblemEnvironment → ℕ × ℕ × ℕ
count_owned name counts [] = counts
count_owned name (total, ready, assigned) (pe ∷ pes) =
    count_owned name
      (if not (is_owned_by name pe) then (total, ready, assigned) else (
        total + 1,
        (if is_true (get_problem_environment_condition pe condition_ready)
            then ready + 1
            else ready),
        (if is_true (get_problem_environment_condition pe condition_assigned)
            then assigned + 1
            else assigned),
      ))
      pes

pub set_problem_gauges : List ProblemEnvironment → List Problem → Gauges → Gauges
set_problem_gauges pes [] g = g
set_problem_gauges pes (problem ∷ problems) g =
    let namespace = problem.meta.namespace in
    let name = problem.meta.name in
    let (total, ready_total, assigned_total) = count_owned name (0, 0, 0) pes in
    set_problem_gauges pes problems (record g {
      problem_environments_total = set_gauge namespace name total g.problem_environments_total;
      problem_environments_ready_total =
          set_gauge namespace name ready_total g.problem_environments_ready_total;
      problem_environments_assigned_total =
          set_gauge namespace name assigned_total g.problem_environments_assigned_total;
    })

pub set_ready_gauges : List ProblemEnvironment → Gauges → Gauges
set_ready_gauges [] g = g
set_ready_gauges (pe ∷ pes) g =
    let is_ready = is_true (get_problem_environment_condition pe condition_ready) in
    let value : ℕ = if is_ready then 1 else 0 in
    set_ready_gauges pes (record g {
      problem_environments_ready =
          set_gauge pe.meta.namespace pe.meta.name value g.problem_environments_ready;
    })

-- `collect` once the three lists are read.
pub set_gauges : List Worker → List Problem → List ProblemEnvironment → Gauges → Gauges
set_gauges workers problems pes g =
    let g1 = record g {
      workers_total = length workers;
      workers_ready = [];
      workers_schedulable = [];
      workers_scheduled_problem_environments_total = [];
    } in
    let g2 = set_worker_gauges pes workers g1 in
    let g3 = record g2 {
      problems_total = length problems;
      problems_assignable_replicas_total = [];
    } in
    let g4 = set_assignable_gauges problems g3 in
    let g5 = record g4 {
      problem_environments_total = [];
      problem_environments_ready_total = [];
      problem_environments_assigned_total = [];
      problem_environments_ready = [];
    } in
    set_ready_gauges pes (set_problem_gauges pes problems g5)

collect : {C : Type 0} → Client C → Gauges → M C (Result ApiError (Unit {0}) × Gauges)
collect k g = do
  workers ← fetch k.list_workers
  elim workers [
    | err e ↦ pure (err e, g)
    | ok workers ↦ do
      problems ← fetch k.list_problems
      elim problems [
        | err e ↦ pure (err e, g)
        | ok problems ↦ do
          pes ← fetch (k.list_problem_environments none [])
          pure (elim pes [
            | err e ↦ (err e, g)
            | ok pes ↦ (ok tt, set_gauges workers problems pes g)
          ])
      ]
  ]
