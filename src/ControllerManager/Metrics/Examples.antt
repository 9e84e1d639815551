-- ===== src/ControllerManager/Metrics/Examples.antt =====
-- A scrape of one problem with three environments.
use netcon_problem_managemen.Prelude.{[], ◌∷◌, List}
use netcon_problem_managemen.Api.{ProblemEnvironment}
use netcon_problem_managemen.ControllerManager.Metrics.{Gauges}
use netcon_problem_managemen.Samples.{waiting, handed_out}

abbrev empty_gauges : Gauges
empty_gauges = record {
  workers_total = 0;
  workers_ready = [];
  workers_schedulable = [];
  workers_scheduled_problem_environments_total = [];
  problems_total = 0;
  problems_assignable_replicas_total = [];
  problem_environments_total = [];
  problem_environments_ready_total = [];
  problem_environments_assigned_total = [];
  problem_environments_ready = [];
}

abbrev three : List ProblemEnvironment
three = waiting "a" ∷ handed_out "b" ∷ waiting "c" ∷ []
