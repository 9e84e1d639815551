-- ===== src/Startup/Nclet/Examples.antt =====
-- A process of nclet on a machine where everything works but the random source.
use netcon_problem_managemen.Prelude.{ℕ, ◌≢◌, refl, none, [], ok}
use netcon_problem_managemen.Prelude.Int.{pos}
use netcon_problem_managemen.Startup.{Manager, add, start, launch}
use netcon_problem_managemen.Startup.Nclet.{
  Flags, Machine, NcletPart, is_positive, run_nclet, prepare, after_tracing, after_manager,
  after_hostname, add_parts, add_agent, count_cores,
}
use netcon_problem_managemen.Startup.Launched.{}
use netcon_problem_managemen.Startup.Nclet.Started.{Prepared, run_nclet-finished}

abbrev flags : Flags
flags = record {
  ssh_addr = "192.0.2.1:2222";
  external_ip_addr = "192.0.2.1";
  config_dir = "/data";
  admin_pass = "";
  worker_class = "c1";
  heartbeat_interval = "1s";
  status_update_interval = "10s";
  max_workers = pos 0;
}

abbrev willing : Manager ℕ NcletPart
willing = record {
  new_manager = λ c. (ok tt, c);
  add = λ part c. (ok tt, c);
  start = λ c. (ok tt, c);
}

abbrev machine : Machine ℕ
machine = record {
  setup_tracing = λ c. (ok tt, c);
  hostname = λ c. (ok "w1", c);
  random = λ i. none;
  parse_duration = λ text. pos 1000000000;
  cpu_counts = λ c. (16, c);
}

run_nclet-finished_example :
    (flags.worker_class ≢ "")
    × Prepared willing machine flags 0 [] (run_nclet willing machine flags (0, [])).1.1
unfolding run_nclet prepare after_tracing after_manager after_hostname add_parts add_agent
    count_cores add start launch is_positive
run_nclet-finished_example = run_nclet-finished willing machine flags 0 [] refl
