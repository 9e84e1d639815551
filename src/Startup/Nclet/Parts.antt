-- ===== src/Startup/Nclet/Parts.antt =====
-- What nclet gives to its manager, made of its flags and of what the machine answers.
use netcon_problem_managemen.Prelude.{ℕ, String, List, [], ◌∷◌}
use netcon_problem_managemen.Startup.Nclet.{
  Flags, Machine, NcletPart, reconciler, ssh_server, heartbeat_agent, health_check, ready_check,
  choose_admin_password, reported_port, concurrency,
}

abbrev pub reconciler_part : Flags → String → ℕ → NcletPart
reconciler_part flags host cores =
    reconciler host flags.config_dir (concurrency flags.max_workers cores)

abbrev pub checks : List NcletPart
checks = health_check ∷ ready_check ∷ []

module _ {C : Type 0} (machine : Machine C) (flags : Flags) where
  abbrev pub ssh_part : NcletPart
  ssh_part = ssh_server flags.ssh_addr (choose_admin_password machine.random flags.admin_pass)

  abbrev pub agent_part : String → NcletPart
  agent_part host =
      heartbeat_agent host flags.worker_class flags.external_ip_addr (reported_port flags.ssh_addr)
        (machine.parse_duration flags.heartbeat_interval)
        (machine.parse_duration flags.status_update_interval)
