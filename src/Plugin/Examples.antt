-- ===== src/Plugin/Examples.antt =====
-- Commands on two environments.
use netcon_problem_managemen.Prelude.{◌≡◌, inl, refl, [], ◌∷◌, none, some}
use netcon_problem_managemen.Samples.{waiting}
use netcon_problem_managemen.Samples.Machine.{owner_of}
use netcon_problem_managemen.Host.{ConfigMap}
use netcon_problem_managemen.Nclet.Drivers.Containerlab.{Times, deploy_log}
use netcon_problem_managemen.Plugin.DeployLogs.{select_log}
use netcon_problem_managemen.Plugin.DeployLogs.Prefixes.{Passed, select_log-starts}

abbrev times : Times
times = record { started_unix = "1700000000"; started_at = "t0"; ended_at = "t1" }

-- The log of another environment, which stands first in the list.
abbrev other_log : ConfigMap
other_log =
    deploy_log times owner_of (waiting "lab")
      (record { stdout = ""; stderr = "level=info"; error = none })

other_log-Passed : Passed "env" other_log
unfolding deploy_log
other_log-Passed = inl refl

-- The log of `env-2`, whose name starts with `env`.
select_log-starts_example :
    select_log "env" (
      other_log
      ∷ deploy_log times owner_of
          (waiting "env-2")
          (record { stdout = ""; stderr = "level=error"; error = none })
      ∷ [])
    ≡ some "level=error"
select_log-starts_example =
    select_log-starts "env" "-2" times owner_of (waiting "env-2")
      (record { stdout = ""; stderr = "level=error"; error = none }) (other_log ∷ []) [] refl
      (other_log-Passed, tt)
