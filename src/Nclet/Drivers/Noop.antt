-- ===== src/Nclet/Drivers/Noop.antt =====
-- drivers/noop.go.
use netcon_problem_managemen.Prelude.{none, ok}
use netcon_problem_managemen.Nclet.Environments.{Driver, status_deployed}

unfoldable noop_driver : {C : Type 0} → Driver C
noop_driver = record {
  check = λ pe c. ((status_deployed, none), c);
  deploy = λ pe c. (ok tt, c);
  destroy = λ pe c. (ok tt, c);
}
