-- ===== src/Gateway/Examples.antt =====
-- Acquisitions against the small server.
use netcon_problem_managemen.Prelude.{
  ℕ, ◌+◌, ◌≡◌, refl, some, List, [], ◌∷◌, arith, ok, err, eqb, if◌then◌else◌, false,
}
use netcon_problem_managemen.Api.{ProblemEnvironment, condition_true}
use netcon_problem_managemen.Condition.{
  is_true, is_false, get_condition, get_problem_environment_condition,
  set_problem_environment_condition,
}
use netcon_problem_managemen.Kube.{not_found, Client, World}
use netcon_problem_managemen.Gateway.{
  GatewayError, Json, is_available, first_available, assigned, access_to, claim,
  acquire_problem_environment,
}
use netcon_problem_managemen.Gateway.Acquisition.{Acquired, acquire_problem_environment-Acquired}
use netcon_problem_managemen.Gateway.Claims.{Locking, claim_exclusive}
use netcon_problem_managemen.Samples.{server, world, waiting, handed_out, worker}

abbrev two : List ProblemEnvironment
two = handed_out "a" ∷ waiting "b" ∷ []

-- The second environment is the one that is free.
second_picked : first_available two ≡ some (waiting "b")
unfolding first_available is_available is_true is_false get_problem_environment_condition
    get_condition
second_picked = refl

acquire_problem_environment-Acquired_example :
    let (result, w') = acquire_problem_environment server 500 "p1" (world two) in
    Acquired server 500 "p1" (world two) result w'.writes
acquire_problem_environment-Acquired_example =
    acquire_problem_environment-Acquired server 500 "p1" (world two)

abbrev plain : Json
plain = record { encode = λ access. some access.user; decode = λ body. some body }

-- A server of one counter: it accepts a status update at the counter's value only.
abbrev counting : Client ℕ
counting = record {
  get_problem = λ namespace name c. (err not_found, c);
  get_problem_environment = λ namespace name c. (err not_found, c);
  get_worker = λ name c. (ok (worker name false condition_true), c);
  get_lease = λ namespace name c. (err not_found, c);
  list_problems = λ c. (ok [], c);
  list_problem_environments = λ namespace labels c. (ok [], c);
  list_workers = λ c. (ok [], c);
  create_problem_environment = λ pe c. (ok pe, c);
  update_problem_environment = λ pe c. (ok pe, c);
  update_problem_environment_status =
      λ pe c. if eqb c pe.meta.resource_version then (ok pe, c + 1) else (err not_found, c);
  delete_problem_environment = λ pe c. (ok tt, c);
  update_problem_status = λ p c. (ok p, c);
  update_worker = λ w c. (ok w, c);
  update_worker_status = λ w c. (ok w, c);
}

counting-Locking : Locking counting
counting-Locking = record {
  version = λ c name. c;
  accepts_current = λ pe pe' c h. ground arith;
  moves_on = λ pe pe' c h. ground arith;
  never_back = λ worker name c. omega arith;
}

abbrev at_seven : World ℕ
at_seven = record { cluster = 7; events = []; writes = []; commands = [] }

claim_exclusive_example :
    (e : GatewayError) × ((claim counting 501 (waiting "b") (record at_seven { cluster = 8 })).0
      ≡ err e)
unfolding claim access_to assigned set_problem_environment_condition
claim_exclusive_example =
    claim_exclusive counting counting-Locking 500 501 (waiting "b") (waiting "b") at_seven
      (record at_seven { cluster = 8 }) refl refl refl (omega arith)
