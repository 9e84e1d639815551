-- ===== src/Plugin/Lists.antt =====
-- pkg/kubectl-netcon/cmd: the two commands `list`. The resource version that the server puts on a list
-- is a parameter; it is not printed.
use netcon_problem_managemen.Prelude.{ℕ, String, Bool, some, [], Result, ok, err}
use netcon_problem_managemen.Kube.{ApiError, Client, M, pure, fetch, ◌>>=◌}
use netcon_problem_managemen.Printers.{
  Printed, environment_list_object, worker_list_object, print_object,
}

module _ {C : Type 0} (k : Client C) (age : ℕ → String) (namespace : String) (resource_version : ℕ)
    (verbose : Bool) where
  list_environments : M C (Result ApiError Printed)
  list_environments = do
    listed ← fetch (k.list_problem_environments (some namespace) [])
    pure (elim listed [
      | err e ↦ err e
      | ok pes ↦ ok (print_object age verbose (environment_list_object resource_version pes))
    ])

  list_workers : M C (Result ApiError Printed)
  list_workers = do
    listed ← fetch k.list_workers
    pure (elim listed [
      | err e ↦ err e
      | ok workers ↦ ok (print_object age verbose (worker_list_object resource_version workers))
    ])
