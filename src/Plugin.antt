-- ===== src/Plugin.antt =====
-- pkg/kubectl-netcon/cmd: the commands that change a resource, and the one that opens a session, from
-- the first request on; DeployLogs and Lists have those that print. The construction of the client is
-- not modelled, and what the commands here print is left out. The client of the commands is the typed
-- one of pkg/clientset, which sends the same requests; a deletion names the fetched object, and its
-- propagation policy is left out.
pub mod Guards
pub mod Sessions
pub mod DeployLogs
mod Lists
mod Examples
use netcon_problem_managemen.Prelude.{
  ℕ, String, Bool, true, false, not, ◌&&◌, ◌||◌, List, [], ◌∷◌, ◌==◌, Result, ok, err, eqb, concat,
  if◌then◌else◌,
}
use netcon_problem_managemen.Api.{
  ProblemEnvironment, Worker, condition_ready, condition_assigned, condition_true, condition_false,
}
use netcon_problem_managemen.Condition.{
  is_true, is_false, set_problem_environment_condition, get_problem_environment_condition,
}
use netcon_problem_managemen.Kube.{
  ApiError, Client, M, pure, fetch, send_status, send_delete, send_worker, ◌>>=◌,
}

-- The error of a command: the server's, or the command's own.
pub data CommandError : Type 0 where
  server_error : ApiError → CommandError
  refused : String → CommandError

-- `return err` after a request that failed.
pub finished : {A : Type 0} → Result ApiError A → Result CommandError (Unit {0})
finished (ok a) = ok tt
finished (err e) = err (server_error e)

module _ {C : Type 0} (k : Client C) (namespace : String) where
  pub delete : Bool → String → M C (Result CommandError (Unit {0}))
  delete force name = do
    got ← fetch (k.get_problem_environment namespace name)
    elim got [
      | err e ↦ pure (err (server_error e))
      | ok pe ↦
          if not force && is_true (get_problem_environment_condition pe condition_assigned)
          then pure (
              err (
                refused
                  "failed to delete: ProblemEnvironment is already assigned, please unassign before deleting"))
          else (do deleted ← send_delete k pe; pure (finished deleted))
    ]

  pub assign : ℕ → String → M C (Result CommandError (Unit {0}))
  assign now name = do
    got ← fetch (k.get_problem_environment namespace name)
    elim got [
      | err e ↦ pure (err (server_error e))
      | ok pe ↦
          if not (is_true (get_problem_environment_condition pe condition_ready))
          then pure (err (refused "failed to update status: ProblemEnvironment is not ready"))
          else if not (is_false (get_problem_environment_condition pe condition_assigned))
          then pure
              (err (refused "failed to update status: ProblemEnvironment is already assigned"))
          else (do
            written ← send_status k (
                set_problem_environment_condition now pe condition_assigned condition_true
                  "AdminUpdated" "assigned by admin forcibly")
            pure (finished written))
    ]

  pub unassign : ℕ → String → M C (Result CommandError (Unit {0}))
  unassign now name = do
    got ← fetch (k.get_problem_environment namespace name)
    elim got [
      | err e ↦ pure (err (server_error e))
      | ok pe ↦
          if not (is_true (get_problem_environment_condition pe condition_assigned))
          then pure (err (refused "failed to update status: ProblemEnvironment is not assigned"))
          else (do
            written ← send_status k (
                set_problem_environment_condition now pe condition_assigned condition_false
                  "AdminUpdated" "assigned by admin forcibly")
            pure (finished written))
    ]

module _ {C : Type 0} (k : Client C) where
  enable : String → M C (Result CommandError (Unit {0}))
  enable name = do
    got ← fetch (k.get_worker name)
    elim got [
      | err e ↦ pure (err (server_error e))
      | ok worker ↦
          if not worker.spec.disable_schedule
          then pure (err (refused "failed to enable Worker: Worker is already enabled"))
          else (do
            written ← send_worker k (record worker { spec = record { disable_schedule = false } })
            pure (finished written))
    ]

  disable : String → M C (Result CommandError (Unit {0}))
  disable name = do
    got ← fetch (k.get_worker name)
    elim got [
      | err e ↦ pure (err (server_error e))
      | ok worker ↦
          if worker.spec.disable_schedule
          then pure (err (refused "failed to disable Worker: Worker is already disabled"))
          else (do
            written ← send_worker k (record worker { spec = record { disable_schedule = true } })
            pure (finished written))
    ]

-- What the `ssh` command is started with: the user, the address and the port.
pub record Session : Type 0 where
  pub user : String
  pub address : String
  pub port : ℕ

module _ {C : Type 0} (k : Client C) (namespace : String) where
  pub open_session : Bool → String → M C (Result CommandError Session)
  open_session admin name = do
    got ← fetch (k.get_problem_environment namespace name)
    elim got [
      | err e ↦ pure (err (server_error e))
      | ok pe ↦
          if pe.spec.worker_name == ""
          then pure (err (refused "ProblemEnvironment is not scheduled yet"))
          else (do
            found ← fetch (k.get_worker pe.spec.worker_name)
            pure (elim found [
              | err e ↦ err (server_error e)
              | ok worker ↦
                  let address = worker.status.worker_info.external_ip_address in
                  let port = worker.status.worker_info.external_port in
                  if (address == "") || eqb port 0
                  then err (refused "Worker is not ready yet")
                  else ok record {
                    user =
                        if admin then concat "ncadmin_" pe.meta.name else concat "nc_" pe.meta.name;
                    address = address;
                    port = port;
                  }
            ]))
    ]
