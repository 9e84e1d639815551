-- ===== src/Gateway.antt =====
-- controllers/gateway: handing out, showing and releasing ProblemEnvironments (`usecases.go`,
-- `errors.go`, `types.go`) and the HTTP handlers above (`http.go`). The router is left out; a handler
-- is given the URL parameter or the body. `encoding/json` and the text of an API error are parameters.
pub mod Selection
pub mod Claims
pub mod Acquisition
pub mod Responses
mod Examples
use netcon_problem_managemen.Prelude.{
  ℕ, String, Bool, true, false, ◌&&◌, Option, none, some, List, [], ◌∷◌, Result, ok, err, concat,
  if◌then◌else◌,
}
use netcon_problem_managemen.Api.{
  ProblemEnvironment, Worker, condition_ready, condition_assigned, condition_true, event_assigned,
}
use netcon_problem_managemen.Condition.{
  is_true, is_false, set_problem_environment_condition, get_problem_environment_condition,
}
use netcon_problem_managemen.Kube.{
  ApiError, not_found, failed, Client, M, normal, pure, fetch, record_event, send_status,
  send_delete, ◌>>=◌, ◌>>◌,
}

-- types.go `ProblemEnvironment`, which the two responses are copies of.
pub record Access : Type 0 where
  pub name : String
  pub host : String
  pub port : ℕ
  pub user : String
  pub password : String

-- errors.go, and any other error of the client.
pub data GatewayError : Type 0 where
  problem_not_found problem_environment_not_found worker_not_found : String → GatewayError
  no_available_problem_environment : String → GatewayError
  other : ApiError → GatewayError

-- The `Error` methods; `text` is that of the client's errors.
error_text : (ApiError → String) → GatewayError → String
error_text text (problem_not_found name) = concat "Problem not found: " name
error_text text (problem_environment_not_found name) = concat "ProblemEnvironment not found: " name
error_text text (worker_not_found name) = concat "Worker not found: " name
error_text text (no_available_problem_environment name) =
    concat "No available ProblemEnvironment for: " name
error_text text (other e) = text e

-- `errors.IsNotFound(err)`: the program's own error in its place.
pub unless_not_found : GatewayError → ApiError → GatewayError
unless_not_found own not_found = own
unless_not_found own (failed e) = other (failed e)

unfoldable pub get_problem_environment_for : ProblemEnvironment → Worker → Access
get_problem_environment_for pe worker = record {
  name = pe.meta.name;
  host = worker.status.worker_info.external_ip_address;
  port = worker.status.worker_info.external_port;
  user = concat "nc_" pe.meta.name;
  password = pe.status.password;
}

unfoldable pub is_available : ProblemEnvironment → Bool
is_available pe =
    is_false (get_problem_environment_condition pe condition_assigned)
    && is_true (get_problem_environment_condition pe condition_ready)

-- The selecting loop.
pub first_available : List ProblemEnvironment → Option ProblemEnvironment
first_available [] = none
first_available (pe ∷ pes) = if is_available pe then some pe else first_available pes

unfoldable pub assigned : ℕ → ProblemEnvironment → ProblemEnvironment
assigned now pe =
    set_problem_environment_condition now pe condition_assigned condition_true "Assigned"
      "Assigned ProblemEnvironment"

module _ {C : Type 0} (k : Client C) where
  -- The Get of the worker and the answer, with which both use cases end.
  pub access_to : ProblemEnvironment → M C (Result GatewayError Access)
  access_to pe = do
    got ← fetch (k.get_worker pe.spec.worker_name)
    pure (elim got [
      | err e ↦ err (unless_not_found (worker_not_found pe.spec.worker_name) e)
      | ok worker ↦ ok (get_problem_environment_for pe worker)
    ])

  pub get_problem_environment : String → M C (Result GatewayError Access)
  get_problem_environment name = do
    got ← fetch (k.get_problem_environment "netcon" name)
    elim got [
      | err e ↦ pure (err (unless_not_found (problem_environment_not_found name) e))
      | ok pe ↦ access_to pe
    ]

  -- `AcquireProblemEnvironment` from the update of the selected environment on.
  pub claim : ℕ → ProblemEnvironment → M C (Result GatewayError Access)
  claim now selected = do
    written ← send_status k (assigned now selected)
    elim written [
      | err e ↦ pure (err (other e))
      | ok pe ↦ do
        record_event pe.meta.name normal event_assigned "ProblemEnvironment assigned"
        access_to pe
    ]

  pub select : String → M C (Result GatewayError ProblemEnvironment)
  select problem_name = do
    got ← fetch (k.get_problem "netcon" problem_name)
    elim got [
      | err e ↦ pure (err (unless_not_found (problem_not_found problem_name) e))
      | ok problem ↦ do
        listed ← fetch (k.list_problem_environments none (("problemName", problem_name) ∷ []))
        pure (elim listed [
          | err e ↦ err (other e)
          | ok pes ↦ elim (first_available pes) [
            | none ↦ err (no_available_problem_environment problem_name)
            | some pe ↦ ok pe
          ]
        ])
    ]

  pub acquire_problem_environment : ℕ → String → M C (Result GatewayError Access)
  acquire_problem_environment now problem_name = do
    selected ← select problem_name
    elim selected [ err e ↦ pure (err e) | ok pe ↦ claim now pe ]

  release_problem_environment : String → M C (Result GatewayError (Unit {0}))
  release_problem_environment name = do
    got ← fetch (k.get_problem_environment "netcon" name)
    elim got [
      | err e ↦ pure (err (unless_not_found (problem_environment_not_found name) e))
      | ok pe ↦ do
        deleted ← send_delete k pe
        pure (elim deleted [ err e ↦ err (other e) | ok _ ↦ ok tt ])
    ]

pub record Response : Type 0 where
  pub status : ℕ
  pub body : String

-- `json.Encoder` on an answer, `none` for an error, and `json.Decoder` on the body of a request with
-- unknown fields refused: the problem's name.
pub record Json : Type 0 where
  pub encode : Access → Option String
  pub decode : String → Option String

pub render_json : Json → Access → Response
render_json json access = elim (json.encode access) [
  | none ↦ record { status = 500; body = "" }
  | some text ↦ record { status = 200; body = text }
]

module _ (text : ApiError → String) where
  -- The error branches of the three handlers.
  get_error : GatewayError → Response
  get_error (problem_environment_not_found name) = record { status = 404; body = "" }
  get_error (worker_not_found name) = record { status = 500; body = "worker not found" }
  get_error e = record { status = 500; body = error_text text e }

  pub acquire_error : GatewayError → Response
  acquire_error (problem_not_found name) = record { status = 404; body = "" }
  acquire_error (no_available_problem_environment name) = record { status = 503; body = "" }
  acquire_error (worker_not_found name) = record { status = 500; body = "worker not found" }
  acquire_error e = record { status = 500; body = error_text text e }

  pub release_error : GatewayError → Response
  release_error (problem_environment_not_found name) = record { status = 404; body = "" }
  release_error e = record { status = 500; body = error_text text e }

module _ {C : Type 0} (k : Client C) (json : Json) (text : ApiError → String) where
  get_problem_environment_controller : String → M C Response
  get_problem_environment_controller name = do
    got ← get_problem_environment k name
    pure (elim got [ err e ↦ get_error text e | ok access ↦ render_json json access ])

  pub acquire_problem_environment_handler : ℕ → String → M C Response
  acquire_problem_environment_handler now body = elim (json.decode body) [
    | none ↦ pure (record { status = 400; body = "" })
    | some problem_name ↦ do
      acquired ← acquire_problem_environment k now problem_name
      pure (elim acquired [ err e ↦ acquire_error text e | ok access ↦ render_json json access ])
  ]

  release_problem_environment_handler : String → M C Response
  release_problem_environment_handler name = do
    released ← release_problem_environment k name
    pure
        (elim released [ err e ↦ release_error text e | ok _ ↦ record { status = 200; body = "" } ])
