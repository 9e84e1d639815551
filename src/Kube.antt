-- ===== src/Kube.antt =====
-- The Kubernetes client that the components are written against (controller-runtime's
-- `client.Client` and `record.EventRecorder`), as a parameter. Nothing is assumed of it here: `C` is
-- all that a call can see or change, other actors' doings between two calls included, and each call
-- answers with a value or an error. `World` adds three histories to `C`, newest first: the events that
-- the program recorded, the writes that it sent, and the commands that it gave to the driver.
use netcon_problem_managemen.Prelude.{ℕ, String, Option, List, ◌∷◌, Result}
use netcon_problem_managemen.Api.{Labels, Problem, ProblemEnvironment, Worker}

-- A Go `error`: the program asks only whether one of the client or of docker is a "not found".
pub data ApiError : Type 0 where
  not_found : ApiError
  failed : String → ApiError

-- coordination/v1 Lease: its `HolderIdentity`, `RenewTime` and `LeaseDurationSeconds`, all pointers.
pub record Lease : Type 0 where
  pub holder_identity : Option String
  pub renew_time : Option ℕ
  pub lease_duration_seconds : Option ℕ

abbrev pub Call : Type 0 → Type 0 → Type 0
Call C A = C → Result ApiError A × C

-- A write answers with the object as the server returned it, which the client copies into its
-- argument.
pub record Client (C : Type 0) : Type 0 where
  pub get_problem : String → String → Call C Problem
  pub get_problem_environment : String → String → Call C ProblemEnvironment
  pub get_worker : String → Call C Worker
  pub get_lease : String → String → Call C Lease
  pub list_problems : Call C (List Problem)
  pub list_problem_environments : Option String → Labels → Call C (List ProblemEnvironment)
  pub list_workers : Call C (List Worker)
  pub create_problem_environment : ProblemEnvironment → Call C ProblemEnvironment
  pub update_problem_environment : ProblemEnvironment → Call C ProblemEnvironment
  pub update_problem_environment_status : ProblemEnvironment → Call C ProblemEnvironment
  pub delete_problem_environment : ProblemEnvironment → Call C Unit
  pub update_problem_status : Problem → Call C Problem
  pub update_worker : Worker → Call C Worker
  pub update_worker_status : Worker → Call C Worker

pub data Write : Type 0 where
  create_environment update_environment update_environment_status : ProblemEnvironment → Write
  delete_environment : ProblemEnvironment → Write
  update_replicas : Problem → Write
  update_worker_spec update_worker_info : Worker → Write

-- What nclet tells its driver to do on the machine.
pub data Command : Type 0 where
  deploy_instance destroy_instance : ProblemEnvironment → Command

pub data EventType : Type 0 where
  normal warning : EventType

pub record Event : Type 0 where
  pub object : String
  pub type : EventType
  pub reason : String
  pub message : String

pub record World (C : Type 0) : Type 0 where
  pub cluster : C
  pub events : List Event
  pub writes : List Write
  pub commands : List Command

-- A body that reads and changes the world.
abbrev pub M : Type 0 → Type 0 → Type 0
M C A = World C → A × World C

module _ {C : Type 0} where
  abbrev pub pure {ℓ} : {A : Type ℓ} → A → World C → A × World C
  pure a w = (a, w)

  infixl 5 ◌>>=◌ ◌>>◌
  abbrev pub ◌>>=◌ : {A B : Type 0} → M C A → (A → M C B) → M C B
  ◌>>=◌ m f w = f (m w).0 (m w).1

  abbrev pub ◌>>◌ : {B : Type 0} → M C (Unit {0}) → M C B → M C B
  ◌>>◌ m n w = n (m w).1

  -- A read.
  abbrev pub fetch : {A : Type 0} → Call C A → M C (Result ApiError A)
  fetch call w = ((call w.cluster).0, record w { cluster = (call w.cluster).1 })

  -- A write, with its entry in the history.
  abbrev send : {A : Type 0} → Write → Call C A → M C (Result ApiError A)
  send write call w =
      ((call w.cluster).0, record w { cluster = (call w.cluster).1; writes = write ∷ w.writes })

  -- `Recorder.Event`
  abbrev pub record_event : String → EventType → String → String → M C (Unit {0})
  record_event object type reason message w = (
    tt,
    record w {
      events =
          record { object = object; type = type; reason = reason; message = message } ∷ w.events;
    },
  )

module _ {C : Type 0} (k : Client C) where
  abbrev pub send_create : ProblemEnvironment → M C (Result ApiError ProblemEnvironment)
  send_create pe = send (create_environment pe) (k.create_problem_environment pe)

  abbrev pub send_update : ProblemEnvironment → M C (Result ApiError ProblemEnvironment)
  send_update pe = send (update_environment pe) (k.update_problem_environment pe)

  abbrev pub send_status : ProblemEnvironment → M C (Result ApiError ProblemEnvironment)
  send_status pe = send (update_environment_status pe) (k.update_problem_environment_status pe)

  abbrev pub send_delete : ProblemEnvironment → M C (Result ApiError (Unit {0}))
  send_delete pe = send (delete_environment pe) (k.delete_problem_environment pe)

  abbrev pub send_replicas : Problem → M C (Result ApiError Problem)
  send_replicas problem = send (update_replicas problem) (k.update_problem_status problem)

  abbrev pub send_worker : Worker → M C (Result ApiError Worker)
  send_worker worker = send (update_worker_spec worker) (k.update_worker worker)

  abbrev pub send_worker_status : Worker → M C (Result ApiError Worker)
  send_worker_status worker = send (update_worker_info worker) (k.update_worker_status worker)

-- What a reconcile returns: `(ctrl.Result, error)`, with the seconds of `RequeueAfter` (0 for none).
abbrev pub Reconciled : Type 0
Reconciled = Result ApiError ℕ
