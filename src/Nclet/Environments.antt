-- ===== src/Nclet/Environments.antt =====
-- controllers/nclet/problemenvironment_controller.go and drivers/interface.go. The driver is the
-- interface, over the same `C` as the client; the finalizer functions of controller-runtime are a
-- parameter too. `now i` is the i-th reading of the clock in the call, `elapsed` the printed duration
-- of the deployment.
pub mod Refresh
pub mod Duties
pub mod Unwritten
pub mod Instances
pub mod Origins
mod Examples
use netcon_problem_managemen.Prelude.{
  ℕ, String, Bool, true, false, not, ◌&&◌, Option, none, some, List, [], ◌∷◌, ◌==◌, Result, ok, err,
  concat, if◌then◌else◌,
}
use netcon_problem_managemen.Api.{
  ContainerStatus, ProblemEnvironment, condition_scheduled, condition_deployed, condition_ready,
  condition_true, condition_false, event_deploying, event_deployed,
}
use netcon_problem_managemen.Condition.{
  is_true, set_problem_environment_condition, get_problem_environment_condition,
}
use netcon_problem_managemen.Kube.{
  ApiError, not_found, failed, Client, M, World, Command, deploy_instance, destroy_instance,
  Reconciled, normal, pure, fetch, record_event, send_update, send_status, ◌>>=◌, ◌>>◌,
}

-- drivers.ProblemEnvironmentStatus
pub data DriverStatus : Type 0 where
  status_init status_deployed status_error : DriverStatus

-- drivers.ProblemEnvironmentDriver
pub record Driver (C : Type 0) : Type 0 where
  pub check : ProblemEnvironment → C → (DriverStatus × Option (List ContainerStatus)) × C
  pub deploy : ProblemEnvironment → C → Result ApiError (Unit {0}) × C
  pub destroy : ProblemEnvironment → C → Result ApiError (Unit {0}) × C

-- `controllerutil.ContainsFinalizer`, `AddFinalizer` and `RemoveFinalizer` at the finalizer of nclet.
pub record Finalizers : Type 0 where
  pub contains : ProblemEnvironment → Bool
  pub add : ProblemEnvironment → ProblemEnvironment
  pub remove : ProblemEnvironment → ProblemEnvironment

abbrev pub problem_environment_finalizer : String
problem_environment_finalizer = "problemenvironment.netcon.janog.gr.jp"

-- StatusRefreshInterval, in seconds.
abbrev status_refresh_interval : ℕ
status_refresh_interval = 5

-- reflect.DeepEqual of two container statuses.
pub same_container : ContainerStatus → ContainerStatus → Bool
same_container a b =
    (a.name == b.name)
    && (a.image == b.image)
    && (a.container_id == b.container_id)
    && (a.container_name == b.container_name)
    && (if a.ready then b.ready else not b.ready)
    && (a.management_ip_address == b.management_ip_address)

pub same_each : List ContainerStatus → List ContainerStatus → Bool
same_each [] [] = true
same_each [] (y ∷ ys) = false
same_each (x ∷ xs) [] = false
same_each (x ∷ xs) (y ∷ ys) = same_container x y && same_each xs ys

-- reflect.DeepEqual of two slices: a nil one differs from an empty one.
pub same_containers : Option (List ContainerStatus) → Option (List ContainerStatus) → Bool
same_containers none none = true
same_containers none (some ys) = false
same_containers (some xs) none = false
same_containers (some xs) (some ys) = same_each xs ys

module _ {C : Type 0} where
  -- A call of the driver that only looks.
  abbrev pub inspect : {A : Type 0} → (C → A × C) → M C A
  inspect call w = ((call w.cluster).0, record w { cluster = (call w.cluster).1 })

  -- A call of the driver that acts, with its entry in the history.
  abbrev pub command : {A : Type 0} → Command → (C → A × C) → M C A
  command given call w =
      ((call w.cluster).0, record w { cluster = (call w.cluster).1; commands = given ∷ w.commands })

module _ {C : Type 0} (k : Client C) (driver : Driver C) (finalizers : Finalizers)
    (own_name elapsed : String) (now : ℕ → ℕ) where
  pub update : ProblemEnvironment → ℕ → M C Reconciled
  update pe res = do
    written ← send_update k pe
    pure (elim written [ ok _ ↦ ok res | err e ↦ err e ])

  pub update_status : ProblemEnvironment → ℕ → M C Reconciled
  update_status pe res = do
    written ← send_status k pe
    pure (elim written [ ok _ ↦ ok res | err e ↦ err e ])

  pub cleanup : ProblemEnvironment → M C Reconciled
  cleanup pe = do
    destroyed ← command (destroy_instance pe) (driver.destroy pe)
    elim destroyed [
      | err e ↦
          update_status
            (set_problem_environment_condition (now 0) pe condition_ready condition_false
              "DestroyFailed" "failed to destroy ProblemEnvironment")
            0
      | ok _ ↦ update (finalizers.remove pe) 0
    ]

  pub update_container_status : ProblemEnvironment → Option (List ContainerStatus) → M C Reconciled
  update_container_status pe containers =
      if not (same_containers containers pe.status.containers)
      then update_status (record pe { status = record pe.status { containers = containers } })
          status_refresh_interval
      else pure (ok status_refresh_interval)

  pub check : ProblemEnvironment → M C Reconciled
  check pe = do checked ← inspect (driver.check pe); update_container_status pe checked.1

  pub deploy : ProblemEnvironment → M C Reconciled
  deploy pe = do
    checked ← inspect (driver.check pe)
    elim checked.0 [
      | status_init ↦ do
        record_event pe.meta.name normal event_deploying
            (concat "Starting to deploy ProblemEnvironment on " own_name)
        deployed ← command (deploy_instance pe) (driver.deploy pe)
        record_event pe.meta.name normal event_deployed
            (concat "Deployed ProblemEnvironment in " elapsed)
        check (
            set_problem_environment_condition (now 0) pe condition_deployed condition_true
              "Deployed" "ProblemEnvironment is deployed")
      | _ ↦
          update_status
            (set_problem_environment_condition (now 0) pe condition_deployed condition_true
              "DeployFailed" "internal error")
            0
    ]

  -- The part of `Reconcile` after the Get.
  pub reconcile_instance : ProblemEnvironment → M C Reconciled
  reconcile_instance pe =
      if not (is_true (get_problem_environment_condition pe condition_scheduled))
      then pure (ok 0)
      else if not (pe.spec.worker_name == own_name)
      then pure (ok 0)
      else elim pe.meta.deletion_timestamp [
        | some t ↦ if not (finalizers.contains pe) then pure (ok 0) else cleanup pe
        | none ↦
            if not (finalizers.contains pe)
            then update (finalizers.add pe) 0
            else if not (is_true (get_problem_environment_condition pe condition_deployed))
            then deploy pe
            else check pe
      ]

  pub reconcile : String → String → M C Reconciled
  reconcile namespace name = do
    got ← fetch (k.get_problem_environment namespace name)
    elim got [
      | err not_found ↦ pure (ok 0)
      | err (failed e) ↦ pure (err (failed e))
      | ok pe ↦ reconcile_instance pe
    ]
