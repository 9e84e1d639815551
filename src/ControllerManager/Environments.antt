-- ===== src/ControllerManager/Environments.antt =====
-- problemenvironment_controller.go, without the election. `now i` is the i-th reading of the clock in
-- the call, `draw` the random number of the election, `random` the numbers of the password. The
-- delays are in seconds; the log lines are left out.
pub mod Branches
pub mod Readiness
mod Examples
use netcon_problem_managemen.Prelude.{
  ℕ, String, Bool, true, false, not, Option, none, some, List, [], ◌∷◌, ◌==◌, Result, ok, err,
  concat, if◌then◌else◌,
}
use netcon_problem_managemen.Prelude.Int.{pos}
use netcon_problem_managemen.Api.{
  ContainerStatus, ProblemEnvironment, Worker, condition_scheduled, condition_deployed,
  condition_ready, condition_assigned, condition_true, condition_false, event_scheduled,
  event_ready, event_not_ready,
}
use netcon_problem_managemen.Condition.{
  is_true, is_false, set_problem_environment_condition, get_problem_environment_condition,
}
use netcon_problem_managemen.Kube.{
  ApiError, not_found, failed, Client, M, Reconciled, normal, warning, pure, fetch, record_event,
  send_update, send_status, ◌>>=◌, ◌>>◌,
}
use netcon_problem_managemen.Crypto.{generate_password}
use netcon_problem_managemen.ControllerManager.Election.{
  Floats, SchedulerParameters, SelectorParser, elect_worker,
}

-- What `elect_worker` is given besides the workers.
pub record Scheduler (F : Type 0) : Type 0 where
  pub floats : Floats F
  pub parse_selector : SelectorParser
  pub parameters : SchedulerParameters F

-- What a reconcile reads of the clock and of the two random sources.
pub record Readings (F : Type 0) : Type 0 where
  pub now : ℕ → ℕ
  pub draw : F
  pub random : ℕ → Option ℕ

abbrev pub default_password_length : ℕ
default_password_length = 24

-- `return res, nil` after a write that succeeded, `return ctrl.Result{}, err` after one that failed.
pub returned : {A : Type 0} → ℕ → Result ApiError A → Reconciled
returned res (ok a) = ok res
returned res (err e) = err e

-- The loop of `checkStatus`: is there a container that is not ready?
pub some_not_ready : List ContainerStatus → Bool
some_not_ready [] = false
some_not_ready (c ∷ cs) = if not c.ready then true else some_not_ready cs

module _ {C F : Type 0} (k : Client C) (scheduler : Scheduler F) (readings : Readings F) where
  open scheduler use {floats, parse_selector, parameters}
  open readings use {now, draw, random}

  pub update : ProblemEnvironment → ℕ → M C Reconciled
  update pe res = do written ← send_update k pe; pure (returned res written)

  pub update_status : ProblemEnvironment → ℕ → M C Reconciled
  update_status pe res = do written ← send_status k pe; pure (returned res written)

  pub schedule : ProblemEnvironment → M C Reconciled
  schedule pe = do
    listed ← fetch k.list_workers
    elim listed [
      | err e ↦
          update_status
            (set_problem_environment_condition (now 0) pe condition_scheduled condition_false
              "WorkersMissing" "failed to list Workers")
            3
      | ok workers ↦
          let elected =
            elect_worker floats parse_selector parameters draw workers pe.spec.worker_selectors in
          if not (elected == "")
          then update (record pe { spec = record pe.spec { worker_name = elected } }) 0
          else update_status
              (set_problem_environment_condition (now 0) pe condition_scheduled condition_false
                "ScheduleFailed" "failed to elect worker for scheduling")
              3
    ]

  -- The four conditions and the password of an environment whose worker exists.
  pub confirmed : ProblemEnvironment → String → ProblemEnvironment
  confirmed pe password =
      let scheduled =
        set_problem_environment_condition (now 0) pe condition_scheduled condition_true "Scheduled"
          "ProblemEnvironment is assigned to Worker" in
      let deployed =
        set_problem_environment_condition (now 1) scheduled condition_deployed condition_false
          "NotDeployed" "ProblemEnvironment is not deployed to Worker" in
      let ready =
        set_problem_environment_condition (now 2) deployed condition_ready condition_false
          "NotReady" "ProblemEnvironment is not ready" in
      let assigned =
        set_problem_environment_condition (now 3) ready condition_assigned condition_false
          "NotAssigned" "ProblemEnvironment is not assigned" in
      record assigned { status = record assigned.status { password = password } }

  pub confirm_schedule : ProblemEnvironment → M C Reconciled
  confirm_schedule pe = do
    got ← fetch (k.get_worker pe.spec.worker_name)
    elim got [
      | err e ↦
          update_status
            (set_problem_environment_condition (now 0) pe condition_scheduled condition_false
              "WorkersMissing" "failed to get Worker")
            3
      | ok worker ↦ elim (generate_password random (pos default_password_length)) [
        | err e ↦ pure (err (failed (concat "failed to confirm schedule: " e)))
        | ok password ↦ do
          record_event pe.meta.name normal event_scheduled
              (concat "ProblemEnvironment was scheduled on " pe.spec.worker_name)
          update_status (confirmed pe password) 0
      ]
    ]

  pub mark_not_ready_init : ProblemEnvironment → ℕ → M C Reconciled
  mark_not_ready_init pe res =
      update_status
        (set_problem_environment_condition (now 0) pe condition_ready condition_false "NotReady"
          "nclet haven't checked yet")
        res

  pub mark_not_ready : ProblemEnvironment → ℕ → M C Reconciled
  mark_not_ready pe res =
      if is_false (get_problem_environment_condition pe condition_ready) then pure (ok 0) else do
        record_event pe.meta.name warning event_not_ready "Some containers went down"
        update_status
            (set_problem_environment_condition (now 0) pe condition_ready condition_false "NotReady"
              "ProblemEnvironment is not ready")
            res

  pub mark_ready : ProblemEnvironment → ℕ → M C Reconciled
  mark_ready pe res =
      if is_true (get_problem_environment_condition pe condition_ready) then pure (ok 0) else do
        record_event pe.meta.name normal event_ready "All containers are ready now"
        update_status
            (set_problem_environment_condition (now 0) pe condition_ready condition_true "Ready"
              "ProblemEnvironment is ready")
            res

  pub check_status : ProblemEnvironment → M C Reconciled
  check_status pe = elim pe.status.containers [
    | none ↦ mark_not_ready_init pe 0
    | some [] ↦ mark_not_ready pe 0
    | some (c ∷ cs) ↦ if some_not_ready (c ∷ cs) then mark_not_ready pe 0 else mark_ready pe 0
  ]

  -- The part of `Reconcile` after the Get.
  pub reconcile_environment : ProblemEnvironment → M C Reconciled
  reconcile_environment pe = elim pe.meta.deletion_timestamp [
    | some t ↦ pure (ok 0)
    | none ↦
        if is_true (get_problem_environment_condition pe condition_scheduled)
        then check_status pe
        else if pe.spec.worker_name == ""
        then schedule pe
        else confirm_schedule pe
  ]

  pub reconcile : String → String → M C Reconciled
  reconcile namespace name = do
    got ← fetch (k.get_problem_environment namespace name)
    elim got [
      | err not_found ↦ pure (ok 0)
      | err (failed e) ↦ pure (err (failed e))
      | ok pe ↦ reconcile_environment pe
    ]
