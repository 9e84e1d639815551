-- ===== src/ControllerManager/Environments/Branches.antt =====
-- What one reconcile of a ProblemEnvironment sends, whatever the API server answers.
use netcon_problem_managemen.Prelude.{
  ◌∙◌, String, ◌≡◌, refl, ◌≢◌, inl, inr, false, Option, none, some, List, [], ◌∷◌, ◌==◌, eq_iff,
  arith, Bool-cases, Option-cases, ok, Result-cases, ne_of_==,
}
use netcon_problem_managemen.Prelude.Int.{pos}
use netcon_problem_managemen.Api.{
  ContainerStatus, ConditionStatus, ProblemEnvironment, condition_scheduled, condition_ready,
  condition_true, condition_false,
}
use netcon_problem_managemen.Condition.{
  is_true, is_false, set_problem_environment_condition, get_problem_environment_condition,
}
use netcon_problem_managemen.Condition.Laws.{get-set, is_true_iff}
use netcon_problem_managemen.Crypto.{generate_password}
use netcon_problem_managemen.Kube.{
  Client, World, Write, update_environment, update_environment_status,
}
use netcon_problem_managemen.ControllerManager.Election.{elect_worker}
use netcon_problem_managemen.ControllerManager.Environments.{
  Scheduler, Readings, default_password_length, some_not_ready, update, update_status, schedule,
  confirmed, confirm_schedule, mark_not_ready_init, mark_not_ready, mark_ready, check_status,
  reconcile_environment,
}

module _ {C F : Type 0} (k : Client C) (scheduler : Scheduler F) (readings : Readings F) where
  -- The kinds of request that a reconcile may send about an environment, with what it has seen.
  pub data Reaction (pe : ProblemEnvironment) (before after : List Write) : Type 0 where
    silent : after ≡ before → Reaction pe before after
    names_worker :
        (worker : String)
        → worker ≢ ""
        → pe.spec.worker_name ≡ ""
        → pe.meta.deletion_timestamp ≡ none
        → get_problem_environment_condition pe condition_scheduled ≢ condition_true
        → after
          ≡ update_environment (record pe { spec = record pe.spec { worker_name = worker } })
            ∷ before
        → Reaction pe before after
    postpones :
        (reason message : String)
        → pe.meta.deletion_timestamp ≡ none
        → get_problem_environment_condition pe condition_scheduled ≢ condition_true
        → after
          ≡ update_environment_status (
              set_problem_environment_condition
                (readings.now 0)
                pe
                condition_scheduled
                condition_false
                reason
                message)
            ∷ before
        → Reaction pe before after
    confirms :
        (password : String)
        → pe.spec.worker_name ≢ ""
        → pe.meta.deletion_timestamp ≡ none
        → get_problem_environment_condition pe condition_scheduled ≢ condition_true
        → generate_password readings.random (pos default_password_length) ≡ ok password
        → after ≡ update_environment_status (confirmed k scheduler readings pe password) ∷ before
        → Reaction pe before after
    reports :
        (status : ConditionStatus) (reason message : String)
        → pe.meta.deletion_timestamp ≡ none
        → get_problem_environment_condition pe condition_scheduled ≡ condition_true
        → after
          ≡ update_environment_status (
              set_problem_environment_condition
                (readings.now 0)
                pe
                condition_ready
                status
                reason
                message)
            ∷ before
        → Reaction pe before after

  module _ (pe : ProblemEnvironment) (w : World C) (live : pe.meta.deletion_timestamp ≡ none) where
    not_true :
        (is_true (get_problem_environment_condition pe condition_scheduled) ≡ false)
        → get_problem_environment_condition pe condition_scheduled ≢ condition_true
    not_true h e =
        cc (h, (is_true_iff (get_problem_environment_condition pe condition_scheduled)).1 e)

    schedule-Reaction :
        get_problem_environment_condition pe condition_scheduled ≢ condition_true
        → pe.spec.worker_name ≡ ""
        → Reaction pe w.writes (schedule k scheduler readings pe w).1.writes
    unfolding schedule update update_status
    schedule-Reaction pending unnamed = elim (Result-cases (k.list_workers w.cluster).0) [
      | inr (e, broken) ↦
          postpones "WorkersMissing" "failed to list Workers" live pending (ground arith)
      | inl (workers, listed) ↦
          let elected =
            elect_worker scheduler.floats scheduler.parse_selector scheduler.parameters
              readings.draw workers pe.spec.worker_selectors in
          elim (Bool-cases (elected == "")) [
            | inl nobody ↦
                postpones "ScheduleFailed" "failed to elect worker for scheduling" live pending
                  (ground arith)
            | inr somebody ↦
                names_worker elected (ne_of_== elected "" somebody) unnamed live pending
                  (ground arith)
          ]
    ]

    confirm-Reaction :
        get_problem_environment_condition pe condition_scheduled ≢ condition_true
        → pe.spec.worker_name ≢ ""
        → Reaction pe w.writes (confirm_schedule k scheduler readings pe w).1.writes
    unfolding confirm_schedule update_status
    confirm-Reaction pending named =
        elim (Result-cases (k.get_worker pe.spec.worker_name w.cluster).0) [
          | inr (e, broken) ↦
              postpones "WorkersMissing" "failed to get Worker" live pending (ground arith)
          | inl (worker, got) ↦
              elim (Result-cases
                (generate_password readings.random (pos default_password_length))) [
                  | inr (e, broken) ↦ silent (ground arith)
                  | inl (password, made) ↦ confirms password named live pending made (ground arith)
                ]
        ]

    mark_not_ready-Reaction :
        get_problem_environment_condition pe condition_scheduled ≡ condition_true
        → Reaction pe w.writes (mark_not_ready k scheduler readings pe 0 w).1.writes
    unfolding mark_not_ready update_status
    mark_not_ready-Reaction scheduled =
        elim (Bool-cases (is_false (get_problem_environment_condition pe condition_ready))) [
          | inl already ↦ silent (ground arith)
          | inr new ↦
              reports condition_false "NotReady" "ProblemEnvironment is not ready" live scheduled
                (ground arith)
        ]

    mark_ready-Reaction :
        get_problem_environment_condition pe condition_scheduled ≡ condition_true
        → Reaction pe w.writes (mark_ready k scheduler readings pe 0 w).1.writes
    unfolding mark_ready update_status
    mark_ready-Reaction scheduled =
        elim (Bool-cases (is_true (get_problem_environment_condition pe condition_ready))) [
          | inl already ↦ silent (ground arith)
          | inr new ↦
              reports condition_true "Ready" "ProblemEnvironment is ready" live scheduled
                (ground arith)
        ]

    containers-Reaction :
        (containers : Option (List ContainerStatus))
        → pe.status.containers ≡ containers
        → get_problem_environment_condition pe condition_scheduled ≡ condition_true
        → Reaction pe w.writes (check_status k scheduler readings pe w).1.writes
    unfolding check_status
    containers-Reaction none e scheduled =
        reports condition_false "NotReady" "nclet haven't checked yet" live scheduled
          (unfold mark_not_ready_init update_status in ground arith)
    containers-Reaction (some []) e scheduled =
        let same : check_status k scheduler readings pe w
            ≡ mark_not_ready k scheduler readings pe 0 w =
          ground arith in
        rw same (mark_not_ready-Reaction scheduled)
    containers-Reaction (some (c ∷ cs)) e scheduled = elim (Bool-cases (some_not_ready (c ∷ cs))) [
      | inl down ↦
          let same : check_status k scheduler readings pe w
              ≡ mark_not_ready k scheduler readings pe 0 w =
            ground arith in
          rw same (mark_not_ready-Reaction scheduled)
      | inr up ↦
          let same : check_status k scheduler readings pe w
              ≡ mark_ready k scheduler readings pe 0 w =
            ground arith in
          rw same (mark_ready-Reaction scheduled)
    ]

    live-Reaction : Reaction pe w.writes (reconcile_environment k scheduler readings pe w).1.writes
    unfolding reconcile_environment
    live-Reaction =
        elim (Bool-cases (is_true (get_problem_environment_condition pe condition_scheduled))) [
          | inl scheduled ↦
              let same : reconcile_environment k scheduler readings pe w
                  ≡ check_status k scheduler readings pe w =
                ground arith in
              rw same (
                containers-Reaction pe.status.containers refl (
                  (is_true_iff (get_problem_environment_condition pe condition_scheduled)).0
                    scheduled))
          | inr pending ↦ elim (Bool-cases (pe.spec.worker_name == "")) [
            | inl unnamed ↦
                let same : reconcile_environment k scheduler readings pe w
                    ≡ schedule k scheduler readings pe w =
                  ground arith in
                rw same
                  (schedule-Reaction (not_true pending) ((eq_iff pe.spec.worker_name "").0 unnamed))
            | inr named ↦
                let same : reconcile_environment k scheduler readings pe w
                    ≡ confirm_schedule k scheduler readings pe w =
                  ground arith in
                rw same
                  (confirm-Reaction (not_true pending) (ne_of_== pe.spec.worker_name "" named))
          ]
        ]

  -- Whatever the server answers, the reconcile of a fetched environment sends at most one request.
  -- One that is being deleted is left alone. One that is not scheduled has its empty worker name filled
  -- in, or its named worker confirmed with a new password, or its Scheduled condition set to False;
  -- one that is scheduled has its Ready condition set; nothing else is sent.
  pub reconcile_environment-Reaction :
      (pe : ProblemEnvironment) (w : World C)
      → Reaction pe w.writes (reconcile_environment k scheduler readings pe w).1.writes
  unfolding reconcile_environment
  reconcile_environment-Reaction pe w = elim (Option-cases pe.meta.deletion_timestamp) [
    | inl live ↦ live-Reaction pe w live
    | inr (t, gone) ↦ silent (ground arith)
  ]

  pub confirmed-scheduled :
      (pe : ProblemEnvironment) (password : String)
      → get_problem_environment_condition
          (confirmed k scheduler readings pe password)
          condition_scheduled
        ≡ condition_true
  unfolding confirmed get_problem_environment_condition set_problem_environment_condition
  confirmed-scheduled pe password =
      get-set _ _ _ _ _ _ condition_scheduled _
      ∙ get-set _ _ _ _ _ _ condition_scheduled _
      ∙ get-set _ _ _ _ _ _ condition_scheduled _
      ∙ get-set _ _ _ _ _ _ condition_scheduled pe.status.conditions
