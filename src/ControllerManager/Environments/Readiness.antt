-- ===== src/ControllerManager/Environments/Readiness.antt =====
-- The Ready condition after a reconcile against the containers that nclet reported.
use netcon_problem_managemen.Prelude.{
  ◌≡◌, refl, ◌⊎◌, inl, inr, true, false, Option, none, some, List, [], ◌∷◌, arith, All, Bool-cases,
}
use netcon_problem_managemen.Api.{
  ContainerStatus, ConditionStatus, ProblemEnvironment, condition_scheduled, condition_ready,
  condition_true, condition_false,
}
use netcon_problem_managemen.Condition.{get_problem_environment_condition}
use netcon_problem_managemen.Condition.Laws.{is_true_iff, is_false_iff, status-set}
use netcon_problem_managemen.Kube.{
  Client, World, Write, update_environment, update_environment_status,
}
use netcon_problem_managemen.ControllerManager.Environments.{
  Scheduler, Readings, some_not_ready, update_status, mark_not_ready_init, mark_not_ready,
  mark_ready, check_status, reconcile_environment,
}

-- The environment as the last request of a history left it, `pe` if there is none about it.
abbrev pub latest : ProblemEnvironment → List Write → ProblemEnvironment
latest pe (update_environment pe' ∷ ws) = pe'
latest pe (update_environment_status pe' ∷ ws) = pe'
latest pe ws = pe

-- nclet has reported at least one container, and every reported container is ready.
abbrev AllUp : Option (List ContainerStatus) → Type 0
AllUp none = ⊥
AllUp (some []) = ⊥
AllUp (some (c ∷ cs)) = All (λ c. c.ready ≡ true) (c ∷ cs)

some_not_ready-All :
    (cs : List ContainerStatus) → some_not_ready cs ≡ false → All (λ c. c.ready ≡ true) cs
unfolding some_not_ready
some_not_ready-All [] h = tt
some_not_ready-All (c ∷ cs) h = ground (arith, some_not_ready-All cs)

some_not_ready-not_All :
    (cs : List ContainerStatus) → some_not_ready cs ≡ true → ¬ All (λ c. c.ready ≡ true) cs
unfolding some_not_ready
some_not_ready-not_All [] h all = cc
some_not_ready-not_All (c ∷ cs) h all = ground (arith, some_not_ready-not_All cs)

-- What the condition should be.
abbrev pub Reports : Option (List ContainerStatus) → ConditionStatus → Type 0
Reports containers status =
    (AllUp containers × (status ≡ condition_true))
    ⊎ ((¬ AllUp containers) × (status ≡ condition_false))

module _ {C F : Type 0} (k : Client C) (scheduler : Scheduler F) (readings : Readings F)
    (pe : ProblemEnvironment) (w : World C) (quiet : w.writes ≡ []) where
  down :
      get_problem_environment_condition
        (latest pe (mark_not_ready k scheduler readings pe 0 w).1.writes)
        condition_ready
      ≡ condition_false
  unfolding mark_not_ready update_status
  down = ground (
    arith,
    is_false_iff (get_problem_environment_condition pe condition_ready),
    status-set (readings.now 0) pe condition_ready condition_ready condition_false "NotReady"
        "ProblemEnvironment is not ready",
  )

  up :
      get_problem_environment_condition
        (latest pe (mark_ready k scheduler readings pe 0 w).1.writes)
        condition_ready
      ≡ condition_true
  unfolding mark_ready update_status
  up = ground (
    arith,
    is_true_iff (get_problem_environment_condition pe condition_ready),
    status-set (readings.now 0) pe condition_ready condition_ready condition_true "Ready"
        "ProblemEnvironment is ready",
  )

  unchecked :
      get_problem_environment_condition
        (latest pe (mark_not_ready_init k scheduler readings pe 0 w).1.writes)
        condition_ready
      ≡ condition_false
  unfolding mark_not_ready_init update_status
  unchecked =
      status-set (readings.now 0) pe condition_ready condition_ready condition_false "NotReady"
        "nclet haven't checked yet"

  check_status-Reports :
      (containers : Option (List ContainerStatus))
      → pe.status.containers ≡ containers
      → Reports containers (
          get_problem_environment_condition
            (latest pe (check_status k scheduler readings pe w).1.writes)
            condition_ready)
  unfolding check_status
  check_status-Reports none e =
      let same : check_status k scheduler readings pe w
          ≡ mark_not_ready_init k scheduler readings pe 0 w =
        ground arith in
      inr (λ up. up, rw same unchecked)
  check_status-Reports (some []) e =
      let same : check_status k scheduler readings pe w
          ≡ mark_not_ready k scheduler readings pe 0 w =
        ground arith in
      inr (λ up. up, rw same down)
  check_status-Reports (some (c ∷ cs)) e = elim (Bool-cases (some_not_ready (c ∷ cs))) [
    | inl broken ↦
        let same : check_status k scheduler readings pe w
            ≡ mark_not_ready k scheduler readings pe 0 w =
          ground arith in
        inr (some_not_ready-not_All (c ∷ cs) broken, rw same down)
    | inr fine ↦
        let same : check_status k scheduler readings pe w ≡ mark_ready k scheduler readings pe 0 w =
          ground arith in
        inl (some_not_ready-All (c ∷ cs) fine, rw same up)
  ]

  -- A reconcile of a scheduled environment that is not being deleted leaves its Ready condition True
  -- if nclet has reported at least one container and all are ready, and False otherwise, as far as the
  -- request that it sends is accepted.
  pub reconcile_environment-Reports :
      get_problem_environment_condition pe condition_scheduled ≡ condition_true
      → pe.meta.deletion_timestamp ≡ none
      → Reports pe.status.containers (
          get_problem_environment_condition
            (latest pe (reconcile_environment k scheduler readings pe w).1.writes)
            condition_ready)
  unfolding reconcile_environment
  reconcile_environment-Reports scheduled live =
      let same : reconcile_environment k scheduler readings pe w
          ≡ check_status k scheduler readings pe w =
        ground (arith, is_true_iff (get_problem_environment_condition pe condition_scheduled)) in
      rw same (check_status-Reports pe.status.containers refl)
