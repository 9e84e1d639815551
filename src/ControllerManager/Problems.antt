-- ===== src/ControllerManager/Problems.antt =====
-- problem_controller.go: keeping as many assignable ProblemEnvironments as a Problem asks for.
-- `controllerutil.SetControllerReference` is a parameter.
pub mod Counts
pub mod Surplus
pub mod Replenish
pub mod Rounds
mod Examples
use netcon_problem_managemen.Prelude.{
  ℕ, suc, ◌+◌, String, Bool, true, false, not, Option, none, some, List, [], ◌∷◌, ◌==◌, Result, ok,
  err, concat, length, if◌then◌else◌,
}
use netcon_problem_managemen.Prelude.Int.{ℤ, count_lt, lt_count, sub_int}
use netcon_problem_managemen.Api.{
  Labels, Problem, ProblemEnvironment, ProblemReplicas, condition_scheduled, condition_ready,
  condition_assigned,
}
use netcon_problem_managemen.Condition.{is_true, get_problem_environment_condition}
use netcon_problem_managemen.Kube.{
  ApiError, not_found, failed, Client, M, Reconciled, pure, fetch, send_create, send_delete,
  send_replicas, ◌>>=◌,
}

abbrev pub key_problem_name : String
key_problem_name = "problemName"

pub is_assigned : ProblemEnvironment → Bool
is_assigned pe = is_true (get_problem_environment_condition pe condition_assigned)

pub is_scheduled : ProblemEnvironment → Bool
is_scheduled pe = is_true (get_problem_environment_condition pe condition_scheduled)

pub is_ready : ProblemEnvironment → Bool
is_ready pe = is_true (get_problem_environment_condition pe condition_ready)

pub being_deleted : ProblemEnvironment → Bool
being_deleted pe = elim pe.meta.deletion_timestamp [ none ↦ false | some t ↦ true ]

-- The counting loop of `Reconcile`, from a count so far.
pub count_assignable : ℕ → List ProblemEnvironment → ℕ
count_assignable n [] = n
count_assignable n (pe ∷ pes) =
    count_assignable (if being_deleted pe then n else if is_assigned pe then n else n + 1) pes

-- `m[key] = value`
pub set_label : String → String → Labels → Labels
set_label key value [] = (key, value) ∷ []
set_label key value ((j, v) ∷ labels) =
    if j == key then (key, value) ∷ labels else (j, v) ∷ set_label key value labels

-- `newProbEnv`, before its owner is set.
pub new_environment : Problem → ProblemEnvironment
new_environment problem =
    let template = problem.spec.template in
    let labels : Labels = elim template.meta.labels [ none ↦ [] | some labels ↦ labels ] in
    record {
      meta = record {
        name = "";
        generate_name = concat problem.meta.name "-";
        namespace = problem.meta.namespace;
        labels = some (set_label key_problem_name problem.meta.name labels);
        annotations = template.meta.annotations;
        generation = 0;
        resource_version = 0;
        creation_timestamp = none;
        deletion_timestamp = none;
        finalizers = [];
        owner_references = [];
      };
      spec = template.spec;
      status = record { containers = none; password = ""; conditions = [] };
    }

-- The counting loop of `updateStatus`, from the counts so far of scheduled, assignable and assigned.
pub count_replicas : ℕ × ℕ × ℕ → List ProblemEnvironment → ℕ × ℕ × ℕ
count_replicas counts [] = counts
count_replicas (scheduled, assignable, assigned) (pe ∷ pes) =
    count_replicas
      (
        (if is_scheduled pe then scheduled + 1 else scheduled),
        (if is_ready pe
            then (if not (is_assigned pe) then assignable + 1 else assignable)
            else assignable),
        (if is_ready pe
            then (if not (is_assigned pe) then assigned else assigned + 1)
            else assigned),
      )
      pes

pub replicas_of : List ProblemEnvironment → ProblemReplicas
replicas_of pes =
    let counts = count_replicas (0, 0, 0) pes in
    record { total = length pes; scheduled = counts.0; assignable = counts.1; assigned = counts.2 }

module _ {C : Type 0} (k : Client C) where
  list_child_problem_environments : Problem → M C (Result ApiError (List ProblemEnvironment))
  list_child_problem_environments problem = fetch (
      k.list_problem_environments (some problem.meta.namespace)
        ((key_problem_name, problem.meta.name) ∷ []))

  pub update_status : Problem → M C Reconciled
  update_status problem = do
    listed ← list_child_problem_environments problem
    elim listed [
      | err e ↦ pure (ok 0)
      | ok pes ↦ do
        written ←
            send_replicas k
              (record problem { status = record problem.status { replicas = replicas_of pes } })
        pure (elim written [ ok _ ↦ ok 0 | err e ↦ err e ])
    ]

  -- The deleting loop, with the deletions made so far; an error ends it.
  pub delete_surplus : ℤ → ℕ → List ProblemEnvironment → M C (Result ApiError (Unit {0}))
  delete_surplus diff delete_count [] = pure (ok tt)
  delete_surplus diff delete_count (pe ∷ pes) =
      let skipped = delete_surplus diff delete_count pes in
      let next = delete_surplus diff (delete_count + 1) pes in
      if not (count_lt delete_count diff)
      then pure (ok tt)
      else if is_assigned pe
      then skipped
      else (do deleted ← send_delete k pe; elim deleted [ err e ↦ pure (err e) | ok _ ↦ next ])

module _ {C : Type 0} (k : Client C)
    (set_controller_reference : Problem
      → ProblemEnvironment
      → Result ApiError ProblemEnvironment) where
  pub create_environment : Problem → M C (Result ApiError (Unit {0}))
  create_environment problem = elim (set_controller_reference problem (new_environment problem)) [
    | err e ↦ pure (err e)
    | ok pe ↦ do created ← send_create k pe; pure (elim created [ ok _ ↦ ok tt | err e ↦ err e ])
  ]

  -- The two branches on the number of assignable environments.
  pub adjust : Problem → List ProblemEnvironment → M C (Result ApiError (Unit {0}))
  adjust problem pes =
      let assignable = count_assignable 0 pes in
      if count_lt assignable problem.spec.assignable_replicas
      then create_environment problem
      else if lt_count problem.spec.assignable_replicas assignable
      then delete_surplus k (sub_int assignable problem.spec.assignable_replicas) 0 pes
      else pure (ok tt)

  reconcile_problem : Problem → M C Reconciled
  reconcile_problem problem = elim problem.meta.deletion_timestamp [
    | some t ↦ update_status k problem
    | none ↦ do
      listed ← list_child_problem_environments k problem
      elim listed [
        | err e ↦ pure (ok 0)
        | ok pes ↦ do
          adjusted ← adjust problem pes
          elim adjusted [ err e ↦ pure (err e) | ok _ ↦ update_status k problem ]
      ]
  ]

  pub reconcile : String → String → M C Reconciled
  reconcile namespace name = do
    got ← fetch (k.get_problem namespace name)
    elim got [
      | err not_found ↦ pure (ok 0)
      | err (failed e) ↦ pure (err (failed e))
      | ok problem ↦ reconcile_problem problem
    ]
