-- ===== src/ControllerManager/Problems/Examples.antt =====
-- Reconciles of a Problem that wants one assignable environment.
use netcon_problem_managemen.Prelude.{
  count_by, ltb, if◌then◌else◌, ◌+◌, true, ◌≡◌, refl, List, [], ◌∷◌, take, filter_by, length, arith,
}
use netcon_problem_managemen.ControllerManager.Problems.Counts.{counts_as_assignable}
use netcon_problem_managemen.ControllerManager.Problems.Rounds.{rounds, rounds_fill}
use netcon_problem_managemen.ControllerManager.Problems.Rounds.Drained.{rounds_drain}
use netcon_problem_managemen.Api.{Problem, ProblemEnvironment, Labels}
use netcon_problem_managemen.Condition.{is_true, get_condition, get_problem_environment_condition}
use netcon_problem_managemen.ControllerManager.Problems.{
  is_assigned, being_deleted, count_assignable, delete_surplus, adjust, new_environment,
}
use netcon_problem_managemen.ControllerManager.Problems.Surplus.{unassigned, deletions}
use netcon_problem_managemen.ControllerManager.Problems.Replenish.{adjust-deletes}
use netcon_problem_managemen.Samples.{server, world, problem, set_owner, waiting, handed_out}

abbrev crowd : List ProblemEnvironment
crowd = waiting "a" ∷ handed_out "b" ∷ waiting "c" ∷ []

abbrev owned : Problem → ProblemEnvironment
owned p = record (new_environment p) {
  meta = record (new_environment p).meta {
    owner_references = record { kind = "Problem"; name = "p1"; controller = true } ∷ [];
  };
}

adjust-deletes_example :
    ((adjust server set_owner (problem 1) crowd (world crowd)).1.writes
      ≡ deletions (take 1 (filter_by unassigned crowd)) [])
    × (length (take 1 (filter_by unassigned crowd)) ≡ 1)
unfolding adjust count_assignable delete_surplus is_assigned being_deleted is_true
    get_problem_environment_condition get_condition
adjust-deletes_example =
    adjust-deletes server set_owner (problem 1) 1 refl crowd (world crowd) (omega arith) refl

-- One environment is going, and two live ones are one too many: the reconcile deletes the one that is
-- going once more.
abbrev child_labels : Labels
child_labels = ("problemName", "p1") ∷ []

rounds_fill_example :
    count_by counts_as_assignable
      (rounds server set_owner (problem 1) (λ i. (world []).cluster) 2 [])
    ≡ (if ltb (0 + 2) 1 then 0 + 2 else 1)
unfolding new_environment
rounds_fill_example =
    rounds_fill server set_owner (problem 1) (λ i. (world []).cluster) 1 refl (owned (problem 1))
      refl refl refl 2 [] (omega arith)

rounds_drain_example :
    count_by counts_as_assignable
      (rounds server set_owner (problem 1) (λ i. (world crowd).cluster) 3 crowd)
    ≡ 1
unfolding adjust count_assignable delete_surplus is_assigned being_deleted is_true
    get_problem_environment_condition get_condition
rounds_drain_example =
    rounds_drain server set_owner (problem 1) (λ i. (world crowd).cluster) 1 refl 2 crowd
      (omega arith) ((refl, (refl, tt)), ((refl, tt), (tt, tt))) (refl, (refl, (refl, tt))) refl
