-- ===== src/ControllerManager/Problems/Rounds.antt =====
-- Reconciles of a Problem one after another, where the server accepts every request and nobody else
-- changes the children meanwhile.
pub mod Drained
use netcon_problem_managemen.Prelude.{
  ℕ, zero, suc, ◌+◌, ◌≤◌, ◌<◌, ◌≡◌, refl, ap, inl, inr, true, none, List, [], ◌∷◌, count_by, Result,
  ok, arith, filter_by, not, ◌==◌, ltb, Bool-cases, if◌then◌else◌,
}
use netcon_problem_managemen.Prelude.Int.{pos}
use netcon_problem_managemen.Api.{ProblemEnvironment, Problem}
use netcon_problem_managemen.Condition.{is_true, get_problem_environment_condition, get_condition}
use netcon_problem_managemen.Kube.{
  ApiError, Client, World, Write, create_environment, delete_environment,
}
use netcon_problem_managemen.ControllerManager.Problems.Counts.{counts_as_assignable}
use netcon_problem_managemen.ControllerManager.Problems.Replenish.{adjust-creates, adjust-steady}
use netcon_problem_managemen.ControllerManager.Problems.{
  is_assigned, being_deleted, adjust, new_environment,
}

-- The children after the requests, the newest request first: a created one is the first of the list, a
-- deleted one is gone.
pub after_requests : List Write → List ProblemEnvironment → List ProblemEnvironment
after_requests [] pes = pes
after_requests (create_environment pe ∷ writes) pes = pe ∷ after_requests writes pes
after_requests (delete_environment pe ∷ writes) pes =
    filter_by (λ other. not (other.meta.name == pe.meta.name)) (after_requests writes pes)
after_requests (_ ∷ writes) pes = after_requests writes pes

module _ {C : Type 0} (k : Client C)
    (set_controller_reference : Problem → ProblemEnvironment → Result ApiError ProblemEnvironment)
    (problem : Problem) (cluster : ℕ → C) where
  -- The i-th reconcile finds the server in the state `cluster i`.
  pub round : ℕ → List ProblemEnvironment → List ProblemEnvironment
  round i pes =
      let w : World C = record { cluster = cluster i; events = []; writes = []; commands = [] } in
      after_requests (adjust k set_controller_reference problem pes w).1.writes pes

  pub rounds : ℕ → List ProblemEnvironment → List ProblemEnvironment
  rounds zero pes = pes
  rounds (suc n) pes = let earlier = rounds n pes in round n earlier

  module _ (r : ℕ) (wanted : problem.spec.assignable_replicas ≡ pos r) where
    pub round_steady :
        (i : ℕ) (pes : List ProblemEnvironment)
        → count_by counts_as_assignable pes ≡ r
        → round i pes ≡ pes
    unfolding round after_requests
    round_steady i pes enough =
        let w : World C = record { cluster = cluster i; events = []; writes = []; commands = [] } in
        rw (adjust-steady k set_controller_reference problem r wanted pes w enough) refl

    module _ (child : ProblemEnvironment)
        (owned : set_controller_reference problem (new_environment problem) ≡ ok child)
        (live : child.meta.deletion_timestamp ≡ none)
        (conditions : child.status.conditions ≡ []) where
      child_counts : counts_as_assignable child ≡ true
      unfolding is_assigned being_deleted is_true get_problem_environment_condition get_condition
      child_counts = ground (arith, live, conditions)

      round_creates :
          (i : ℕ) (pes : List ProblemEnvironment)
          → count_by counts_as_assignable pes < r
          → count_by counts_as_assignable (round i pes) ≡ suc (count_by counts_as_assignable pes)
      unfolding round after_requests
      round_creates i pes few =
          let w : World C = record {
            cluster = cluster i;
            events = [];
            writes = [];
            commands = [];
          } in
          rw (adjust-creates k set_controller_reference problem r wanted pes w few owned)
            (rw child_counts refl)

      -- A Problem that wants r assignable environments and has no more than r children that are neither
      -- assigned nor being deleted: each reconcile adds one until there are r, and from then on their
      -- number stays r, however many reconciles follow. Every request is accepted, nobody else changes
      -- the children, and an owner reference can be set, without a change of the rest.
      pub rounds_fill :
          (n : ℕ) (pes : List ProblemEnvironment)
          → count_by counts_as_assignable pes ≤ r
          → let a = count_by counts_as_assignable pes in
            count_by counts_as_assignable (rounds n pes) ≡ (if ltb (a + n) r then a + n else r)
      unfolding rounds
      rounds_fill zero pes bound = ground arith
      rounds_fill (suc n) pes bound =
          let earlier = rounds_fill n pes bound in
          elim (Bool-cases (ltb (count_by counts_as_assignable pes + n) r)) [
            | inl few ↦
                let made = round_creates n (rounds n pes) (ground (arith, earlier, few)) in
                ground (arith, made, earlier, few)
            | inr enough ↦
                let same = round_steady n (rounds n pes) (ground (arith, earlier, enough)) in
                ground (arith, ap (count_by counts_as_assignable) same, earlier, enough)
          ]
