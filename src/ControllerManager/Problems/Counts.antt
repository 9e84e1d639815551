-- ===== src/ControllerManager/Problems/Counts.antt =====
-- The two counting loops against plain counts.
use netcon_problem_managemen.Prelude.{
  if◌then◌else◌, ℕ, ◌+◌, ◌≤◌, ◌≡◌, Bool, not, ◌&&◌, List, [], ◌∷◌, length, count_by,
  count_by-le-length, arith,
}
use netcon_problem_managemen.Api.{ProblemEnvironment}
use netcon_problem_managemen.ControllerManager.Problems.{
  is_assigned, is_scheduled, is_ready, being_deleted, count_assignable, count_replicas, replicas_of,
}

-- Not being deleted, and not assigned to anybody.
abbrev pub counts_as_assignable : ProblemEnvironment → Bool
counts_as_assignable pe = not (being_deleted pe) && not (is_assigned pe)

count_assignable-from :
    (n : ℕ) (pes : List ProblemEnvironment)
    → count_assignable n pes ≡ n + count_by counts_as_assignable pes
unfolding count_assignable
count_assignable-from n [] = omega arith
count_assignable-from n (pe ∷ pes) =
    ground (arith, count_assignable-from n pes, count_assignable-from (n + 1) pes)

-- `assignableProblemEnvironments` is the number of children that are neither being deleted nor
-- assigned.
pub count_assignable-count_by :
    (pes : List ProblemEnvironment) → count_assignable 0 pes ≡ count_by counts_as_assignable pes
count_assignable-count_by pes = omega (arith, count_assignable-from 0 pes)

count_replicas-from :
    (s a d : ℕ) (pes : List ProblemEnvironment)
    → let counts = count_replicas (s, a, d) pes in
      (counts.0 ≡ s + count_by is_scheduled pes)
      × (counts.1 ≡ a + count_by (λ pe. is_ready pe && not (is_assigned pe)) pes)
      × (counts.2 ≡ d + count_by (λ pe. is_ready pe && is_assigned pe) pes)
unfolding count_replicas
count_replicas-from s a d [] = omega arith
count_replicas-from s a d (pe ∷ pes) =
    let s' : ℕ = if is_scheduled pe then s + 1 else s in
    let a' : ℕ = if is_ready pe then (if not (is_assigned pe) then a + 1 else a) else a in
    let d' : ℕ = if is_ready pe then (if not (is_assigned pe) then d else d + 1) else d in
    ground (arith, count_replicas-from s' a' d' pes)

split_ready :
    (pes : List ProblemEnvironment)
    → count_by (λ pe. is_ready pe && not (is_assigned pe)) pes
        + count_by (λ pe. is_ready pe && is_assigned pe) pes
      ≡ count_by is_ready pes
split_ready [] = omega arith
split_ready (pe ∷ pes) = ground (arith, split_ready pes)

-- The replica counts that are written to a Problem: `Total` is the number of its children,
-- `Scheduled` the number that are scheduled, ready or not; `Assignable` and `Assigned` split the ready
-- ones by the Assigned condition, so that an assigned child that is not ready is in neither.
replicas_of-counts :
    (pes : List ProblemEnvironment)
    → let replicas = replicas_of pes in
      (replicas.total ≡ length pes)
      × (replicas.scheduled ≡ count_by is_scheduled pes)
      × (replicas.assignable ≡ count_by (λ pe. is_ready pe && not (is_assigned pe)) pes)
      × (replicas.assigned ≡ count_by (λ pe. is_ready pe && is_assigned pe) pes)
      × (replicas.assignable + replicas.assigned ≡ count_by is_ready pes)
      × (replicas.assignable + replicas.assigned ≤ replicas.total)
unfolding replicas_of
replicas_of-counts pes =
    omega (arith, count_replicas-from 0 0 0 pes, split_ready pes, count_by-le-length is_ready pes)
