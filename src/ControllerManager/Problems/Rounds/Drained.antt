-- ===== src/ControllerManager/Problems/Rounds/Drained.antt =====
-- A round with a surplus of children.
use netcon_problem_managemen.Prelude.{
  ℕ, zero, suc, ◌-◌, ◌<◌, ◌≡◌, refl, ◌∙◌, ap, inl, inr, false, List, [], ◌∷◌, take, count_by,
  filter_by, All, Result, ok, arith, not, ◌==◌, eq_iff, Bool-cases, All-take,
}
use netcon_problem_managemen.Prelude.Int.{pos}
use netcon_problem_managemen.Api.{ProblemEnvironment, Problem}
use netcon_problem_managemen.Kube.{ApiError, Client, World, Write, delete_environment}
use netcon_problem_managemen.ControllerManager.Problems.Counts.{counts_as_assignable}
use netcon_problem_managemen.ControllerManager.Problems.Surplus.{unassigned, deletions}
use netcon_problem_managemen.ControllerManager.Problems.Replenish.{adjust-deletes}
use netcon_problem_managemen.ControllerManager.Problems.{being_deleted, is_assigned, adjust}
use netcon_problem_managemen.ControllerManager.Problems.Rounds.{
  after_requests, round, rounds, round_steady,
}

-- None of the children has the name.
abbrev Fresh : ProblemEnvironment → List ProblemEnvironment → Type 0
Fresh pe pes = All (λ other. (other.meta.name == pe.meta.name) ≡ false) pes

-- The names of the children are distinct.
abbrev Named : List ProblemEnvironment → Type 0
Named [] = Unit
Named (pe ∷ pes) = Fresh pe pes × Named pes

abbrev remove : ProblemEnvironment → List ProblemEnvironment → List ProblemEnvironment
remove pe pes = filter_by (λ other. not (other.meta.name == pe.meta.name)) pes

abbrev remove_all : List ProblemEnvironment → List ProblemEnvironment → List ProblemEnvironment
remove_all [] pes = pes
remove_all (gone ∷ others) pes = remove_all others (remove gone pes)

after_requests-deletions :
    (gone : List ProblemEnvironment) (writes : List Write) (pes : List ProblemEnvironment)
    → after_requests (deletions gone writes) pes ≡ remove_all gone (after_requests writes pes)
unfolding after_requests
after_requests-deletions [] writes pes = refl
after_requests-deletions (pe ∷ gone) writes pes =
    after_requests-deletions gone (delete_environment pe ∷ writes) pes

remove-Fresh :
    (pe : ProblemEnvironment) (pes : List ProblemEnvironment) → Fresh pe pes → remove pe pes ≡ pes
remove-Fresh pe [] fresh = refl
remove-Fresh pe (other ∷ pes) fresh = ground (arith, fresh.0, remove-Fresh pe pes fresh.1)

-- Others are removed behind the head.
remove_all-cons :
    (gone : List ProblemEnvironment) (pe : ProblemEnvironment) (pes : List ProblemEnvironment)
    → Fresh pe gone
    → remove_all gone (pe ∷ pes) ≡ pe ∷ remove_all gone pes
remove_all-cons [] pe pes fresh = refl
remove_all-cons (other ∷ gone) pe pes fresh =
    let kept : remove other (pe ∷ pes) ≡ pe ∷ remove other pes =
      ground (
        arith,
        fresh.0,
        eq_iff pe.meta.name other.meta.name,
        eq_iff other.meta.name pe.meta.name,
      ) in
    ap (remove_all gone) kept ∙ remove_all-cons gone pe (remove other pes) fresh.1

All-filtered :
    (P : ProblemEnvironment → Type 0) (pes : List ProblemEnvironment)
    → All P pes
    → All P (filter_by unassigned pes)
All-filtered P [] h = tt
All-filtered P (pe ∷ pes) h = elim (Bool-cases (is_assigned pe)) [
  | inl held ↦ rw held (All-filtered P pes h.1)
  | inr free ↦ rw free (h.0, All-filtered P pes h.1)
]

-- The first s of the unassigned children are removed, and none of the others.
remove_all-counts :
    (s : ℕ) (pes : List ProblemEnvironment)
    → Named pes
    → All (λ pe. being_deleted pe ≡ false) pes
    → count_by counts_as_assignable (remove_all (take s (filter_by unassigned pes)) pes)
      ≡ count_by counts_as_assignable pes - s
remove_all-counts zero pes named live = omega arith
remove_all-counts (suc s) [] named live = omega arith
remove_all-counts (suc s) (pe ∷ pes) named live = elim (Bool-cases (is_assigned pe)) [
  | inr free ↦
      let rest = remove_all-counts s pes named.1 live.1 in
      let here : remove pe (pe ∷ pes) ≡ pes =
        ground (arith, eq_iff pe.meta.name pe.meta.name, remove-Fresh pe pes named.0) in
      let counted =
        ap (λ l. count_by counts_as_assignable (remove_all (take s (filter_by unassigned pes)) l))
          here
        ∙ rest in
      rw free (rw live.0 (counted ∙ omega arith))
  | inl held ↦
      let rest = remove_all-counts (suc s) pes named.1 live.1 in
      let fresh =
        All-take (λ other. (other.meta.name == pe.meta.name) ≡ false) (suc s)
          (filter_by unassigned pes)
          (All-filtered (λ other. (other.meta.name == pe.meta.name) ≡ false) pes named.0) in
      let counted =
        ap (count_by counts_as_assignable)
          (remove_all-cons (take (suc s) (filter_by unassigned pes)) pe pes fresh) in
      rw held (ground (arith, held, counted, rest))
]

module _ {C : Type 0} (k : Client C)
    (set_controller_reference : Problem → ProblemEnvironment → Result ApiError ProblemEnvironment)
    (problem : Problem) (cluster : ℕ → C) (r : ℕ)
    (wanted : problem.spec.assignable_replicas ≡ pos r) where
  -- A Problem that wants r assignable environments and has more children that are neither assigned nor
  -- being deleted: where no child is being deleted yet, their names are distinct, and no deletion
  -- fails, one reconcile leaves r of them, once the server has removed the deleted ones.
  round_drains :
      (i : ℕ) (pes : List ProblemEnvironment)
      → r < count_by counts_as_assignable pes
      → Named pes
      → All (λ pe. being_deleted pe ≡ false) pes
      → let w : World C = record { cluster = cluster i; events = []; writes = []; commands = [] } in
        (adjust k set_controller_reference problem pes w).0 ≡ ok tt
        → count_by counts_as_assignable (round k set_controller_reference problem cluster i pes) ≡ r
  unfolding round after_requests
  round_drains i pes many named live fine =
      let w : World C = record { cluster = cluster i; events = []; writes = []; commands = [] } in
      let s : ℕ = count_by counts_as_assignable pes - r in
      let us : List ProblemEnvironment = take s (filter_by unassigned pes) in
      let sent = (adjust-deletes k set_controller_reference problem r wanted pes w many fine).0 in
      let applied = ap (λ ws. after_requests ws pes) sent ∙ after_requests-deletions us [] pes in
      ap (count_by counts_as_assignable) applied
      ∙ remove_all-counts s pes named live
      ∙ omega (arith, many)

  -- A Problem that wants r assignable environments and has more children that are neither assigned nor
  -- being deleted: where no child is being deleted yet, their names are distinct, and no deletion of
  -- the first reconcile fails, there are r of them after it, once the server has removed the deleted
  -- ones, and after every further reconcile, if nobody else changes the children.
  pub rounds_drain :
      (n : ℕ) (pes : List ProblemEnvironment)
      → r < count_by counts_as_assignable pes
      → Named pes
      → All (λ pe. being_deleted pe ≡ false) pes
      → let w : World C = record { cluster = cluster 0; events = []; writes = []; commands = [] } in
        (adjust k set_controller_reference problem pes w).0 ≡ ok tt
        → count_by counts_as_assignable
            (rounds k set_controller_reference problem cluster (suc n) pes)
          ≡ r
  unfolding rounds
  rounds_drain zero pes many named live fine = round_drains 0 pes many named live fine
  rounds_drain (suc n) pes many named live fine =
      let earlier = rounds_drain n pes many named live fine in
      let same =
        round_steady k set_controller_reference problem cluster r wanted (suc n)
          (rounds k set_controller_reference problem cluster (suc n) pes) earlier in
      ap (count_by counts_as_assignable) same ∙ earlier
