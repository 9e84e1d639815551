-- ===== src/ControllerManager/Problems/Replenish.antt =====
-- A reconcile of a Problem moves the number of assignable environments to the wanted one.
use netcon_problem_managemen.Prelude.{
  zero, suc, ◌≤◌, ◌++◌, refl, All, true, false, String, Option, none, some, ◌==◌, eq_iff,
  if◌then◌else◌, ℕ, ◌-◌, ◌<◌, ◌≡◌, ap, ◌∙◌, List, [], ◌∷◌, take, length, length-take,
  length-filter_by, filter_by, count_by, Result, ok, arith,
}
use netcon_problem_managemen.Prelude.Int.{pos}
use netcon_problem_managemen.Api.{Labels, ProblemEnvironment, Problem}
use netcon_problem_managemen.Kube.{ApiError, Client, World, create_environment}
use netcon_problem_managemen.ControllerManager.Problems.Counts.{
  counts_as_assignable, count_assignable-count_by,
}
use netcon_problem_managemen.ControllerManager.Problems.Surplus.{
  unassigned, deletions, delete_surplus-first,
}
use netcon_problem_managemen.ControllerManager.Problems
use netcon_problem_managemen.ControllerManager.Problems.{
  is_assigned, being_deleted, count_assignable, delete_surplus, adjust, set_label, new_environment,
  key_problem_name,
}

assignable-le-unassigned :
    (pes : List ProblemEnvironment) → count_by counts_as_assignable pes ≤ count_by unassigned pes
assignable-le-unassigned [] = omega arith
assignable-le-unassigned (pe ∷ pes) = ground (arith, assignable-le-unassigned pes)

module _ {C : Type 0} (k : Client C)
    (set_controller_reference : Problem → ProblemEnvironment → Result ApiError ProblemEnvironment)
    (problem : Problem) (r : ℕ) (wanted : problem.spec.assignable_replicas ≡ pos r)
    (pes : List ProblemEnvironment) (w : World C) where
  -- A Problem that wants r assignable environments, and whose children include fewer that are neither
  -- assigned nor being deleted, has the creation of one more requested, if its owner reference can be
  -- set.
  pub adjust-creates :
      count_by counts_as_assignable pes < r
      → {pe : ProblemEnvironment}
      → set_controller_reference problem (new_environment problem) ≡ ok pe
      → (adjust k set_controller_reference problem pes w).1.writes
        ≡ create_environment pe ∷ w.writes
  unfolding adjust Problems.create_environment
  adjust-creates few owned = ground (arith, count_assignable-count_by pes)

  -- A Problem that wants r assignable environments, and has exactly r children that are neither
  -- assigned nor being deleted, is left alone.
  pub adjust-steady :
      count_by counts_as_assignable pes ≡ r
      → adjust k set_controller_reference problem pes w ≡ (ok tt, w)
  unfolding adjust
  adjust-steady enough = ground (arith, count_assignable-count_by pes)

  -- If a Problem wants r assignable environments, a of its children are neither assigned nor being
  -- deleted, a is more than r, and no deletion fails, then exactly the first a - r children that are
  -- not assigned are deleted, in the order of the list.
  pub adjust-deletes :
      r < count_by counts_as_assignable pes
      → (adjust k set_controller_reference problem pes w).0 ≡ ok tt
      → let surplus = count_by counts_as_assignable pes - r in
        ((adjust k set_controller_reference problem pes w).1.writes
          ≡ deletions (take surplus (filter_by unassigned pes)) w.writes)
        × (length (take surplus (filter_by unassigned pes)) ≡ surplus)
  unfolding adjust
  adjust-deletes many fine =
      let a : ℕ = count_by counts_as_assignable pes in
      let same : adjust k set_controller_reference problem pes w
          ≡ delete_surplus k (pos (a - r)) 0 pes w =
        ground (arith, count_assignable-count_by pes) in
      let (n, bound, sent, outcome) = delete_surplus-first k (a - r) pes 0 w in
      let exact : n ≡ a - r = ground (arith, same, outcome, assignable-le-unassigned pes) in
      (
        rw same (sent ∙ ap (λ m. deletions (take m (filter_by unassigned pes)) w.writes) exact),
        omega (
          arith,
          length-take (a - r) (filter_by unassigned pes),
          length-filter_by unassigned pes,
          assignable-le-unassigned pes,
        ),
      )

take-filter_by-append :
    (n : ℕ) (gone live : List ProblemEnvironment)
    → All (λ pe. (being_deleted pe ≡ true) × (is_assigned pe ≡ false)) gone
    → n ≤ length gone
    → take n (filter_by unassigned (gone ++ live)) ≡ take n gone
take-filter_by-append zero gone live h bound = refl
take-filter_by-append (suc n) [] live h bound = absurd (omega arith)
take-filter_by-append (suc n) (pe ∷ gone) live h bound =
    ground (arith, take-filter_by-append n gone live h.1)

-- The surplus is counted without the children that are being deleted, and deleted with them. Where the
-- unassigned children at the head of the list are all being deleted already, and are as many as the
-- surplus, a reconcile spends every deletion on them, and deletes none of the others.
adjust-deletes_gone :
    {C : Type 0} (k : Client C)
    (set_controller_reference : Problem → ProblemEnvironment → Result ApiError ProblemEnvironment)
    (problem : Problem) (r : ℕ) (gone live : List ProblemEnvironment) (w : World C)
    → problem.spec.assignable_replicas ≡ pos r
    → r < count_by counts_as_assignable (gone ++ live)
    → count_by counts_as_assignable (gone ++ live) - r ≤ length gone
    → All (λ pe. (being_deleted pe ≡ true) × (is_assigned pe ≡ false)) gone
    → (adjust k set_controller_reference problem (gone ++ live) w).0 ≡ ok tt
    → (adjust k set_controller_reference problem (gone ++ live) w).1.writes
      ≡ deletions (take (count_by counts_as_assignable (gone ++ live) - r) gone) w.writes
adjust-deletes_gone k set_controller_reference problem r gone live w wanted many bound going fine =
    (adjust-deletes k set_controller_reference problem r wanted (gone ++ live) w many fine).0
    ∙ ap (λ pes. deletions pes w.writes)
        (take-filter_by-append (count_by counts_as_assignable (gone ++ live) - r) gone live going
          bound)

-- `m[key]`
get_label : String → Labels → Option String
get_label key [] = none
get_label key ((j, v) ∷ labels) = if j == key then some v else get_label key labels

get_label-set_label :
    (key value key' : String) (labels : Labels)
    → get_label key' (set_label key value labels)
      ≡ (if key == key' then some value else get_label key' labels)
unfolding get_label set_label
get_label-set_label key value key' [] = refl
get_label-set_label key value key' ((j, v) ∷ labels) =
    ground (
      arith,
      eq_iff j key,
      eq_iff j key',
      eq_iff key key',
      get_label-set_label key value key' labels,
    )

-- A created environment answers to the query for the Problem's children: it stands in the Problem's
-- namespace, and its label `problemName` is the Problem's name. All other labels, and the
-- specification, are the template's.
new_environment-child :
    (problem : Problem) (key : String) (labels template_labels : Labels)
    → (new_environment problem).meta.labels ≡ some labels
    → problem.spec.template.meta.labels ≡ some template_labels
    → (get_label key labels ≡ (
        if key_problem_name == key then some problem.meta.name else get_label key template_labels))
      × ((new_environment problem).meta.namespace ≡ problem.meta.namespace)
      × ((new_environment problem).spec ≡ problem.spec.template.spec)
unfolding new_environment
new_environment-child problem key labels template_labels made given =
    ground (arith, get_label-set_label key_problem_name problem.meta.name key template_labels)
