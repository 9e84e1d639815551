-- ===== src/Printers/Ratios.antt =====
-- The column of the ready containers.
use netcon_problem_managemen.Prelude.{
  ℕ, ◌+◌, ◌≤◌, ◌≡◌, List, [], ◌∷◌, length, count_by, count_by-le-length, concat, arith, Bool-cases,
  inl, inr, Bool,
}
use netcon_problem_managemen.Api.{ContainerStatus, ProblemEnvironment}
use netcon_problem_managemen.Strings.Decimal.{decimal}
use netcon_problem_managemen.Printers.{count_ready, elements, get_ready}

abbrev container_ready : ContainerStatus → Bool
container_ready c = c.ready

count_ready-sums :
    (total ready : ℕ) (containers : List ContainerStatus)
    → ((count_ready total ready containers).0 ≡ total + length containers)
      × ((count_ready total ready containers).1 ≡ ready + count_by container_ready containers)
unfolding count_ready
count_ready-sums total ready [] = ground arith
count_ready-sums total ready (c ∷ containers) = elim (Bool-cases c.ready) [
  | inl up ↦ ground (arith, count_ready-sums (total + 1) (ready + 1) containers)
  | inr down ↦ ground (arith, count_ready-sums (total + 1) ready containers)
]

-- The column `Ready` of an environment reads `m/n` for the number m of its containers that are ready,
-- and the number n of all of them.
get_ready-counts :
    (pe : ProblemEnvironment)
    → let containers = elements pe.status.containers in
      (get_ready pe
        ≡ concat
            (decimal (count_by container_ready containers))
            (concat "/" (decimal (length containers))))
      × (count_by container_ready containers ≤ length containers)
unfolding get_ready
get_ready-counts pe =
    let containers : List ContainerStatus = elements pe.status.containers in
    let sums = count_ready-sums 0 0 containers in
    let total : (count_ready 0 0 containers).0 ≡ length containers = ground (arith, sums) in
    let ready : (count_ready 0 0 containers).1 ≡ count_by container_ready containers =
      ground (arith, sums) in
    (
      (λ i. concat (decimal (ready i)) (concat "/" (decimal (total i)))),
      count_by-le-length container_ready containers,
    )
