-- ===== src/Nclet/Environments/Refresh.antt =====
-- `updateContainerStatus`: the comparison of container statuses, and what is written after it.
use netcon_problem_managemen.Prelude.{
  ◌≡◌, ◌≢◌, ◌⊎◌, ◌↔◌, true, Option, none, some, List, [], ◌∷◌, eq_iff, arith,
}
use netcon_problem_managemen.Api.{ContainerStatus, ProblemEnvironment}
use netcon_problem_managemen.Kube.{Write, update_environment_status}
use netcon_problem_managemen.Nclet.Environments.{same_container, same_each, same_containers}

same_container_iff : (a b : ContainerStatus) → (same_container a b ≡ true) ↔ (a ≡ b)
unfolding same_container
same_container_iff a b = ground (
  arith,
  eq_iff a.name b.name,
  eq_iff a.image b.image,
  eq_iff a.container_id b.container_id,
  eq_iff a.container_name b.container_name,
  eq_iff a.management_ip_address b.management_ip_address,
)

same_each_iff : (xs ys : List ContainerStatus) → (same_each xs ys ≡ true) ↔ (xs ≡ ys)
unfolding same_each
same_each_iff [] [] = ground arith
same_each_iff [] (y ∷ ys) = ground arith
same_each_iff (x ∷ xs) [] = ground arith
same_each_iff (x ∷ xs) (y ∷ ys) = ground (arith, same_container_iff x y, same_each_iff xs ys)

pub same_containers_iff :
    (a b : Option (List ContainerStatus)) → (same_containers a b ≡ true) ↔ (a ≡ b)
unfolding same_containers
same_containers_iff none none = ground arith
same_containers_iff none (some ys) = ground arith
same_containers_iff (some xs) none = ground arith
same_containers_iff (some xs) (some ys) = ground (arith, same_each_iff xs ys)

-- The environment with its containers as the driver has just reported them.
abbrev pub reported : ProblemEnvironment → Option (List ContainerStatus) → ProblemEnvironment
reported pe containers = record pe { status = record pe.status { containers = containers } }

-- The status is written if the report differs from it, and only then.
abbrev pub Refreshed :
    ProblemEnvironment → Option (List ContainerStatus) → List Write → List Write → Type 0
Refreshed pe containers before after =
    ((containers ≡ pe.status.containers) × (after ≡ before))
    ⊎ ((containers ≢ pe.status.containers)
        × (after ≡ update_environment_status (reported pe containers) ∷ before))
