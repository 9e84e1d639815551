-- ===== src/Printers/Statuses.antt =====
-- The column of the status of an environment, against the conditions and the gateway.
use netcon_problem_managemen.Prelude.{
  ne_of_==, String, true, ◌≡◌, ◌↔◌, inl, inr, refl, none, arith, Option-cases, Bool-cases,
}
use netcon_problem_managemen.Api.{
  ProblemEnvironment, condition_scheduled, condition_deployed, condition_ready, condition_assigned,
  condition_true, condition_false,
}
use netcon_problem_managemen.Condition.{is_true, get_problem_environment_condition}
use netcon_problem_managemen.Condition.Laws.{is_true_iff}
use netcon_problem_managemen.Gateway.{is_available}
use netcon_problem_managemen.Gateway.Selection.{is_available_iff}
use netcon_problem_managemen.Printers.{get_status}

abbrev Holds : ProblemEnvironment → String → Type 0
Holds pe type = get_problem_environment_condition pe type ≡ condition_true

-- The column `Status` of an environment reads `Unassigned` exactly if its deletion is not requested and
-- of its conditions Scheduled, Deployed and Ready hold and Assigned does not; and an environment
-- that reads so is one that the gateway would hand out exactly if Assigned is False.
get_status-Unassigned :
    (pe : ProblemEnvironment)
    → ((get_status pe ≡ "Unassigned") ↔ (
        (pe.meta.deletion_timestamp ≡ none)
        × Holds pe condition_scheduled
        × Holds pe condition_deployed
        × Holds pe condition_ready
        × (Holds pe condition_assigned → ⊥)))
      × (get_status pe ≡ "Unassigned"
          → (is_available pe ≡ true)
            ↔ (get_problem_environment_condition pe condition_assigned ≡ condition_false))
unfolding get_status
get_status-Unassigned pe =
    let scheduled = is_true_iff (get_problem_environment_condition pe condition_scheduled) in
    let deployed = is_true_iff (get_problem_environment_condition pe condition_deployed) in
    let ready = is_true_iff (get_problem_environment_condition pe condition_ready) in
    let taken = is_true_iff (get_problem_environment_condition pe condition_assigned) in
    let available = is_available_iff pe in
    let other : (t : String) → Type 0 = λ t. (t ≡ "Unassigned") → ⊥ in
    let deleting : other "Deleting" = ne_of_== "Deleting" "Unassigned" refl in
    let scheduling : other "Scheduling" = ne_of_== "Scheduling" "Unassigned" refl in
    let deploying : other "Deploying" = ne_of_== "Deploying" "Unassigned" refl in
    let waiting : other "Deploying (NotReady)" =
      ne_of_== "Deploying (NotReady)" "Unassigned" refl in
    let done : other "Assigned" = ne_of_== "Assigned" "Unassigned" refl in
    elim (Option-cases pe.meta.deletion_timestamp) [
      | inr (t, gone) ↦ ground (arith, deleting)
      | inl live ↦
          elim (Bool-cases (is_true (get_problem_environment_condition pe condition_scheduled))) [
            | inr down ↦ ground (arith, scheduled, scheduling)
            | inl up ↦
                elim (Bool-cases
                  (is_true (get_problem_environment_condition pe condition_deployed))) [
                    | inr down ↦ ground (arith, deployed, deploying)
                    | inl made ↦
                        elim (Bool-cases
                          (is_true (get_problem_environment_condition pe condition_ready))) [
                            | inr down ↦ ground (arith, ready, waiting)
                            | inl runs ↦
                                elim (Bool-cases (
                                  is_true
                                    (get_problem_environment_condition pe condition_assigned))) [
                                      | inr free ↦
                                          ground
                                            (arith, scheduled, deployed, ready, taken, available)
                                      | inl held ↦ ground (arith, taken, done)
                                    ]
                          ]
                  ]
          ]
    ]
