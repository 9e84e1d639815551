-- ===== src/Plugin/Guards.antt =====
-- What the commands send, and when.
use netcon_problem_managemen.Prelude.{
  ℕ, String, ◌≡◌, ◌≢◌, ◌⊎◌, inl, inr, Bool, true, false, ◌∷◌, ok, err, arith, Bool-cases,
}
use netcon_problem_managemen.Api.{
  ProblemEnvironment, condition_ready, condition_assigned, condition_false, condition_true,
}
use netcon_problem_managemen.Condition.{
  is_true, is_false, set_problem_environment_condition, get_problem_environment_condition,
}
use netcon_problem_managemen.Condition.Laws.{is_true_iff, is_false_iff}
use netcon_problem_managemen.Kube.{Client, World, update_environment_status, delete_environment}
use netcon_problem_managemen.Gateway.Selection.{Available}
use netcon_problem_managemen.Plugin.{refused, delete, assign, unassign}

module _ {C : Type 0} (k : Client C) (namespace name : String) (now : ℕ) (w : World C)
    (pe : ProblemEnvironment)
    (got : (k.get_problem_environment namespace name w.cluster).0 ≡ ok pe) where
  -- `assign` takes an environment that is found exactly where the gateway would: if it is available, one
  -- request assigns it; if it is not, the command is refused and nothing is sent.
  pub assign-Available :
      let (result, w') = assign k namespace now name w in
      (Available pe
        × (w'.writes
            ≡ update_environment_status (
                set_problem_environment_condition now pe condition_assigned condition_true
                  "AdminUpdated" "assigned by admin forcibly")
              ∷ w.writes))
      ⊎ ((¬ Available pe)
          × (w'.writes ≡ w.writes)
          × ((reason : String) × (result ≡ err (refused reason))))
  unfolding assign
  assign-Available =
      let ready = is_true_iff (get_problem_environment_condition pe condition_ready) in
      let free = is_false_iff (get_problem_environment_condition pe condition_assigned) in
      elim (Bool-cases (is_true (get_problem_environment_condition pe condition_ready))) [
        | inr down ↦ inr (
          (λ a. cc (down, ready.1 a.ready)),
          ground arith,
          ("failed to update status: ProblemEnvironment is not ready", ground arith),
        )
        | inl up ↦
            elim (Bool-cases (is_false (get_problem_environment_condition pe condition_assigned))) [
              | inr taken ↦ inr (
                (λ a. cc (taken, free.1 a.free)),
                ground arith,
                ("failed to update status: ProblemEnvironment is already assigned", ground arith),
              )
              | inl unused ↦ inl (record { ready = ready.0 up; free = free.0 unused }, ground arith)
            ]
      ]

  -- Without `--force`, an environment that is found is requested to be deleted exactly if it is not
  -- assigned, with one request; with it, always.
  delete-force :
      (force : Bool)
      → let w' = (delete k namespace force name w).1 in
        ((w'.writes ≡ delete_environment pe ∷ w.writes)
          × ((force ≡ true)
              ⊎ (get_problem_environment_condition pe condition_assigned ≢ condition_true)))
        ⊎ ((w'.writes ≡ w.writes)
            × (force ≡ false)
            × (get_problem_environment_condition pe condition_assigned ≡ condition_true))
  unfolding delete
  delete-force force =
      ground (arith, is_true_iff (get_problem_environment_condition pe condition_assigned))

-- `unassign` sends one request for an environment that is found and assigned, and it sets Assigned to
-- False; for one that is found and not assigned it sends nothing.
pub unassign-Guarded :
    {C : Type 0} (k : Client C) (namespace name : String) (now : ℕ) (w : World C)
    (pe : ProblemEnvironment)
    → (k.get_problem_environment namespace name w.cluster).0 ≡ ok pe
    → let w' = (unassign k namespace now name w).1 in
      ((get_problem_environment_condition pe condition_assigned ≡ condition_true)
        × (w'.writes
            ≡ update_environment_status (
                set_problem_environment_condition now pe condition_assigned condition_false
                  "AdminUpdated" "assigned by admin forcibly")
              ∷ w.writes))
      ⊎ ((get_problem_environment_condition pe condition_assigned ≢ condition_true)
          × (w'.writes ≡ w.writes))
unfolding unassign
unassign-Guarded k namespace name now w pe got =
    let assigned = is_true_iff (get_problem_environment_condition pe condition_assigned) in
    elim (Bool-cases (is_true (get_problem_environment_condition pe condition_assigned))) [
      | inl taken ↦ inl (assigned.0 taken, ground arith)
      | inr free ↦ inr ((λ e. cc (free, assigned.1 e)), ground arith)
    ]
