-- ===== src/Lifecycle/Fixed.antt =====
-- What a scheduled environment keeps in an accepted write, for the kinds of write that there are.
use netcon_problem_managemen.Prelude.{
  ◌==◌, sym, ℕ, String, ◌≡◌, refl, ◌≢◌, ◌∙◌, false, List, ◌∷◌, length, arith, ap, suc,
}
use netcon_problem_managemen.Api.{
  ConditionStatus, ProblemEnvironment, condition_scheduled, condition_true,
}
use netcon_problem_managemen.Condition.{
  get_problem_environment_condition, set_problem_environment_condition,
}
use netcon_problem_managemen.Condition.Laws.{status-set}
use netcon_problem_managemen.Kube.{Write, update_environment, update_environment_status}
use netcon_problem_managemen.Lifecycle.{stored}

-- Scheduled, on a named worker.
pub record Settled (pe : ProblemEnvironment) : Type 0 where
  pub scheduled : get_problem_environment_condition pe condition_scheduled ≡ condition_true
  pub named : pe.spec.worker_name ≢ ""

-- The later version is settled too, on the same worker, with the same password and topology.
pub record Fixed (pe pe' : ProblemEnvironment) : Type 0 where
  pub settled : Settled pe'
  pub worker : pe'.spec.worker_name ≡ pe.spec.worker_name
  pub password : pe'.status.password ≡ pe.status.password
  pub topology : pe'.spec.topology_file ≡ pe.spec.topology_file

pub status-Fixed :
    (pe new : ProblemEnvironment)
    → Settled pe
    → get_problem_environment_condition new condition_scheduled ≡ condition_true
    → new.status.password ≡ pe.status.password
    → Fixed pe (stored (update_environment_status new) pe)
unfolding stored get_problem_environment_condition
status-Fixed pe new s scheduled password = record {
  settled = record { scheduled = scheduled; named = s.named };
  worker = refl;
  password = password;
  topology = refl;
}

pub update-Fixed :
    (pe new : ProblemEnvironment)
    → Settled pe
    → new.spec.worker_name ≡ pe.spec.worker_name
    → new.spec.topology_file ≡ pe.spec.topology_file
    → Fixed pe (stored (update_environment new) pe)
unfolding stored get_problem_environment_condition
update-Fixed pe new s worker topology = record {
  settled = record { scheduled = s.scheduled; named = λ e. s.named (sym worker ∙ e) };
  worker = worker;
  password = refl;
  topology = topology;
}

-- A status update that sets a condition other than Scheduled.
pub set-Fixed :
    (now : ℕ) (pe : ProblemEnvironment) (type : String) (status : ConditionStatus)
    (reason message : String)
    → (type == condition_scheduled) ≡ false
    → Settled pe
    → Fixed pe (
        stored
          (update_environment_status
            (set_problem_environment_condition now pe type status reason message))
          pe)
set-Fixed now pe type status reason message other s =
    status-Fixed pe (set_problem_environment_condition now pe type status reason message) s
      (ground
        (arith, s.scheduled, status-set now pe type condition_scheduled status reason message))
      (unfold set_problem_environment_condition in refl)

pub cons-ne : (write : Write) (ws : List Write) → write ∷ ws ≢ ws
cons-ne write ws e =
    let lengths : suc (length ws) ≡ length ws = ap length e in absurd (omega (arith, lengths))

pub head_eq : {a b : Write} {ws : List Write} → a ∷ ws ≡ b ∷ ws → a ≡ b
head_eq e = ground arith
