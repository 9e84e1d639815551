-- ===== src/Condition.antt =====
-- pkg/util/condition.go: reading and writing the conditions of a resource's status.
-- The two Set functions have one body, over the condition list and the resource's generation, and so
-- have the two Get functions; `now` is the reading of the clock that the body makes first.
pub mod Laws
mod Examples
use netcon_problem_managemen.Prelude.{
  ℕ, String, Bool, true, false, List, [], ◌∷◌, ◌==◌, if◌then◌else◌,
}
use netcon_problem_managemen.Api.{
  Condition, ConditionStatus, condition_true, condition_false, condition_unknown,
  ProblemEnvironment, Worker,
}

-- `a == b` on condition statuses.
pub same_status : ConditionStatus → ConditionStatus → Bool
same_status condition_true condition_true = true
same_status condition_false condition_false = true
same_status condition_unknown condition_unknown = true
same_status _ _ = false

-- `status == metav1.ConditionTrue`
unfoldable pub is_true : ConditionStatus → Bool
is_true condition_true = true
is_true condition_false = false
is_true condition_unknown = false

-- `status == metav1.ConditionFalse`
unfoldable pub is_false : ConditionStatus → Bool
is_false condition_true = false
is_false condition_false = true
is_false condition_unknown = false

-- The loop's body at the condition that it finds.
pub rewrite_condition : ℕ → ℕ → ConditionStatus → String → String → Condition → Condition
unfolding same_status
rewrite_condition now generation status reason message c = record c {
  status = status;
  observed_generation = generation;
  last_transition_time = if same_status c.status status then c.last_transition_time else now;
  reason = reason;
  message = message;
}

pub set_condition :
    ℕ → ℕ → String → ConditionStatus → String → String → List Condition → List Condition
unfolding rewrite_condition
set_condition now generation type status reason message [] =
    record {
      type = type;
      status = status;
      observed_generation = generation;
      last_transition_time = now;
      reason = reason;
      message = message;
    }
    ∷ []
set_condition now generation type status reason message (c ∷ cs) =
    if c.type == type
    then rewrite_condition now generation status reason message c ∷ cs
    else c ∷ set_condition now generation type status reason message cs

unfoldable pub get_condition : String → List Condition → ConditionStatus
get_condition type [] = condition_unknown
get_condition type (c ∷ cs) = if c.type == type then c.status else get_condition type cs

unfoldable pub set_problem_environment_condition :
    ℕ → ProblemEnvironment → String → ConditionStatus → String → String → ProblemEnvironment
set_problem_environment_condition now pe type status reason message = record pe {
  status = record pe.status {
    conditions =
        set_condition now pe.meta.generation type status reason message pe.status.conditions;
  };
}

unfoldable pub get_problem_environment_condition : ProblemEnvironment → String → ConditionStatus
get_problem_environment_condition pe type = get_condition type pe.status.conditions

pub set_worker_condition : ℕ → Worker → String → ConditionStatus → String → String → Worker
set_worker_condition now worker type status reason message = record worker {
  status = record worker.status {
    conditions =
        set_condition now worker.meta.generation type status reason message
          worker.status.conditions;
  };
}

unfoldable pub get_worker_condition : Worker → String → ConditionStatus
get_worker_condition worker type = get_condition type worker.status.conditions
