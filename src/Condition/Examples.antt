-- ===== src/Condition/Examples.antt =====
-- The laws of the conditions at concrete objects.
use netcon_problem_managemen.Prelude.{refl, ne_of_==}
use netcon_problem_managemen.Api.{condition_false}
use netcon_problem_managemen.Condition.Laws.{Unique}
use netcon_problem_managemen.Samples.{ready_conditions}

ready_conditions-Unique : Unique (ready_conditions condition_false)
ready_conditions-Unique = (
  (ne_of_== _ _ refl, (ne_of_== _ _ refl, (ne_of_== _ _ refl, tt))),
  ((ne_of_== _ _ refl, (ne_of_== _ _ refl, tt)), ((ne_of_== _ _ refl, tt), (tt, tt))),
)
