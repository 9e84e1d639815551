-- ===== src/ControllerManager/Election/Examples.antt =====
-- The election over whole numbers in place of float64.
use netcon_problem_managemen.Prelude.{true, false, ◌≡◌, refl, ◌⊎◌, none, List, [], ◌∷◌, In, All}
use netcon_problem_managemen.Api.{Worker, condition_true, condition_false}
use netcon_problem_managemen.Condition.{is_true, get_condition, get_worker_condition}
use netcon_problem_managemen.ControllerManager.Election.{
  selected, used_percent, candidate, candidates, pick, total_weight, last_name, weight, score,
  elect_worker_from_candidates, elect_worker,
}
use netcon_problem_managemen.ControllerManager.Election.Sound.{Eligible, elect_worker_sound}
use netcon_problem_managemen.Samples.{worker, whole, even, flat}

abbrev workers : List Worker
workers =
    worker "w0" false condition_false
    ∷ worker "w1" true condition_true
    ∷ worker "w2" false condition_true
    ∷ []

only_ready_and_enabled : elect_worker whole even flat 5 workers none ≡ "w2"
unfolding get_condition elect_worker candidates candidate selected used_percent is_true
    get_worker_condition elect_worker_from_candidates pick total_weight last_name weight score
only_ready_and_enabled = refl

elect_worker_sound_example :
    ((elect_worker whole even flat 5 workers none ≡ "")
      × All (λ w. ¬ Eligible whole even flat none w) workers)
    ⊎ ((w : Worker) × In w workers
        × Eligible whole even flat none w
        × (w.meta.name ≡ elect_worker whole even flat 5 workers none))
elect_worker_sound_example = elect_worker_sound whole even flat none 5 workers
