-- ===== src/Webhook/Examples.antt =====
-- The webhook at concrete updates.
use netcon_problem_managemen.Prelude.{◌≡◌, refl, ne_of_==, err, []}
use netcon_problem_managemen.Webhook.{same_file, same_selectors, validate_update}
use netcon_problem_managemen.Webhook.Immutable.{Updates, none_yet, then_update, Updates-fixed}
use netcon_problem_managemen.Samples.{environment}

-- Moving a scheduled environment to another worker is refused.
moved_refused :
    validate_update (environment "e" "w1" []) (environment "e" "w2" [])
    ≡ err ".spec.workerName: workerName can't be updated after scheduling"
unfolding validate_update
moved_refused = refl

one_update : Updates (environment "e" "w1" []) (environment "e" "w1" [])
unfolding validate_update same_file same_selectors
one_update = then_update none_yet refl

Updates-fixed_example :
    let pe = environment "e" "w1" [] in
    (pe.spec.worker_name ≡ pe.spec.worker_name)
    × (pe.spec.topology_file ≡ pe.spec.topology_file)
    × (pe.spec.worker_selectors ≡ pe.spec.worker_selectors)
Updates-fixed_example = Updates-fixed (ne_of_== _ _ refl) one_update
