-- ===== src/Lifecycle/Examples.antt =====
-- Two steps of a scheduled environment: the gateway hands it out, and nclet adds its finalizer.
use netcon_problem_managemen.Prelude.{inl, refl, ne_of_==, none, ok, true, ◌≡◌}
use netcon_problem_managemen.Condition.{
  is_true, is_false, get_problem_environment_condition, get_condition,
}
use netcon_problem_managemen.Kube.{update_environment, update_environment_status}
use netcon_problem_managemen.Gateway.{is_available, assigned}
use netcon_problem_managemen.Nclet.Environments.{Driver, Finalizers, status_deployed}
use netcon_problem_managemen.Lifecycle.{stored, acquired, edited, at_once, then_step}
use netcon_problem_managemen.Samples.{fresh, server, scheduler, waiting, Store}
use netcon_problem_managemen.Lifecycle.Fixed.{Fixed, Settled}
use netcon_problem_managemen.Webhook.{validate_update}
use netcon_problem_managemen.Webhook.Immutable.{validate_update_iff}
use netcon_problem_managemen.Lifecycle.Sound.{Sound, Reachable-Sound}
use netcon_problem_managemen.Lifecycle.Settled.{Reachable-Fixed}

abbrev idle_driver : Driver Store
idle_driver = record {
  check = λ pe s. ((status_deployed, none), s);
  deploy = λ pe s. (ok tt, s);
  destroy = λ pe s. (ok tt, s);
}

abbrev no_finalizers : Finalizers
no_finalizers = record { contains = λ pe. true; add = λ pe. pe; remove = λ pe. pe }

waiting-Settled : Settled (waiting "a")
unfolding get_problem_environment_condition get_condition
waiting-Settled = record { scheduled = refl; named = ne_of_== "w1" "" refl }

waiting_available : is_available (waiting "a") ≡ true
unfolding is_available get_problem_environment_condition get_condition is_true is_false
waiting_available = refl

Reachable-Fixed_example :
    Fixed
      (waiting "a")
      (stored (update_environment_status (assigned 500 (waiting "a"))) (waiting "a"))
Reachable-Fixed_example =
    Reachable-Fixed server scheduler idle_driver no_finalizers (λ pe. refl) (λ pe. refl)
      waiting-Settled (then_step at_once (acquired 500 waiting_available))

named_by_hand :
    validate_update fresh (record fresh { spec = record fresh.spec { worker_name = "w1" } }) ≡ ok tt
named_by_hand =
    (validate_update_iff fresh (record fresh { spec = record fresh.spec { worker_name = "w1" } })).1
      (record { worker = inl refl; topology = refl; selectors = refl })

-- A new environment whose worker a user has named.
Reachable-Sound_example : Sound (
    stored
      (update_environment (record fresh { spec = record fresh.spec { worker_name = "w1" } }))
      fresh)
Reachable-Sound_example =
    Reachable-Sound server scheduler idle_driver no_finalizers (λ pe. refl) (λ pe. refl) refl
      (then_step at_once
        (edited (record fresh { spec = record fresh.spec { worker_name = "w1" } }) named_by_hand))
