-- ===== src/Lifecycle/Settled.antt =====
-- What no actor changes once an environment is scheduled.
use netcon_problem_managemen.Prelude.{◌≡◌, refl, ◌∙◌, inl, inr, arith}
use netcon_problem_managemen.Api.{ProblemEnvironment, condition_assigned, condition_true}
use netcon_problem_managemen.Webhook.Immutable.{validate_update_iff}
use netcon_problem_managemen.ControllerManager.Environments.{Scheduler, reconcile_environment}
use netcon_problem_managemen.ControllerManager.Environments.Branches.{
  reconcile_environment-Reaction,
}
use netcon_problem_managemen.Nclet.Environments.{reconcile_instance, Driver, Finalizers}
use netcon_problem_managemen.Nclet.Environments.Duties.{reconcile_instance-Duty}
use netcon_problem_managemen.Kube.{Client}
use netcon_problem_managemen.Gateway.{assigned}
use netcon_problem_managemen.Lifecycle.{
  controlled, served, acquired, commanded, unassigned, edited, at_once, then_step, Step, Reachable,
}
use netcon_problem_managemen.Lifecycle.Fixed.{Settled, Fixed, update-Fixed, set-Fixed}
use netcon_problem_managemen.Lifecycle.Actors.{
  assign-Fixed, Reaction-Fixed, Duty-Fixed, unassigned-Fixed,
}

module _ {C F : Type 0} (k : Client C) (scheduler : Scheduler F) (driver : Driver C)
    (finalizers : Finalizers)
    (add_keeps : (pe : ProblemEnvironment) → (finalizers.add pe).spec ≡ pe.spec)
    (remove_keeps : (pe : ProblemEnvironment) → (finalizers.remove pe).spec ≡ pe.spec) where
  pub step-Fixed :
      (pe pe' : ProblemEnvironment)
      → Settled pe
      → Step k scheduler driver finalizers pe pe'
      → Fixed pe pe'
  step-Fixed pe pe' s (controlled readings w {write} e) =
      Reaction-Fixed k scheduler readings pe w.writes write
        (reconcile_environment k scheduler readings pe w).1.writes e s
        (reconcile_environment-Reaction k scheduler readings pe w)
  step-Fixed pe pe' s (served own_name elapsed now w {write} e) =
      Duty-Fixed k driver finalizers own_name elapsed now add_keeps remove_keeps pe w
        (reconcile_instance k driver finalizers own_name elapsed now pe w).1 write e s
        (reconcile_instance-Duty k driver finalizers own_name elapsed now pe w)
  step-Fixed pe pe' s (acquired now available) =
      unfold assigned in
      set-Fixed now pe condition_assigned condition_true "Assigned" "Assigned ProblemEnvironment"
        (ground arith) s
  step-Fixed pe pe' s (commanded namespace name now w {write} got e) =
      assign-Fixed k namespace name now pe w write got e s
  step-Fixed pe pe' s (unassigned namespace name now w {write} got e) =
      unassigned-Fixed k namespace name now pe w write got e s
  step-Fixed pe pe' s (edited new accepted) =
      let allowed = (validate_update_iff pe new).0 accepted in
      update-Fixed pe new s
        (elim allowed.worker [ inl empty ↦ absurd (s.named empty) | inr same ↦ same ])
        allowed.topology

  -- Whatever the controller manager, nclet, the gateway, the plugin and the users write, once an
  -- environment is scheduled on a named worker it stays scheduled, on that worker, with the password
  -- and the topology that it has, provided the finalizer functions leave its specification alone.
  pub Reachable-Fixed :
      {pe pe' : ProblemEnvironment}
      → Settled pe
      → Reachable k scheduler driver finalizers pe pe'
      → Fixed pe pe'
  Reachable-Fixed s at_once = record {
    settled = s;
    worker = refl;
    password = refl;
    topology = refl;
  }
  Reachable-Fixed {pe} s (then_step {old} {new} rs step) =
      let before = Reachable-Fixed s rs in
      let last = step-Fixed old new before.settled step in
      record {
        settled = last.settled;
        worker = last.worker ∙ before.worker;
        password = last.password ∙ before.password;
        topology = last.topology ∙ before.topology;
      }
