-- ===== src/Lifecycle/Completed.antt =====
-- The end of an environment: one reconcile after its deletion.
use netcon_problem_managemen.Prelude.{
  Bool, ℕ, String, ◌≡◌, ◌≢◌, refl, sym, ◌∙◌, inl, inr, none, true, false, ok, arith, ap,
}
use netcon_problem_managemen.Api.{ProblemEnvironment}
use netcon_problem_managemen.Kube.{Client, World, update_environment}
use netcon_problem_managemen.ControllerManager.Environments.{Scheduler}
use netcon_problem_managemen.Nclet.Environments.{Driver, Finalizers, reconcile_instance}
use netcon_problem_managemen.Nclet.Environments.Duties.{Mine}
use netcon_problem_managemen.Nclet.Environments.Instances.{Instances, release_without_instance}
use netcon_problem_managemen.Nclet.Environments.Origins.{Untouched, gone_same}
use netcon_problem_managemen.Lifecycle.{stored}
use netcon_problem_managemen.Lifecycle.Machine.{FinalizerLaws, Move, reconciled}

-- The object without the finalizer.
abbrev pub released : Finalizers → ProblemEnvironment → ProblemEnvironment
released finalizers pe = stored (update_environment (finalizers.remove pe)) pe

module _ {C F : Type 0} (k : Client C) (scheduler : Scheduler F) (driver : Driver C)
    (finalizers : Finalizers) (own_name : String) (laws : FinalizerLaws finalizers)
    (alive : String → C → Bool) (instances : Instances driver alive) (untouched : Untouched k alive)
    (elapsed : String) (now : ℕ → ℕ) (pe : ProblemEnvironment) (w : World C) where
  -- Of an environment of this worker that is being deleted and has the finalizer, where the driver
  -- destroys the instance without an error: the reconcile sends one request, and once the server
  -- accepts it the object has no finalizer of nclet and the machine no instance; and no later
  -- reconcile of the object does anything. The driver keeps its contract, the finalizer functions their
  -- documented behaviour, and requests do not touch the instances.
  pub release_completes :
      Mine k driver finalizers own_name elapsed now pe
      → pe.meta.deletion_timestamp ≢ none
      → finalizers.contains pe ≡ true
      → (driver.destroy pe w.cluster).0 ≡ ok tt
      → let c' = (reconcile_instance k driver finalizers own_name elapsed now pe w).1.cluster in
        Move k scheduler driver finalizers own_name alive pe w.cluster (released finalizers pe) c'
        × (finalizers.contains (released finalizers pe) ≡ false)
        × (alive (released finalizers pe).meta.name c' ≡ false)
        × ((v : World C)
            → (reconcile_instance k driver finalizers own_name elapsed now
                (released finalizers pe)
                v).1
              ≡ v)
  unfolding stored
  release_completes mine gone contained destroyed =
      let bare : finalizers.contains (released finalizers pe) ≡ false =
        laws.contains_meta (released finalizers pe) (finalizers.remove pe) refl
        ∙ laws.contains_remove pe in
      let still : (released finalizers pe).meta.deletion_timestamp ≢ none =
        λ e. gone (sym (laws.remove_deletion pe) ∙ e) in
      elim (release_without_instance k driver finalizers own_name elapsed now alive instances pe
        mine contained w gone (untouched.update pe.meta.name (finalizers.remove pe))) [
          | inr (e, broken, sent) ↦ absurd (ground (arith, destroyed, broken))
          | inl (sent, absent) ↦ (
            reconciled elapsed now w refl sent,
            bare,
            ap
                  (λ name.
                    alive name
                      (reconcile_instance k driver finalizers own_name elapsed now pe w).1.cluster)
                  (laws.remove_name pe)
                ∙ absent,
            λ v.
                gone_same k driver finalizers own_name elapsed now alive untouched
                  (released finalizers pe) v bare still,
          )
        ]
