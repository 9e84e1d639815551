-- ===== src/Lifecycle/Guarded.antt =====
-- The finalizer of nclet and the instances of its machine.
use netcon_problem_managemen.Prelude.{ℕ, String, ◌≡◌, refl, sym, ◌∙◌, inl, inr, true, ◌∷◌, ap}
use netcon_problem_managemen.Api.{ProblemEnvironment, ObjectMeta}
use netcon_problem_managemen.Kube.{Client, World, Write, update_environment}
use netcon_problem_managemen.ControllerManager.Environments.{Scheduler}
use netcon_problem_managemen.ControllerManager.Environments.Branches.{
  reconcile_environment-Reaction,
}
use netcon_problem_managemen.Nclet.Environments.{Driver, Finalizers, reconcile_instance}
use netcon_problem_managemen.Nclet.Environments.Duties.{reconcile_instance-Duty}
use netcon_problem_managemen.Lifecycle.{
  stored, Step, controlled, served, acquired, commanded, unassigned, edited,
}
use netcon_problem_managemen.Lifecycle.Fixed.{Settled, Fixed}
use netcon_problem_managemen.Lifecycle.Settled.{step-Fixed}
use netcon_problem_managemen.Lifecycle.Machine.{FinalizerLaws, Elsewhere}
use netcon_problem_managemen.Lifecycle.Metas.{
  Reaction-meta, Duty-meta, Duty-Mine, assign-meta, unassign-meta,
}

-- The environment has an instance here only with the finalizer of nclet on it, and scheduled on this
-- worker.
pub record Guarded (finalizers : Finalizers) (own_name : String) (pe : ProblemEnvironment)
    : Type 0 where
  pub contained : finalizers.contains pe ≡ true
  pub settled : Settled pe
  pub here : pe.spec.worker_name ≡ own_name

module _ {C F : Type 0} (k : Client C) (scheduler : Scheduler F) (driver : Driver C)
    (finalizers : Finalizers) (own_name : String) (laws : FinalizerLaws finalizers) where
  step_Fixed :
      (pe pe' : ProblemEnvironment)
      → Settled pe
      → Step k scheduler driver finalizers pe pe'
      → Fixed pe pe'
  step_Fixed = step-Fixed k scheduler driver finalizers laws.add_spec laws.remove_spec

  module _ (pe pe' : ProblemEnvironment) (guarded : Guarded finalizers own_name pe)
      (step : Step k scheduler driver finalizers pe pe') where
    still-Guarded : finalizers.contains pe' ≡ true → Guarded finalizers own_name pe'
    still-Guarded contained =
        let fixed = step_Fixed pe pe' guarded.settled step in
        record {
          contained = contained;
          settled = fixed.settled;
          here = fixed.worker ∙ guarded.here;
        }

    pub same_meta-Guarded : pe'.meta ≡ pe.meta → Guarded finalizers own_name pe'
    same_meta-Guarded same = still-Guarded (laws.contains_meta pe' pe same ∙ guarded.contained)

  pub served_name :
      (name elapsed : String) (now : ℕ → ℕ) (pe : ProblemEnvironment) (w : World C) {write : Write}
      → (reconcile_instance k driver finalizers name elapsed now pe w).1.writes ≡ write ∷ w.writes
      → (stored write pe).meta.name ≡ pe.meta.name
  unfolding stored
  served_name name elapsed now pe w e =
      let after = (reconcile_instance k driver finalizers name elapsed now pe w).1 in
      elim (Duty-meta k driver finalizers name elapsed now pe w after e
        (reconcile_instance-Duty k driver finalizers name elapsed now pe w)) [
          | inl same ↦ ap (λ (m : ObjectMeta). m.name) same
          | inr (inl (bare, q)) ↦ rw q (laws.add_name pe)
          | inr (inr (gone, q)) ↦ rw q (laws.remove_name pe)
        ]

  -- A step that this nclet does not take keeps the name, and the finalizer of an environment that has
  -- an instance here.
  pub Elsewhere-name :
      (pe pe' : ProblemEnvironment) (step : Step k scheduler driver finalizers pe pe')
      → Elsewhere k scheduler driver finalizers own_name pe pe' step
      → pe'.meta.name ≡ pe.meta.name
  unfolding stored Elsewhere
  Elsewhere-name pe pe' (controlled readings w e) out =
      ap (λ (m : ObjectMeta). m.name)
        (Reaction-meta pe e (reconcile_environment-Reaction k scheduler readings pe w))
  Elsewhere-name pe pe' (served name elapsed now w e) out = served_name name elapsed now pe w e
  Elsewhere-name pe pe' (acquired now available) out = refl
  Elsewhere-name pe pe' (commanded namespace name now w got e) out =
      ap (λ (m : ObjectMeta). m.name) (assign-meta k namespace name now pe w got e)
  Elsewhere-name pe pe' (unassigned namespace name now w got e) out =
      ap (λ (m : ObjectMeta). m.name) (unassign-meta k namespace name now pe w got e)
  Elsewhere-name pe pe' (edited new accepted) out = out.0

  pub Elsewhere-Guarded :
      (pe pe' : ProblemEnvironment) (step : Step k scheduler driver finalizers pe pe')
      → Elsewhere k scheduler driver finalizers own_name pe pe' step
      → Guarded finalizers own_name pe
      → Guarded finalizers own_name pe'
  unfolding stored Elsewhere
  Elsewhere-Guarded pe pe' (controlled readings w e) out guarded =
      same_meta-Guarded pe pe' guarded (controlled readings w e)
        (Reaction-meta pe e (reconcile_environment-Reaction k scheduler readings pe w))
  Elsewhere-Guarded pe pe' (served name elapsed now w e) out guarded =
      let after = (reconcile_instance k driver finalizers name elapsed now pe w).1 in
      let mine =
        Duty-Mine k driver finalizers name elapsed now pe w after e
          (reconcile_instance-Duty k driver finalizers name elapsed now pe w) in
      absurd (out (sym mine.1 ∙ guarded.here))
  Elsewhere-Guarded pe pe' (acquired now available) out guarded =
      same_meta-Guarded pe pe' guarded (acquired now available) refl
  Elsewhere-Guarded pe pe' (commanded namespace name now w got e) out guarded =
      same_meta-Guarded pe pe' guarded (commanded namespace name now w got e)
        (assign-meta k namespace name now pe w got e)
  Elsewhere-Guarded pe pe' (unassigned namespace name now w got e) out guarded =
      same_meta-Guarded pe pe' guarded (unassigned namespace name now w got e)
        (unassign-meta k namespace name now pe w got e)
  Elsewhere-Guarded pe pe' (edited new accepted) out guarded =
      still-Guarded pe pe' guarded (edited new accepted)
        (laws.contains_meta (stored (update_environment new) pe) new refl ∙ out.1 guarded.contained)
