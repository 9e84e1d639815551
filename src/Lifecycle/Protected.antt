-- ===== src/Lifecycle/Protected.antt =====
-- Every instance of the machine is guarded by the finalizer, in every history.
use netcon_problem_managemen.Prelude.{
  ap, ℕ, String, Bool, ◌≡◌, ◌≢◌, sym, ◌∙◌, inl, inr, true, false, ◌∷◌, arith,
}
use netcon_problem_managemen.Api.{ProblemEnvironment}
use netcon_problem_managemen.Kube.{Client, World, Write}
use netcon_problem_managemen.ControllerManager.Environments.{Scheduler}
use netcon_problem_managemen.Nclet.Environments.{Driver, Finalizers, reconcile_instance}
use netcon_problem_managemen.Nclet.Environments.Duties.{reconcile_instance-Duty}
use netcon_problem_managemen.Nclet.Environments.Instances.{Instances, release_without_instance}
use netcon_problem_managemen.Nclet.Environments.Origins.{Untouched, alive_before_or_guarded}
use netcon_problem_managemen.Lifecycle.{stored, served}
use netcon_problem_managemen.Lifecycle.Machine.{
  FinalizerLaws, Move, Moves, reconciled, unwritten, elsewhere, none_yet, then_move,
}
use netcon_problem_managemen.Lifecycle.Metas.{Duty-meta}
use netcon_problem_managemen.Lifecycle.Guarded.{
  Guarded, served_name, Elsewhere-name, Elsewhere-Guarded, same_meta-Guarded,
}

module _ {C F : Type 0} (k : Client C) (scheduler : Scheduler F) (driver : Driver C)
    (finalizers : Finalizers) (own_name : String) (named : own_name ≢ "")
    (laws : FinalizerLaws finalizers) (alive : String → C → Bool)
    (instances : Instances driver alive) (untouched : Untouched k alive) where
  module _ (elapsed : String) (now : ℕ → ℕ) (pe : ProblemEnvironment) (w : World C)
      (before : alive pe.meta.name w.cluster ≡ true → Guarded finalizers own_name pe)
      (at : alive pe.meta.name
          (reconcile_instance k driver finalizers own_name elapsed now pe w).1.cluster
        ≡ true) where
    unwritten-Guarded : Guarded finalizers own_name pe
    unwritten-Guarded =
        elim (alive_before_or_guarded k driver finalizers own_name elapsed now alive untouched pe w
          at) [
            | inl earlier ↦ before earlier
            | inr (contained, mine) ↦ record {
              contained = contained;
              settled = record { scheduled = mine.0; named = λ e. named (sym mine.1 ∙ e) };
              here = mine.1;
            }
          ]

    kept_or_gone :
        {write : Write}
        → (reconcile_instance k driver finalizers own_name elapsed now pe w).1.writes
          ≡ write ∷ w.writes
        → Guarded finalizers own_name (stored write pe)
    kept_or_gone {write} e =
        let after = (reconcile_instance k driver finalizers own_name elapsed now pe w).1 in
        let guarded = unwritten-Guarded in
        elim (Duty-meta k driver finalizers own_name elapsed now pe w after e
          (reconcile_instance-Duty k driver finalizers own_name elapsed now pe w)) [
            | inl same ↦
                same_meta-Guarded k scheduler driver finalizers own_name laws pe (stored write pe)
                  guarded (served own_name elapsed now w e) same
            | inr (inl (bare, q)) ↦ absurd (cc (bare, guarded.contained))
            | inr (inr (gone, q)) ↦
                elim (release_without_instance k driver finalizers own_name elapsed now alive
                  instances pe (guarded.settled.scheduled, guarded.here) guarded.contained w gone
                  (untouched.update pe.meta.name (finalizers.remove pe))) [
                    | inl (sent, absent) ↦ absurd (cc (at, absent))
                    | inr (error, broken, sent) ↦ absurd (ground (arith, e, q, sent))
                  ]
          ]

  Move-Guarded :
      (pe pe' : ProblemEnvironment) (c c' : C)
      → (alive pe.meta.name c ≡ true → Guarded finalizers own_name pe)
      → Move k scheduler driver finalizers own_name alive pe c pe' c'
      → alive pe'.meta.name c' ≡ true
      → Guarded finalizers own_name pe'
  Move-Guarded pe pe' c c' before (reconciled elapsed now w at e) later =
      kept_or_gone elapsed now pe w (rw at before)
        (sym (
            ap (λ name. alive name c')
              (served_name k scheduler driver finalizers own_name laws own_name elapsed now pe w e))
          ∙ later)
        e
  Move-Guarded pe pe' c c' before (unwritten elapsed now w at) later =
      unwritten-Guarded elapsed now pe w (rw at before) later
  Move-Guarded pe pe' c c' before (elsewhere step out same) later =
      Elsewhere-Guarded k scheduler driver finalizers own_name laws pe pe' step out (
        before (
          ground (
            arith,
            same,
            later,
            Elsewhere-name k scheduler driver finalizers own_name laws pe pe' step out,
          )))

  -- Whatever nclet, its driver, the other actors and the server do: of an environment that starts
  -- without an instance on the machine of this worker, there is an instance only while the stored
  -- object has the finalizer of nclet, is scheduled, and names this worker. The driver keeps its
  -- contract and the finalizer functions their documented behaviour, requests do not touch the
  -- instances, the worker has a name, and users leave the finalizer and the name alone.
  pub instance-Guarded :
      {pe : ProblemEnvironment} {c : C} {pe' : ProblemEnvironment} {c' : C}
      → alive pe.meta.name c ≡ false
      → Moves k scheduler driver finalizers own_name alive pe c pe' c'
      → alive pe'.meta.name c' ≡ true
      → Guarded finalizers own_name pe'
  instance-Guarded absent none_yet later = absurd (cc (absent, later))
  instance-Guarded absent (then_move {pe1} {pe2} {c1} {c2} moves move) later =
      Move-Guarded pe1 pe2 c1 c2 (instance-Guarded absent moves) move later
