-- ===== src/Lifecycle/Machine.antt =====
-- One ProblemEnvironment together with the machine of one nclet: the stored object, and what the calls
-- of the client and of the driver see and change. A reconcile of this nclet starts from the stored
-- object, not from a cache that lags behind it; its commands are carried out whether or not its write
-- is accepted. Every other step is one
-- of another actor, which leaves the instances of this machine as they are.
use netcon_problem_managemen.Prelude.{false, ℕ, String, Bool, true, ◌≡◌, ◌≢◌, ◌∷◌}
use netcon_problem_managemen.Api.{ProblemEnvironment}
use netcon_problem_managemen.Kube.{Client, World}
use netcon_problem_managemen.ControllerManager.Environments.{Scheduler}
use netcon_problem_managemen.Nclet.Environments.{Driver, Finalizers, reconcile_instance}
use netcon_problem_managemen.Lifecycle.{
  Step, stored, controlled, served, acquired, commanded, unassigned, edited,
}

-- The documented behaviour of the functions of controllerutil: they look at the finalizers in the
-- metadata, and change nothing else.
pub record FinalizerLaws (finalizers : Finalizers) : Type 0 where
  pub contains_meta :
      (pe other : ProblemEnvironment)
      → pe.meta ≡ other.meta
      → finalizers.contains pe ≡ finalizers.contains other
  pub contains_add : (pe : ProblemEnvironment) → finalizers.contains (finalizers.add pe) ≡ true
  pub contains_remove :
      (pe : ProblemEnvironment) → finalizers.contains (finalizers.remove pe) ≡ false
  pub remove_deletion :
      (pe : ProblemEnvironment)
      → (finalizers.remove pe).meta.deletion_timestamp ≡ pe.meta.deletion_timestamp
  pub add_name : (pe : ProblemEnvironment) → (finalizers.add pe).meta.name ≡ pe.meta.name
  pub remove_name : (pe : ProblemEnvironment) → (finalizers.remove pe).meta.name ≡ pe.meta.name
  pub add_spec : (pe : ProblemEnvironment) → (finalizers.add pe).spec ≡ pe.spec
  pub remove_spec : (pe : ProblemEnvironment) → (finalizers.remove pe).spec ≡ pe.spec

module _ {C F : Type 0} (k : Client C) (scheduler : Scheduler F) (driver : Driver C)
    (finalizers : Finalizers) (own_name : String) where
  -- A step that this nclet does not take. The server lets nobody change the name of an object, and a
  -- user who edits it leaves the finalizer of nclet alone.
  unfoldable pub Elsewhere :
      (pe pe' : ProblemEnvironment) → Step k scheduler driver finalizers pe pe' → Type 0
  Elsewhere pe pe' (controlled readings w e) = Unit {0}
  Elsewhere pe pe' (served name elapsed now w e) = name ≢ own_name
  Elsewhere pe pe' (acquired now available) = Unit {0}
  Elsewhere pe pe' (commanded namespace name now w got e) = Unit {0}
  Elsewhere pe pe' (unassigned namespace name now w got e) = Unit {0}
  Elsewhere pe pe' (edited new accepted) =
      (new.meta.name ≡ pe.meta.name)
      × (finalizers.contains pe ≡ true → finalizers.contains new ≡ true)

  module _ (alive : String → C → Bool) where
    pub data Move (pe : ProblemEnvironment) (c : C) : ProblemEnvironment → C → Type 0 where
      reconciled :
          (elapsed : String) (now : ℕ → ℕ) (w : World C) {write : _}
          → w.cluster ≡ c
          → (reconcile_instance k driver finalizers own_name elapsed now pe w).1.writes
            ≡ write ∷ w.writes
          → Move pe c
              (stored write pe)
              (reconcile_instance k driver finalizers own_name elapsed now pe w).1.cluster
      unwritten :
          (elapsed : String) (now : ℕ → ℕ) (w : World C)
          → w.cluster ≡ c
          → Move pe c pe
              (reconcile_instance k driver finalizers own_name elapsed now pe w).1.cluster
      elsewhere :
          {pe' : ProblemEnvironment} {c' : C} (step : Step k scheduler driver finalizers pe pe')
          → Elsewhere pe pe' step
          → alive pe.meta.name c' ≡ alive pe.meta.name c
          → Move pe c pe' c'

    -- The histories of the object and the machine.
    pub data Moves (pe : ProblemEnvironment) (c : C) : ProblemEnvironment → C → Type 0 where
      none_yet : Moves pe c pe c
      then_move :
          {pe1 pe2 : ProblemEnvironment} {c1 c2 : C}
          → Moves pe c pe1 c1
          → Move pe1 c1 pe2 c2
          → Moves pe c pe2 c2
