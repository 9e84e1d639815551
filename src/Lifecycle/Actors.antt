-- ===== src/Lifecycle/Actors.antt =====
-- What a scheduled environment keeps in the writes of each actor.
use netcon_problem_managemen.Prelude.{
  Option, sym, ℕ, String, ◌≡◌, refl, ◌∙◌, inl, inr, ok, List, ◌∷◌, arith, ap,
}
use netcon_problem_managemen.Api.{
  ContainerStatus, ProblemEnvironmentSpec, condition_false, ProblemEnvironment, condition_scheduled,
  condition_deployed, condition_ready, condition_assigned, condition_true,
}
use netcon_problem_managemen.Condition.{
  get_problem_environment_condition, set_problem_environment_condition,
}
use netcon_problem_managemen.Condition.Laws.{status-set}
use netcon_problem_managemen.ControllerManager.Environments.{Scheduler, Readings}
use netcon_problem_managemen.Kube.{Client, World, Write}
use netcon_problem_managemen.ControllerManager.Environments.Branches.{
  Reaction, silent, names_worker, postpones, confirms, reports,
}
use netcon_problem_managemen.Nclet.Environments.{Driver, Finalizers}
use netcon_problem_managemen.Nclet.Environments.Refresh.{reported, Refreshed}
use netcon_problem_managemen.Nclet.Environments.Duties.{
  Duty, marked_deployed, idle, releases, keeps, protects, deploys, gives_up, refreshes,
}
use netcon_problem_managemen.Plugin.Guards.{assign-Available, unassign-Guarded}
use netcon_problem_managemen.Plugin.{assign, unassign}
use netcon_problem_managemen.Lifecycle.{stored}
use netcon_problem_managemen.Lifecycle.Fixed.{
  Settled, Fixed, status-Fixed, update-Fixed, set-Fixed, cons-ne, head_eq,
}

module _ {C F : Type 0} (k : Client C) (scheduler : Scheduler F) (readings : Readings F) where
  pub Reaction-Fixed :
      (pe : ProblemEnvironment) (ws : List Write) (write : Write) (after : List Write)
      → after ≡ write ∷ ws
      → Settled pe
      → Reaction k scheduler readings pe ws after
      → Fixed pe (stored write pe)
  Reaction-Fixed pe ws write after e s (silent q) = absurd (cons-ne write ws (sym e ∙ q))
  Reaction-Fixed pe ws write after e s (names_worker worker a b c d q) = absurd (d s.scheduled)
  Reaction-Fixed pe ws write after e s (postpones reason message a b q) = absurd (b s.scheduled)
  Reaction-Fixed pe ws write after e s (confirms password a b c d q) = absurd (c s.scheduled)
  Reaction-Fixed pe ws write after e s (reports status reason message a b q) =
      rw (head_eq (sym e ∙ q))
        (set-Fixed (readings.now 0) pe condition_ready status reason message (ground arith) s)

module _ {C : Type 0} (k : Client C) (driver : Driver C) (finalizers : Finalizers)
    (own_name elapsed : String) (now : ℕ → ℕ)
    (add_keeps : (pe : ProblemEnvironment) → (finalizers.add pe).spec ≡ pe.spec)
    (remove_keeps : (pe : ProblemEnvironment) → (finalizers.remove pe).spec ≡ pe.spec) where
  Refreshed-Fixed :
      (pe new : ProblemEnvironment) (containers : Option (List ContainerStatus)) (ws : List Write)
      (write : Write) (after : List Write)
      → after ≡ write ∷ ws
      → Settled pe
      → get_problem_environment_condition new condition_scheduled ≡ condition_true
      → new.status.password ≡ pe.status.password
      → Refreshed new containers ws after
      → Fixed pe (stored write pe)
  Refreshed-Fixed pe new containers ws write after e s scheduled password (inl (same, q)) =
      absurd (cons-ne write ws (sym e ∙ q))
  Refreshed-Fixed pe new containers ws write after e s scheduled password (inr (differ, q)) =
      rw (head_eq (sym e ∙ q)) (
        status-Fixed pe (reported new containers) s
          (unfold get_problem_environment_condition in scheduled) password)

  pub Duty-Fixed :
      (pe : ProblemEnvironment) (before after : World C) (write : Write)
      → after.writes ≡ write ∷ before.writes
      → Settled pe
      → Duty k driver finalizers own_name elapsed now pe before after
      → Fixed pe (stored write pe)
  Duty-Fixed pe before after write e s (idle why q c) =
      absurd (cons-ne write before.writes (sym e ∙ q))
  Duty-Fixed pe before after write e s (releases m g f d c q) = rw (head_eq (sym e ∙ q)) (
      update-Fixed pe (finalizers.remove pe) s
        (ap (λ (x : ProblemEnvironmentSpec). x.worker_name) (remove_keeps pe))
        (ap (λ (x : ProblemEnvironmentSpec). x.topology_file) (remove_keeps pe)))
  Duty-Fixed pe before after write e s (keeps err_text m g f d c q) = rw (head_eq (sym e ∙ q)) (
      set-Fixed (now 0) pe condition_ready condition_false "DestroyFailed"
        "failed to destroy ProblemEnvironment" (ground arith) s)
  Duty-Fixed pe before after write e s (protects m l f c q) = rw (head_eq (sym e ∙ q)) (
      update-Fixed pe (finalizers.add pe) s
        (ap (λ (x : ProblemEnvironmentSpec). x.worker_name) (add_keeps pe))
        (ap (λ (x : ProblemEnvironmentSpec). x.topology_file) (add_keeps pe)))
  Duty-Fixed pe before after write e s (deploys containers m l f p i c q) =
      Refreshed-Fixed pe (marked_deployed k driver finalizers own_name elapsed now pe) containers
        before.writes write after.writes e s
        (ground (
          arith,
          m.0,
          status-set (now 0) pe condition_deployed condition_scheduled condition_true "Deployed"
              "ProblemEnvironment is deployed",
        ))
        (unfold set_problem_environment_condition in refl) q
  Duty-Fixed pe before after write e s (gives_up m l f p i c q) = rw (head_eq (sym e ∙ q)) (
      set-Fixed (now 0) pe condition_deployed condition_true "DeployFailed" "internal error"
        (ground arith) s)
  Duty-Fixed pe before after write e s (refreshes m l f p c q) =
      Refreshed-Fixed pe pe (driver.check pe before.cluster).0.1 before.writes write after.writes e
        s s.scheduled refl q

pub assign-Fixed :
    {C : Type 0} (k : Client C) (namespace name : String) (now : ℕ) (pe : ProblemEnvironment)
    (w : World C) (write : Write)
    → (k.get_problem_environment namespace name w.cluster).0 ≡ ok pe
    → (assign k namespace now name w).1.writes ≡ write ∷ w.writes
    → Settled pe
    → Fixed pe (stored write pe)
assign-Fixed k namespace name now pe w write got sent s =
    elim (assign-Available k namespace name now w pe got) [
      | inl (available, q) ↦ rw (head_eq (sym sent ∙ q)) (
          set-Fixed now pe condition_assigned condition_true "AdminUpdated"
            "assigned by admin forcibly" (ground arith) s)
      | inr (taken, q, why) ↦ absurd (cons-ne write w.writes (sym sent ∙ q))
    ]

pub unassigned-Fixed :
    {C : Type 0} (k : Client C) (namespace name : String) (now : ℕ) (pe : ProblemEnvironment)
    (w : World C) (write : Write)
    → (k.get_problem_environment namespace name w.cluster).0 ≡ ok pe
    → (unassign k namespace now name w).1.writes ≡ write ∷ w.writes
    → Settled pe
    → Fixed pe (stored write pe)
unassigned-Fixed k namespace name now pe w write got sent s =
    elim (unassign-Guarded k namespace name now w pe got) [
      | inl (taken, q) ↦ rw (head_eq (sym sent ∙ q)) (
          set-Fixed now pe condition_assigned condition_false "AdminUpdated"
            "assigned by admin forcibly" (ground arith) s)
      | inr (free, q) ↦ absurd (cons-ne write w.writes (sym sent ∙ q))
    ]
