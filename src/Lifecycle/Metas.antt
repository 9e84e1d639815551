-- ===== src/Lifecycle/Metas.antt =====
-- What the writes of each actor do to the metadata of an environment.
use netcon_problem_managemen.Prelude.{
  ℕ, String, ◌≡◌, ◌≢◌, refl, sym, ◌∙◌, inl, inr, ◌⊎◌, Option, none, false, List, ◌∷◌, ok,
}
use netcon_problem_managemen.Api.{ContainerStatus, ProblemEnvironment}
use netcon_problem_managemen.Kube.{Client, World, Write, update_environment}
use netcon_problem_managemen.ControllerManager.Environments.{Scheduler, Readings}
use netcon_problem_managemen.ControllerManager.Environments.Branches.{
  Reaction, silent, names_worker, postpones, confirms, reports,
}
use netcon_problem_managemen.Nclet.Environments.{Driver, Finalizers}
use netcon_problem_managemen.Nclet.Environments.Refresh.{Refreshed}
use netcon_problem_managemen.Nclet.Environments.Duties.{
  Duty, idle, releases, keeps, protects, deploys, gives_up, refreshes, Mine,
}
use netcon_problem_managemen.Plugin.{assign, unassign}
use netcon_problem_managemen.Plugin.Guards.{assign-Available, unassign-Guarded}
use netcon_problem_managemen.Lifecycle.{stored}
use netcon_problem_managemen.Lifecycle.Fixed.{cons-ne, head_eq}

module _ (pe : ProblemEnvironment) {ws : List Write} {write : Write} {after : List Write}
    (e : after ≡ write ∷ ws) where
  pub Reaction-meta :
      {C F : Type 0} {k : Client C} {scheduler : Scheduler F} {readings : Readings F}
      → Reaction k scheduler readings pe ws after
      → (stored write pe).meta ≡ pe.meta
  unfolding stored
  Reaction-meta (silent q) = absurd (cons-ne write ws (sym e ∙ q))
  Reaction-meta (names_worker worker a b c d q) = rw (head_eq (sym e ∙ q)) refl
  Reaction-meta (postpones reason message a b q) = rw (head_eq (sym e ∙ q)) refl
  Reaction-meta (confirms password a b c d q) = rw (head_eq (sym e ∙ q)) refl
  Reaction-meta (reports status reason message a b q) = rw (head_eq (sym e ∙ q)) refl

  Refreshed-meta :
      (new : ProblemEnvironment) (containers : Option (List ContainerStatus))
      → Refreshed new containers ws after
      → (stored write pe).meta ≡ pe.meta
  unfolding stored
  Refreshed-meta new containers (inl (same, q)) = absurd (cons-ne write ws (sym e ∙ q))
  Refreshed-meta new containers (inr (differ, q)) = rw (head_eq (sym e ∙ q)) refl

module _ {C : Type 0} (k : Client C) (driver : Driver C) (finalizers : Finalizers)
    (own_name elapsed : String) (now : ℕ → ℕ) (pe : ProblemEnvironment) (before after : World C)
    {write : Write} (e : after.writes ≡ write ∷ before.writes) where
  -- What nclet writes leaves the metadata alone, or adds the finalizer to an environment without it, or
  -- removes it from one whose instance the driver has just destroyed.
  pub Duty-meta :
      Duty k driver finalizers own_name elapsed now pe before after
      → ((stored write pe).meta ≡ pe.meta)
        ⊎ (((finalizers.contains pe ≡ false) × (write ≡ update_environment (finalizers.add pe)))
            ⊎ ((pe.meta.deletion_timestamp ≢ none)
                × (write ≡ update_environment (finalizers.remove pe))))
  unfolding stored
  Duty-meta (idle why q c) = absurd (cons-ne write before.writes (sym e ∙ q))
  Duty-meta (releases m g f d c q) = inr (inr (g, head_eq (sym e ∙ q)))
  Duty-meta (keeps err_text m g f d c q) = inl (rw (head_eq (sym e ∙ q)) refl)
  Duty-meta (protects m l f c q) = inr (inl (f, head_eq (sym e ∙ q)))
  Duty-meta (deploys containers m l f p i c q) = inl (Refreshed-meta pe e _ containers q)
  Duty-meta (gives_up m l f p i c q) = inl (rw (head_eq (sym e ∙ q)) refl)
  Duty-meta (refreshes m l f p c q) = inl (Refreshed-meta pe e _ _ q)

  -- Nclet writes nothing of an environment of another worker.
  pub Duty-Mine :
      Duty k driver finalizers own_name elapsed now pe before after
      → Mine k driver finalizers own_name elapsed now pe
  Duty-Mine (idle why q c) = absurd (cons-ne write before.writes (sym e ∙ q))
  Duty-Mine (releases m g f d c q) = m
  Duty-Mine (keeps err_text m g f d c q) = m
  Duty-Mine (protects m l f c q) = m
  Duty-Mine (deploys containers m l f p i c q) = m
  Duty-Mine (gives_up m l f p i c q) = m
  Duty-Mine (refreshes m l f p c q) = m

module _ {C : Type 0} (k : Client C) (namespace name : String) (now : ℕ) (pe : ProblemEnvironment)
    (w : World C) {write : Write}
    (got : (k.get_problem_environment namespace name w.cluster).0 ≡ ok pe) where
  pub assign-meta :
      (assign k namespace now name w).1.writes ≡ write ∷ w.writes → (stored write pe).meta ≡ pe.meta
  unfolding stored
  assign-meta sent = elim (assign-Available k namespace name now w pe got) [
    | inl (available, q) ↦ rw (head_eq (sym sent ∙ q)) refl
    | inr (taken, q, why) ↦ absurd (cons-ne write w.writes (sym sent ∙ q))
  ]

  pub unassign-meta :
      (unassign k namespace now name w).1.writes ≡ write ∷ w.writes
      → (stored write pe).meta ≡ pe.meta
  unfolding stored
  unassign-meta sent = elim (unassign-Guarded k namespace name now w pe got) [
    | inl (taken, q) ↦ rw (head_eq (sym sent ∙ q)) refl
    | inr (free, q) ↦ absurd (cons-ne write w.writes (sym sent ∙ q))
  ]
