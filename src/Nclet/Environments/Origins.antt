-- ===== src/Nclet/Environments/Origins.antt =====
-- Which environments a reconcile of nclet makes an instance of.
use netcon_problem_managemen.Prelude.{
  ◌≢◌, none, ℕ, String, Bool, ◌≡◌, sym, ◌∙◌, inl, inr, ◌⊎◌, true, false, ◌==◌, eq_iff, arith,
  Bool-cases, Option-cases,
}
use netcon_problem_managemen.Api.{ProblemEnvironment, condition_scheduled}
use netcon_problem_managemen.Condition.{is_true, get_problem_environment_condition}
use netcon_problem_managemen.Condition.Laws.{is_true_iff}
use netcon_problem_managemen.Kube.{Client, World}
use netcon_problem_managemen.Nclet.Environments.{Driver, Finalizers, reconcile_instance, update}
use netcon_problem_managemen.Nclet.Environments.Duties.{Mine}

-- A request of nclet about an environment does not touch the instances of the machine.
pub record Untouched {C : Type 0} (k : Client C) (alive : String → C → Bool) : Type 0 where
  pub update :
      (name : String) (pe : ProblemEnvironment) (c : C)
      → alive name (k.update_problem_environment pe c).1 ≡ alive name c
  pub update_status :
      (name : String) (pe : ProblemEnvironment) (c : C)
      → alive name (k.update_problem_environment_status pe c).1 ≡ alive name c

module _ {C : Type 0} (k : Client C) (driver : Driver C) (finalizers : Finalizers)
    (own_name elapsed : String) (now : ℕ → ℕ) (alive : String → C → Bool)
    (untouched : Untouched k alive) (pe : ProblemEnvironment) (w : World C) where
  unguarded_same :
      (finalizers.contains pe ≡ false)
      → alive pe.meta.name
          (reconcile_instance k driver finalizers own_name elapsed now pe w).1.cluster
        ≡ alive pe.meta.name w.cluster
  unfolding reconcile_instance update
  unguarded_same out =
      let kept = untouched.update pe.meta.name (finalizers.add pe) w.cluster in
      elim (Bool-cases (is_true (get_problem_environment_condition pe condition_scheduled))) [
        | inr off ↦ ground arith
        | inl on ↦ elim (Bool-cases (pe.spec.worker_name == own_name)) [
          | inr other ↦ ground arith
          | inl named ↦ elim (Option-cases pe.meta.deletion_timestamp) [
            | inr (t, gone) ↦ ground arith
            | inl live ↦ ground (arith, kept)
          ]
        ]
      ]

  other_same :
      (is_true (get_problem_environment_condition pe condition_scheduled) ≡ false)
        ⊎ ((pe.spec.worker_name == own_name) ≡ false)
      → (reconcile_instance k driver finalizers own_name elapsed now pe w).1 ≡ w
  unfolding reconcile_instance
  other_same (inl off) = ground arith
  other_same (inr other) =
      elim (Bool-cases (is_true (get_problem_environment_condition pe condition_scheduled))) [
        | inr off ↦ ground arith
        | inl on ↦ ground arith
      ]

  owned :
      is_true (get_problem_environment_condition pe condition_scheduled) ≡ true
      → (pe.spec.worker_name == own_name) ≡ true
      → Mine k driver finalizers own_name elapsed now pe
  owned on named = (
    (is_true_iff (get_problem_environment_condition pe condition_scheduled)).0 on,
    (eq_iff pe.spec.worker_name own_name).0 named,
  )

  -- An instance is only made of an environment of this worker with the finalizer on it.
  pub alive_before_or_guarded :
      alive pe.meta.name
          (reconcile_instance k driver finalizers own_name elapsed now pe w).1.cluster
        ≡ true
      → (alive pe.meta.name w.cluster ≡ true)
        ⊎ ((finalizers.contains pe ≡ true) × Mine k driver finalizers own_name elapsed now pe)
  alive_before_or_guarded at = elim (Bool-cases (finalizers.contains pe)) [
    | inr out ↦ inl (sym (unguarded_same out) ∙ at)
    | inl contained ↦
        elim (Bool-cases (is_true (get_problem_environment_condition pe condition_scheduled))) [
          | inr off ↦ inl (ground (arith, at, other_same (inl off)))
          | inl on ↦ elim (Bool-cases (pe.spec.worker_name == own_name)) [
            | inr other ↦ inl (ground (arith, at, other_same (inr other)))
            | inl named ↦ inr (contained, owned on named)
          ]
        ]
  ]

  -- Of an environment that is being deleted and has no finalizer, nothing is done.
  pub gone_same :
      finalizers.contains pe ≡ false
      → pe.meta.deletion_timestamp ≢ none
      → (reconcile_instance k driver finalizers own_name elapsed now pe w).1 ≡ w
  unfolding reconcile_instance
  gone_same out gone =
      elim (Bool-cases (is_true (get_problem_environment_condition pe condition_scheduled))) [
        | inr off ↦ ground arith
        | inl on ↦ elim (Bool-cases (pe.spec.worker_name == own_name)) [
          | inr other ↦ ground arith
          | inl named ↦ elim (Option-cases pe.meta.deletion_timestamp) [
            | inr (t, deleted) ↦ ground arith
            | inl live ↦ absurd (gone live)
          ]
        ]
      ]
