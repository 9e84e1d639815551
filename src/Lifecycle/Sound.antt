-- ===== src/Lifecycle/Sound.antt =====
-- What holds of an environment from its creation on.
use netcon_problem_managemen.Prelude.{
  [], ℕ, String, ◌≡◌, ◌≢◌, sym, ◌∙◌, inl, inr, List, ◌∷◌, arith, Bool-cases,
}
use netcon_problem_managemen.Api.{
  ProblemEnvironment, condition_scheduled, condition_ready, condition_assigned, condition_true,
  condition_false,
}
use netcon_problem_managemen.Condition.{
  get_condition, is_true, get_problem_environment_condition, set_problem_environment_condition,
}
use netcon_problem_managemen.Condition.Laws.{status-set, is_true_iff}
use netcon_problem_managemen.Kube.{
  Client, World, Write, update_environment, update_environment_status,
}
use netcon_problem_managemen.ControllerManager.Environments.{
  Scheduler, Readings, confirmed, reconcile_environment,
}
use netcon_problem_managemen.ControllerManager.Environments.Branches.{
  Reaction, silent, names_worker, postpones, confirms, reports, reconcile_environment-Reaction,
  confirmed-scheduled,
}
use netcon_problem_managemen.Nclet.Environments.{Driver, Finalizers, reconcile_instance}
use netcon_problem_managemen.Nclet.Environments.Duties.{
  Duty, idle, releases, keeps, protects, deploys, gives_up, refreshes, reconcile_instance-Duty,
}
use netcon_problem_managemen.Gateway.Selection.{is_available_iff}
use netcon_problem_managemen.Plugin.Guards.{assign-Available, unassign-Guarded}
use netcon_problem_managemen.Lifecycle.{
  stored, controlled, served, acquired, commanded, unassigned, edited, at_once, then_step, Step,
  Reachable,
}
use netcon_problem_managemen.Lifecycle.Fixed.{Settled, cons-ne, head_eq}
use netcon_problem_managemen.Lifecycle.Settled.{step-Fixed}

-- Only a scheduled environment is ready or assigned, and a scheduled one names its worker.
pub record Sound (pe : ProblemEnvironment) : Type 0 where
  pub ready :
      get_problem_environment_condition pe condition_ready ≡ condition_true
      → get_problem_environment_condition pe condition_scheduled ≡ condition_true
  pub assigned :
      get_problem_environment_condition pe condition_assigned ≡ condition_true
      → get_problem_environment_condition pe condition_scheduled ≡ condition_true
  pub named :
      get_problem_environment_condition pe condition_scheduled ≡ condition_true
      → pe.spec.worker_name ≢ ""

Settled-Sound : (pe : ProblemEnvironment) → Settled pe → Sound pe
Settled-Sound pe s = record {
  ready = λ e. s.scheduled;
  assigned = λ e. s.scheduled;
  named = λ e. s.named;
}

unknown_at_first :
    (pe : ProblemEnvironment) (type : String)
    → pe.status.conditions ≡ []
    → get_problem_environment_condition pe type ≢ condition_true
unfolding get_problem_environment_condition get_condition
unknown_at_first pe type created e = ground (arith, created, e)

created-Sound : (pe : ProblemEnvironment) → pe.status.conditions ≡ [] → Sound pe
created-Sound pe created = record {
  ready = λ e. absurd (unknown_at_first pe condition_ready created e);
  assigned = λ e. absurd (unknown_at_first pe condition_assigned created e);
  named = λ e. absurd (unknown_at_first pe condition_scheduled created e);
}

module _ (pe : ProblemEnvironment) (sound : Sound pe)
    (pending : get_problem_environment_condition pe condition_scheduled ≢ condition_true) where
  update-Sound : (new : ProblemEnvironment) → Sound (stored (update_environment new) pe)
  unfolding stored get_problem_environment_condition
  update-Sound new = record {
    ready = λ e. absurd (pending (sound.ready e));
    assigned = λ e. absurd (pending (sound.assigned e));
    named = λ e. absurd (pending e);
  }

  postpone-Sound :
      (now : ℕ) (reason message : String)
      → Sound (
          stored
            (update_environment_status (
              set_problem_environment_condition now pe condition_scheduled condition_false reason
                message))
            pe)
  postpone-Sound now reason message =
      let set = status-set now pe condition_scheduled in
      record {
        ready = λ e. absurd (
            pending (
              sound.ready (
                sym (set condition_ready condition_false reason message)
                ∙ (unfold stored get_problem_environment_condition in e))));
        assigned = λ e. absurd (
            pending (
              sound.assigned (
                sym (set condition_assigned condition_false reason message)
                ∙ (unfold stored get_problem_environment_condition in e))));
        named = λ e.
            let off : condition_false ≡ condition_true =
              sym (set condition_scheduled condition_false reason message)
              ∙ (unfold stored get_problem_environment_condition in e) in
            absurd (ground (arith, off));
      }

  confirm-Sound :
      (new : ProblemEnvironment)
      → pe.spec.worker_name ≢ ""
      → get_problem_environment_condition new condition_scheduled ≡ condition_true
      → Sound (stored (update_environment_status new) pe)
  unfolding stored get_problem_environment_condition
  confirm-Sound new named scheduled = record {
    ready = λ e. scheduled;
    assigned = λ e. scheduled;
    named = λ e. named;
  }

  module _ {C F : Type 0} (k : Client C) (scheduler : Scheduler F) (driver : Driver C)
      (finalizers : Finalizers) where
    Reaction-Sound :
        (readings : Readings F) (ws after : List Write) (write : Write)
        → after ≡ write ∷ ws
        → Reaction k scheduler readings pe ws after
        → Sound (stored write pe)
    Reaction-Sound readings ws after write e (silent q) = absurd (cons-ne write ws (sym e ∙ q))
    Reaction-Sound readings ws after write e (names_worker worker a b c d q) =
        rw (head_eq (sym e ∙ q))
          (update-Sound (record pe { spec = record pe.spec { worker_name = worker } }))
    Reaction-Sound readings ws after write e (postpones reason message a b q) =
        rw (head_eq (sym e ∙ q)) (postpone-Sound (readings.now 0) reason message)
    Reaction-Sound readings ws after write e (confirms password a b c d q) =
        rw (head_eq (sym e ∙ q)) (
          confirm-Sound (confirmed k scheduler readings pe password) a
            (confirmed-scheduled k scheduler readings pe password))
    Reaction-Sound readings ws after write e (reports status reason message a b q) =
        absurd (pending b)

    Duty-Sound :
        (own_name elapsed : String) (now : ℕ → ℕ) (before after : World C) (write : Write)
        → after.writes ≡ write ∷ before.writes
        → Duty k driver finalizers own_name elapsed now pe before after
        → Sound (stored write pe)
    Duty-Sound own_name elapsed now before after write e (idle why q c) =
        absurd (cons-ne write before.writes (sym e ∙ q))
    Duty-Sound own_name elapsed now before after write e (releases m g f d c q) =
        absurd (pending m.0)
    Duty-Sound own_name elapsed now before after write e (keeps t m g f d c q) =
        absurd (pending m.0)
    Duty-Sound own_name elapsed now before after write e (protects m l f c q) = absurd (pending m.0)
    Duty-Sound own_name elapsed now before after write e (deploys cs m l f p i c q) =
        absurd (pending m.0)
    Duty-Sound own_name elapsed now before after write e (gives_up m l f p i c q) =
        absurd (pending m.0)
    Duty-Sound own_name elapsed now before after write e (refreshes m l f p c q) =
        absurd (pending m.0)

    pending-Sound :
        (pe' : ProblemEnvironment) → Step k scheduler driver finalizers pe pe' → Sound pe'
    pending-Sound pe' (controlled readings w {write} e) =
        Reaction-Sound readings w.writes (reconcile_environment k scheduler readings pe w).1.writes
          write e (reconcile_environment-Reaction k scheduler readings pe w)
    pending-Sound pe' (served own_name elapsed now w {write} e) =
        Duty-Sound own_name elapsed now w
          (reconcile_instance k driver finalizers own_name elapsed now pe w).1 write e
          (reconcile_instance-Duty k driver finalizers own_name elapsed now pe w)
    pending-Sound pe' (acquired now available) =
        absurd (pending (sound.ready ((is_available_iff pe).0 available).ready))
    pending-Sound pe' (commanded namespace name now w {write} got e) =
        elim (assign-Available k namespace name now w pe got) [
          | inl (available, q) ↦ absurd (pending (sound.ready available.ready))
          | inr (taken, q, why) ↦ absurd (cons-ne write w.writes (sym e ∙ q))
        ]
    pending-Sound pe' (unassigned namespace name now w {write} got e) =
        elim (unassign-Guarded k namespace name now w pe got) [
          | inl (taken, q) ↦ absurd (pending (sound.assigned taken))
          | inr (free, q) ↦ absurd (cons-ne write w.writes (sym e ∙ q))
        ]
    pending-Sound pe' (edited new accepted) = update-Sound new

module _ {C F : Type 0} (k : Client C) (scheduler : Scheduler F) (driver : Driver C)
    (finalizers : Finalizers)
    (add_keeps : (pe : ProblemEnvironment) → (finalizers.add pe).spec ≡ pe.spec)
    (remove_keeps : (pe : ProblemEnvironment) → (finalizers.remove pe).spec ≡ pe.spec) where
  step-Sound :
      (pe pe' : ProblemEnvironment)
      → Sound pe
      → Step k scheduler driver finalizers pe pe'
      → Sound pe'
  step-Sound pe pe' sound step =
      let iff = is_true_iff (get_problem_environment_condition pe condition_scheduled) in
      elim (Bool-cases (is_true (get_problem_environment_condition pe condition_scheduled))) [
        | inl on ↦
            let settled : Settled pe = record {
              scheduled = iff.0 on;
              named = sound.named (iff.0 on);
            } in
            Settled-Sound pe'
              (step-Fixed k scheduler driver finalizers add_keeps remove_keeps pe pe' settled
                step).settled
        | inr off ↦
            pending-Sound pe sound (λ e. cc (off, iff.1 e)) k scheduler driver finalizers pe' step
      ]

  -- Whatever the controller manager, nclet, the gateway, the plugin and the users write: an environment
  -- that starts with no condition is ready or assigned only while it is scheduled, and names its worker
  -- while it is scheduled, provided the finalizer functions leave its specification alone.
  pub Reachable-Sound :
      {pe pe' : ProblemEnvironment}
      → pe.status.conditions ≡ []
      → Reachable k scheduler driver finalizers pe pe'
      → Sound pe'
  Reachable-Sound {pe} created at_once = created-Sound pe created
  Reachable-Sound {pe} created (then_step {old} {new} rs step) =
      step-Sound old new (Reachable-Sound created rs) step
