-- ===== src/Samples/Nclet.antt =====
-- The finalizer functions on a list of names, and a driver that only makes and removes a directory.
use netcon_problem_managemen.Prelude.{
  Bool-cases, inl, inr, ◌≡◌, ap, eq_iff, arith, refl, true, false, none, String, Bool, List, [],
  ◌∷◌, ◌==◌, filter_by, not, if◌then◌else◌,
}
use netcon_problem_managemen.Api.{
  ObjectMeta, ProblemEnvironment, condition_scheduled, condition_deployed, condition_true,
  condition_false,
}
use netcon_problem_managemen.Nclet.Environments.Origins.{Untouched}
use netcon_problem_managemen.Lifecycle.Machine.{FinalizerLaws}
use netcon_problem_managemen.Nclet.Environments.{
  Driver, Finalizers, status_init, problem_environment_finalizer, status_deployed,
}
use netcon_problem_managemen.Samples.{environment, condition}
use netcon_problem_managemen.Nclet.Environments.Instances.{Instances}
use netcon_problem_managemen.Samples.Machine.{Site, site_server, machine, machine-FileLaws, there}

abbrev has_finalizer : List String → Bool
has_finalizer [] = false
has_finalizer (f ∷ fs) = if f == problem_environment_finalizer then true else has_finalizer fs

abbrev pub listed : Finalizers
listed = record {
  contains = λ pe. has_finalizer pe.meta.finalizers;
  add = λ pe. record pe {
    meta = record pe.meta { finalizers = problem_environment_finalizer ∷ pe.meta.finalizers };
  };
  remove = λ pe. record pe {
    meta = record pe.meta {
      finalizers = filter_by (λ f. not (f == problem_environment_finalizer)) pe.meta.finalizers;
    };
  };
}

abbrev pub undeployed : ProblemEnvironment
undeployed = listed.add (
    environment "env" "w1" (
      condition condition_scheduled condition_true
      ∷ condition condition_deployed condition_false
      ∷ []))

-- A driver that only makes and removes a directory of the environment's name.
abbrev pub tiny : Driver Site
tiny = record {
  check = λ pe c. ((if there pe.meta.name c then status_deployed else status_init, none), c);
  deploy = λ pe c. machine.mkdir_all pe.meta.name c;
  destroy = λ pe c. machine.remove_all pe.meta.name c;
}

pub tiny-Instances : Instances tiny there
tiny-Instances = record {
  checked = λ pe c. ground arith;
  check_same = λ pe c. refl;
  deployed = λ pe c. machine-FileLaws.made pe.meta.name c;
  deploy_keeps = λ pe. machine-FileLaws.mkdir_all pe.meta.name pe.meta.name;
  destroyed = λ pe c. machine-FileLaws.removed pe.meta.name c;
}

filtered :
    (names : List String)
    → has_finalizer (filter_by (λ f. not (f == problem_environment_finalizer)) names) ≡ false
filtered [] = refl
filtered (f ∷ fs) = elim (Bool-cases (f == problem_environment_finalizer)) [
  | inl same ↦ ground (arith, filtered fs)
  | inr other ↦ ground (arith, filtered fs)
]

pub listed-FinalizerLaws : FinalizerLaws listed
listed-FinalizerLaws = record {
  contains_meta = λ pe other same. ap (λ (m : ObjectMeta). has_finalizer m.finalizers) same;
  contains_add =
      λ pe. ground (arith, eq_iff problem_environment_finalizer problem_environment_finalizer);
  contains_remove = λ pe. filtered pe.meta.finalizers;
  remove_deletion = λ pe. refl;
  add_name = λ pe. refl;
  remove_name = λ pe. refl;
  add_spec = λ pe. refl;
  remove_spec = λ pe. refl;
}

pub site_server-Untouched : Untouched site_server there
site_server-Untouched = record { update = λ name pe c. refl; update_status = λ name pe c. refl }
