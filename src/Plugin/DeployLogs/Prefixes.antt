-- ===== src/Plugin/DeployLogs/Prefixes.antt =====
-- Which log the command shows, against the logs that the driver records.
use text.Mathlib.Text.{starts_with}
use text.Mathlib.TextLemmas.{append_assoc}
use text.Mathlib.TextPositions.{starts_with-append}
use netcon_problem_managemen.Prelude.{
  String, ◌≡◌, ◌⊎◌, inl, inr, false, none, All, ◌++◌, arith, refl, ap, sym, ◌∙◌, some, List, [],
  ◌∷◌, concat,
}
use netcon_problem_managemen.Api.{ProblemEnvironment, OwnerReference}
use netcon_problem_managemen.Host.{Output, ConfigMap}
use netcon_problem_managemen.Clab.{get_value}
use netcon_problem_managemen.Nclet.Drivers.Containerlab.{Times, deploy_log}
use netcon_problem_managemen.Plugin.DeployLogs.{select_log}

-- A ConfigMap that the loop passes over: its name does not start so, or it has no standard error.
abbrev pub Passed : String → ConfigMap → Type 0
Passed name config_map =
    (starts_with config_map.name (concat "deploy-" name) ≡ false)
    ⊎ (get_value "stderr" config_map.content ≡ none)

select_log-Passed :
    (name : String) (before others : List ConfigMap)
    → All (Passed name) before
    → select_log name (before ++ others) ≡ select_log name others
unfolding select_log
select_log-Passed name [] others passed = refl
select_log-Passed name (config_map ∷ before) others (inl other_name, passed) =
    ground (arith, select_log-Passed name before others passed)
select_log-Passed name (config_map ∷ before) others (inr empty, passed) =
    ground (arith, select_log-Passed name before others passed)

recorded_shown :
    (name suffix : String) (times : Times) (owner : ProblemEnvironment → OwnerReference)
    (pe : ProblemEnvironment) (output : Output) (others : List ConfigMap)
    → pe.meta.name ≡ concat name suffix
    → select_log name (deploy_log times owner pe output ∷ others) ≡ some output.stderr
unfolding select_log get_value deploy_log
recorded_shown name suffix times owner pe output others longer =
    let rest : String = concat suffix (concat "-" times.started_unix) in
    let named : concat "deploy-" (concat pe.meta.name (concat "-" times.started_unix))
        ≡ concat (concat "deploy-" name) rest =
      ap (λ n. concat "deploy-" (concat n (concat "-" times.started_unix))) longer
      ∙ ap (concat "deploy-") (append_assoc name suffix (concat "-" times.started_unix))
      ∙ sym (append_assoc "deploy-" name rest) in
    rw named (rw (starts_with-append (concat "deploy-" name) rest) refl)

-- For an environment, the command shows the first log in the list that the driver recorded for an
-- environment whose name starts with its name, its own or another: whatever ConfigMaps stand before
-- it that are named otherwise or have no standard error, and whatever stands after it.
pub select_log-starts :
    (name suffix : String) (times : Times) (owner : ProblemEnvironment → OwnerReference)
    (pe : ProblemEnvironment) (output : Output) (before others : List ConfigMap)
    → pe.meta.name ≡ concat name suffix
    → All (Passed name) before
    → select_log name (before ++ deploy_log times owner pe output ∷ others) ≡ some output.stderr
select_log-starts name suffix times owner pe output before others longer passed =
    select_log-Passed name before (deploy_log times owner pe output ∷ others) passed
    ∙ recorded_shown name suffix times owner pe output others longer
