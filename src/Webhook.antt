-- ===== src/Webhook.antt =====
-- api/v1alpha1/problemenvironment_webhook.go and problem_webhook.go: what the API server's admission
-- asks. The warnings are always nil and are left out. `DeepEqual` of two specs' parts is a test on
-- each part; it tells a nil list of selectors from an empty one.
pub mod Immutable
mod Examples
use netcon_problem_managemen.Prelude.{
  String, Bool, true, false, not, ◌&&◌, Option, none, some, List, [], ◌∷◌, ◌==◌, Result, ok, err,
  if◌then◌else◌,
}
use netcon_problem_managemen.Api.{FileSource, LabelSelector, Problem, ProblemEnvironment}

-- reflect.DeepEqual of two file sources.
pub same_file : FileSource → FileSource → Bool
same_file a b =
    (a.config_map_ref.key == b.config_map_ref.key)
    && (a.config_map_ref.name == b.config_map_ref.name)

pub same_list : List LabelSelector → List LabelSelector → Bool
same_list [] [] = true
same_list [] (y ∷ ys) = false
same_list (x ∷ xs) [] = false
same_list (x ∷ xs) (y ∷ ys) = (x == y) && same_list xs ys

-- reflect.DeepEqual of two slices of selectors.
pub same_selectors : Option (List LabelSelector) → Option (List LabelSelector) → Bool
unfolding same_list
same_selectors none none = true
same_selectors none (some ys) = false
same_selectors (some xs) none = false
same_selectors (some xs) (some ys) = same_list xs ys

pub validate_update : ProblemEnvironment → ProblemEnvironment → Result String (Unit {0})
validate_update old new =
    if not (old.spec.worker_name == "") && not (new.spec.worker_name == old.spec.worker_name)
    then err ".spec.workerName: workerName can't be updated after scheduling"
    else if not (same_file new.spec.topology_file old.spec.topology_file)
    then err ".spec.containerLabManifest: containerLabManifest can't be updated"
    else if not (same_selectors new.spec.worker_selectors old.spec.worker_selectors)
    then err ".spec.workerSelectors: workerSelectors can't be updated"
    else ok tt

validate_create : ProblemEnvironment → Result String (Unit {0})
validate_create new = ok tt

validate_delete : ProblemEnvironment → Result String (Unit {0})
validate_delete old = ok tt
