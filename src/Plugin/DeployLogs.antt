-- ===== src/Plugin/DeployLogs.antt =====
-- pkg/kubectl-netcon/cmd/problemenvironment.go: the command show-deploy-log. The list of the ConfigMaps
-- is a parameter, and what is printed is a text.
pub mod Prefixes
use text.Mathlib.Text.{starts_with}
use netcon_problem_managemen.Prelude.{
  String, Bool, not, Option, none, some, List, [], ◌∷◌, Result, ok, err, concat, if◌then◌else◌,
}
use netcon_problem_managemen.Kube.{ApiError, Client, M, pure, fetch, Call, ◌>>=◌}
use netcon_problem_managemen.Host.{ConfigMap}
use netcon_problem_managemen.Clab.{get_value}
use netcon_problem_managemen.DeployLog.{
  Formats, Colors, LogLevel, log_level_debug, log_level_info, parse, print,
}

-- The loop over the ConfigMaps, up to the text that is parsed.
pub select_log : String → List ConfigMap → Option String
select_log name [] = none
select_log name (config_map ∷ config_maps) =
    let next = select_log name config_maps in
    if not (starts_with config_map.name (concat "deploy-" name))
    then next
    else elim (get_value "stderr" config_map.content) [ none ↦ next | some stderr ↦ some stderr ]

module _ {C : Type 0} {T : Type 0} (k : Client C) (list_config_maps : Call C (List ConfigMap))
    (formats : Formats T) (colors : Colors) (namespace : String) where
  show_deploy_log : Bool → String → M C (Result ApiError String)
  show_deploy_log verbose name = do
    listed ← fetch list_config_maps
    elim listed [
      | err e ↦ pure (err e)
      | ok config_maps ↦ do
        got ← fetch (k.get_problem_environment namespace name)
        pure (elim got [
          | err e ↦ err e
          | ok pe ↦ elim (select_log pe.meta.name config_maps) [
            | none ↦ ok ""
            | some stderr ↦ ok (
                print formats colors (if verbose then log_level_debug else log_level_info)
                  (parse formats stderr))
          ]
        ])
    ]
