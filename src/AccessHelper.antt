-- ===== src/AccessHelper.antt =====
-- cmd/access-helper: the command that a session on a worker runs, which asks for a node of the lab
-- and opens a shell on it. Stdin is the list of what the prompts read, one after another; the
-- sessions on nodes read for themselves. The ssh package, `docker exec` and shlex are parameters;
-- what is printed is the kind of the message.
pub mod Menu
pub mod Shells
pub mod Ssh
pub mod Nodes
pub mod Runs
mod Examples
use netcon_problem_managemen.Prelude.{
  ℕ, zero, suc, String, Bool, not, Option, none, some, List, [], ◌∷◌, ◌==◌, Result, ok, err,
  if◌then◌else◌,
}
use netcon_problem_managemen.Kube.{ApiError}
use netcon_problem_managemen.Host.{Host, H, pure, ◌>>=◌}
use netcon_problem_managemen.Clab.{
  Config, Codecs, ContainerLabClient, new_client, load_topology_file,
}
use netcon_problem_managemen.AccessHelper.Menu.{
  Input, panicked, endless, answered, ask_user_for_node,
}
use netcon_problem_managemen.AccessHelper.Shells.{Terminal}
use netcon_problem_managemen.AccessHelper.Nodes.{AccessOutcome, internal_error, panics, access_node}

module _ {C : Type 0} (h : Host C) (codecs : Codecs) (terminal : Terminal C) (is_admin : Bool) where
  -- The loop over the selections: `none` if `fuel` prompts are not enough, or one of them never ends.
  pub run_menu : ContainerLabClient → Config → ℕ → List Input → H C (Option (List AccessOutcome))
  run_menu client config zero inputs = pure none
  run_menu client config (suc fuel) inputs =
      let asked = ask_user_for_node config is_admin inputs in
      elim asked.0 [
        | panicked ↦ pure (some (panics ∷ []))
        | endless ↦ pure none
        | answered node_name ↦ if node_name == "" then pure (some []) else (do
          access ← access_node h codecs terminal client config node_name is_admin
          elim access as (λ _. H C (Option (List AccessOutcome))) [
            | panics ↦ pure (some (panics ∷ []))
            | seen ↦ do
              rest ← run_menu client config fuel asked.1
              pure (elim rest [ none ↦ none | some accesses ↦ some (seen ∷ accesses) ])
          ])
      ]

  pub run_args :
      ContainerLabClient → Config → ℕ → List String → List Input → H C (Option (List AccessOutcome))
  run_args client config fuel (node_name ∷ []) inputs = do
    access ← access_node h codecs terminal client config node_name is_admin
    pure (some (access ∷ []))
  run_args client config fuel _ inputs = run_menu client config fuel inputs

  -- `is_terminal` and `abs` are `term.IsTerminal` of stdin and `filepath.Abs`.
  pub run :
      Bool
      → (String → Result ApiError String)
      → String
      → ℕ
      → List String
      → List Input
      → H C (Option (List AccessOutcome))
  run is_terminal abs path fuel args inputs =
      if not is_terminal then pure (some (internal_error ∷ [])) else elim (abs path) [
        | err e ↦ pure (some (internal_error ∷ []))
        | ok topology_file_path ↦ do
          loaded ← load_topology_file h codecs (new_client topology_file_path)
          elim loaded [
            | err e ↦ pure (some (internal_error ∷ []))
            | ok config ↦ run_args (new_client topology_file_path) config fuel args inputs
          ]
      ]
