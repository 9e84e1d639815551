-- ===== src/AccessHelper/Nodes.antt =====
-- cmd/access-helper/main.go, `accessNode`, and the helpers that helper.go registers.
pub mod Permitted
use netcon_problem_managemen.Prelude.{
  String, Bool, not, ◌&&◌, Option, none, some, List, [], ◌∷◌, ◌==◌, Result, ok, err, concat,
  if◌then◌else◌,
}
use netcon_problem_managemen.Kube.{ApiError}
use netcon_problem_managemen.Host.{Host, H, pure, ◌>>=◌}
use netcon_problem_managemen.Clab.{
  NodeDefinition, Config, Codecs, ContainerLabClient, ContainerDetails, get_value, inspect,
}
use netcon_problem_managemen.AccessHelper.Menu.{admin_only}
use netcon_problem_managemen.AccessHelper.Shells.{Terminal, access_ssh, access_exec}

-- What comes of an access: `accessed` after a session without an error, `access_failed` where
-- accessNode answers with an error.
pub data AccessOutcome : Type 0 where
  no_such_node internal_error accessed panics : AccessOutcome
  access_failed : ApiError → AccessOutcome

-- `config.Topology.Nodes[name]`
unfoldable pub find_node : String → List (String × Option NodeDefinition) → Option NodeDefinition
find_node name [] = none
find_node name ((other, node) ∷ nodes) = if name == other then node else find_node name nodes

pub container_prefix : Config → String
container_prefix config = elim config.prefix [
  | none ↦ concat "clab-" (concat config.name "-")
  | some prefix ↦ if not (prefix == "") then concat prefix (concat config.name "-") else ""
]

pub find_container : String → List ContainerDetails → Option ContainerDetails
find_container name [] = none
find_container name (container ∷ containers) =
    if container.name == name then some container else find_container name containers

pub outcome : Result ApiError (Unit {0}) → AccessOutcome
outcome (ok _) = accessed
outcome (err e) = access_failed e

module _ {C : Type 0} (h : Host C) (codecs : Codecs) (terminal : Terminal C) where
  -- The session on a node of the topology that runs in a container.
  pub access_container : NodeDefinition → ContainerDetails → Bool → H C AccessOutcome
  access_container node details is_admin =
      let access_method : String = elim (get_value "netcon.janog.gr.jp/accessMethod" node.labels) [
        | none ↦ "ssh"
        | some v ↦ v
      ] in
      if access_method == "ssh"
      then (do
        done ← access_ssh terminal node details is_admin
        pure (elim done [ none ↦ panics | some result ↦ outcome result ]))
      else if access_method == "exec"
      then (do done ← access_exec terminal node details is_admin; pure (outcome done))
      else pure internal_error

  unfoldable pub access_node : ContainerLabClient → Config → String → Bool → H C AccessOutcome
  access_node client config node_name is_admin = elim (find_node node_name config.topology.nodes) [
    | none ↦ pure no_such_node
    | some node ↦ if admin_only node && not is_admin then pure no_such_node else (do
      inspected ← inspect h codecs client
      elim inspected [
        | err e ↦ pure internal_error
        | ok containers ↦
            elim (find_container (concat (container_prefix config) node_name) containers) [
              | none ↦ pure internal_error
              | some details ↦ access_container node details is_admin
            ]
      ])
  ]
