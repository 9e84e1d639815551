-- ===== src/Clab.antt =====
-- pkg/containerlab: the topology file, and the client that runs the command `clab`. Of a topology, the
-- parts that the program neither reads nor writes are texts that determine them. A nil pointer is
-- `none`. The YAML and JSON codecs are parameters.
pub mod Paths
use netcon_problem_managemen.Prelude.{
  ◌==◌, if◌then◌else◌, String, Option, none, some, List, [], ◌∷◌, ◌++◌, Result, ok, err,
}
use netcon_problem_managemen.Api.{Labels, ProblemEnvironment}
use netcon_problem_managemen.Kube.{ApiError}
use netcon_problem_managemen.Host.{Host, H, Output, pure, ◌>>=◌}
use netcon_problem_managemen.Strings.FilePath.{path_join, dir, base}

pub record MgmtNet : Type 0 where
  pub network : String
  pub other : String

pub record NodeDefinition : Type 0 where
  pub startup_config : String
  pub binds : List String
  pub labels : Labels
  pub other : String

pub record Topology : Type 0 where
  pub nodes : List (String × Option NodeDefinition)
  pub other : String

pub record Config : Type 0 where
  pub name : String
  pub prefix : Option String
  pub mgmt : Option MgmtNet
  pub topology : Topology

pub record ContainerDetails : Type 0 where
  pub lab_name : String
  pub lab_path : String
  pub name : String
  pub container_id : String
  pub image : String
  pub kind : String
  pub state : String
  pub ipv4_address : String
  pub ipv6_address : String

-- `yaml.Unmarshal` and `yaml.Marshal` of a Config, `json.Unmarshal` of what `clab inspect` prints.
pub record Codecs : Type 0 where
  pub unmarshal : String → Result ApiError Config
  pub marshal : Config → Result ApiError String
  pub containers : String → Result ApiError (List (String × List ContainerDetails))

pub record ContainerLabClient : Type 0 where
  pub working_directory_path : String
  pub topology_file_name : String

unfoldable pub new_client : String → ContainerLabClient
new_client topology_file_path = record {
  working_directory_path = dir topology_file_path;
  topology_file_name = base topology_file_path;
}

unfoldable pub new_client_for : ProblemEnvironment → ContainerLabClient
new_client_for pe = new_client (path_join ("data" ∷ pe.meta.name ∷ "manifest.yml" ∷ []))

pub topology_file_path : ContainerLabClient → String
topology_file_path client =
    path_join (client.working_directory_path ∷ client.topology_file_name ∷ [])

-- `value, ok := m[key]`
unfoldable pub get_value : String → Labels → Option String
get_value key [] = none
get_value key ((k, v) ∷ labels) = if k == key then some v else get_value key labels

-- The containers of all labs, in the order of the map.
pub all_containers : List (String × List ContainerDetails) → List ContainerDetails
all_containers [] = []
all_containers ((lab, containers) ∷ labs) = containers ++ all_containers labs

module _ {C : Type 0} (h : Host C) (codecs : Codecs) (client : ContainerLabClient) where
  pub load_topology_file : H C (Result ApiError Config)
  load_topology_file = do
    got ← h.read_file (topology_file_path client)
    pure (elim got [ err e ↦ err e | ok text ↦ codecs.unmarshal text ])

  deploy : H C (Result ApiError (Unit {0}))
  deploy = do
    output ←
        h.run client.working_directory_path "clab"
          ("--log-level" ∷ "debug" ∷ "-t" ∷ client.topology_file_name ∷ "deploy" ∷ [])
    pure (elim output.error [ some e ↦ err e | none ↦ ok tt ])

  unfoldable pub deploy_with_output : H C Output
  deploy_with_output =
      h.run client.working_directory_path "clab"
        ("--log-level" ∷ "debug" ∷ "-t" ∷ client.topology_file_name ∷ "deploy" ∷ [])

  unfoldable pub destroy : H C (Result ApiError (Unit {0}))
  destroy = do
    output ← h.run client.working_directory_path "clab" (
        "--log-level" ∷ "debug" ∷ "-t" ∷ client.topology_file_name ∷ "destroy" ∷ "--keep-mgmt-net"
        ∷ [])
    pure (elim output.error [ some e ↦ err e | none ↦ ok tt ])

  unfoldable pub inspect : H C (Result ApiError (List ContainerDetails))
  inspect = do
    output ←
        h.run client.working_directory_path "clab"
          ("-t" ∷ client.topology_file_name ∷ "inspect" ∷ "-f" ∷ "json" ∷ [])
    pure (elim output.error [
      | some e ↦ err e
      | none ↦ elim (codecs.containers output.stdout) [
        | err e ↦ err e
        | ok labs ↦ ok (all_containers labs)
      ]
    ])
