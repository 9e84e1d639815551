-- ===== src/Nclet/Drivers/Topology.antt =====
-- drivers/containerlab.go, `getTopologyFileFor`: the topology that containerlab is given. A node that
-- the file gives no definition is a nil pointer, and the code dereferences it: the model's error
-- "nil pointer" is that panic.
pub mod Rewritten
use netcon_problem_managemen.Prelude.{
  String, Option, none, some, List, [], ◌∷◌, ◌==◌, Result, ok, err, map, if◌then◌else◌,
}
use netcon_problem_managemen.Api.{ProblemEnvironment}
use netcon_problem_managemen.Kube.{ApiError, failed}
use netcon_problem_managemen.Strings.{split, join}
use netcon_problem_managemen.Strings.FilePath.{path_join}
use netcon_problem_managemen.Host.{Host, H, pure, ◌>>=◌}
use netcon_problem_managemen.Clab.{NodeDefinition, Config, Codecs}
use netcon_problem_managemen.Nclet.Drivers.Files.{fetch_file}

-- The body of the loop over the binds; `parts` has a first element, as Split gives one.
pub rewrite_bind : String → String → String
rewrite_bind directory bind = elim (split ":" bind) [
  | [] ↦ ""
  | source ∷ rest ↦ join ":" (path_join (directory ∷ source ∷ []) ∷ rest)
]

-- The body of the loop over the nodes.
pub rewrite_node : String → NodeDefinition → NodeDefinition
rewrite_node prefix node =
    let startup_config : String =
      if node.startup_config == ""
      then node.startup_config
      else path_join (prefix ∷ node.startup_config ∷ []) in
    record node {
      startup_config = startup_config;
      binds = map (rewrite_bind startup_config) node.binds;
    }

unfoldable pub rewrite_nodes :
    String
    → List (String × Option NodeDefinition)
    → Result ApiError (List (String × Option NodeDefinition))
rewrite_nodes prefix [] = ok []
rewrite_nodes prefix ((name, none) ∷ nodes) = err (failed "nil pointer")
rewrite_nodes prefix ((name, some node) ∷ nodes) = elim (rewrite_nodes prefix nodes) [
  | err e ↦ err e
  | ok rewritten ↦ ok ((name, some (rewrite_node prefix node)) ∷ rewritten)
]

-- The requirements of nclet on a topology.
unfoldable pub rewrite_config : String → ProblemEnvironment → Config → Result ApiError Config
rewrite_config config_dir pe config =
    elim (rewrite_nodes (path_join (config_dir ∷ pe.meta.name ∷ [])) config.topology.nodes) [
      | err e ↦ err e
      | ok nodes ↦ ok (record config {
        prefix = none;
        name = pe.meta.name;
        mgmt = some (record { network = "nc-mgmt"; other = "" });
        topology = record config.topology { nodes = nodes };
      })
    ]

module _ {C : Type 0} (h : Host C) (codecs : Codecs) (config_dir : String) where
  unfoldable pub get_topology_file_for : ProblemEnvironment → H C (Result ApiError String)
  get_topology_file_for pe = do
    topology ← fetch_file h pe pe.spec.topology_file
    pure (elim topology [
      | err e ↦ err e
      | ok text ↦ elim (codecs.unmarshal text) [
        | err e ↦ err e
        | ok config ↦ elim (rewrite_config config_dir pe config) [
          | err e ↦ err e
          | ok rewritten ↦ codecs.marshal rewritten
        ]
      ]
    ])
