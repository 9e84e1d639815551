-- ===== src/Nclet/Drivers/Examples.antt =====
-- The containerlab driver on a small machine.
use netcon_problem_managemen.Prelude.{String, none, some, [], ◌∷◌, ok, ◌≡◌, refl, ap, arith}
use netcon_problem_managemen.Strings.Split.{Free}
use netcon_problem_managemen.Strings.FilePath.Names.{FileName-of, FileName}
use netcon_problem_managemen.Strings.FilePath.Rooted.{absolute, path_join_rooted}
use netcon_problem_managemen.Clab.{Config}
use netcon_problem_managemen.Nclet.Environments.Instances.{Instances}
use netcon_problem_managemen.Nclet.Drivers.Topology.{rewrite_node, rewrite_config, rewrite_nodes}
use netcon_problem_managemen.Nclet.Drivers.Topology.Rewritten.{AllPlaced, rewrite_config_ok}
use netcon_problem_managemen.Nclet.Drivers.Containerlab.{Times, containerlab_driver}
use netcon_problem_managemen.Nclet.Drivers.Containerlab.Contract.{
  instance_directory, containerlab_driver-Instances,
}
use netcon_problem_managemen.Samples.{fresh}
use netcon_problem_managemen.Samples.Machine.{
  machine, there, machine-FileLaws, codecs, owner_of, lab, router,
}

abbrev times : Times
times = record { started_unix = "1700000000"; started_at = "t0"; ended_at = "t1" }

containerlab_driver-Instances_example :
    Instances
      (containerlab_driver machine codecs "/data" times owner_of)
      (λ name c. there (instance_directory name) c)
containerlab_driver-Instances_example =
    containerlab_driver-Instances machine there machine-FileLaws codecs "/data" times owner_of

data_FileName : FileName "data"
unfolding Free
data_FileName = FileName-of "data" (ground arith) refl refl refl

env_FileName : FileName "env"
unfolding Free
env_FileName = FileName-of "env" (ground arith) refl refl refl

abbrev lab_for : String → Config
lab_for prefix = record {
  name = "env";
  prefix = none;
  mgmt = some (record { network = "nc-mgmt"; other = "" });
  topology = record {
    nodes = ("r1", some (rewrite_node prefix (router "r1.cfg"))) ∷ [];
    other = "";
  };
}

abbrev rewritten_lab : Config
rewritten_lab = lab_for (absolute ("data" ∷ "env" ∷ []))

lab_rewritten : rewrite_config (absolute ("data" ∷ [])) fresh lab ≡ ok rewritten_lab
unfolding rewrite_config rewrite_nodes
lab_rewritten =
    ap (λ p. ok (lab_for p)) (path_join_rooted "data" [] "env" (data_FileName, tt) env_FileName)

rewrite_config_ok_example :
    (rewritten_lab.name ≡ "env")
    × (rewritten_lab.prefix ≡ none)
    × (rewritten_lab.mgmt ≡ some (record { network = "nc-mgmt"; other = "" }))
    × (rewritten_lab.topology.other ≡ "")
    × AllPlaced (absolute ("data" ∷ "env" ∷ [])) lab.topology.nodes rewritten_lab.topology.nodes
rewrite_config_ok_example =
    rewrite_config_ok "data" [] fresh lab rewritten_lab (data_FileName, tt) env_FileName
      lab_rewritten
