-- ===== src/Nclet/Drivers/Containerlab.antt =====
-- drivers/containerlab.go: the driver that runs environments with containerlab. The error texts that
-- `Errorf` puts in front of an error, and the warning for a log that is not recorded, are left out.
-- The readings of the clock in a deployment are parameters, and so is the owner reference that
-- controllerutil makes of an environment.
pub mod Kept
pub mod Contract
mod Examples
use Prim.Native.String
use text.Mathlib.Text.{starts_with}
use netcon_problem_managemen.Prelude.{
  ℕ, zero, suc, ◌-◌, String, Bool, true, false, not, Option, none, some, List, [], ◌∷◌, ◌==◌,
  Result, ok, err, concat, if◌then◌else◌,
}
use netcon_problem_managemen.Api.{ContainerStatus, ProblemEnvironment, FileSource, OwnerReference}
use netcon_problem_managemen.Kube.{ApiError}
use netcon_problem_managemen.Host.{Output, ConfigMap, ContainerInfo, Host, H, pure, ◌>>=◌}
use netcon_problem_managemen.Strings.FilePath.{path_join}
use netcon_problem_managemen.Clab.{
  ContainerDetails, Codecs, ContainerLabClient, new_client_for, topology_file_path,
  deploy_with_output,
}
use netcon_problem_managemen.Clab as Clab
use netcon_problem_managemen.Nclet.Environments.{
  DriverStatus, status_init, status_deployed, status_error, Driver,
}
use netcon_problem_managemen.Nclet.Drivers.Files.{
  error_of, create_or_update_file, delete_path, fetch_file,
}
use netcon_problem_managemen.Nclet.Drivers.Topology.{get_topology_file_for}
use netcon_problem_managemen.Nclet.Drivers.Network.{ensure_management_network}
use netcon_problem_managemen.Crypto.{rune_count}

-- The time before the deployment, in seconds and in RFC 3339, and the time after it.
pub record Times : Type 0 where
  pub started_unix : String
  pub started_at : String
  pub ended_at : String

-- `strings.ReplaceAll` of a text by the empty one: `skip` characters of an occurrence are left.
delete_all : String → ℕ → String → String
delete_all old skip String.[] = String.[]
delete_all old (suc skip) (String.◌∷◌ c s) = delete_all old skip s
delete_all old zero (String.◌∷◌ c s) =
    let next = delete_all old (rune_count old - 1) s in
    let kept = String.◌∷◌ c (delete_all old 0 s) in
    if starts_with (String.◌∷◌ c s) old then next else kept

-- Is the container ready, by docker's state of it?
pub ready_of : ContainerInfo → Bool
ready_of info =
    if info.running
    then elim info.health [ none ↦ true | some health ↦ health == "healthy" ]
    else false

-- The status of a container before docker is asked.
pub status_of : String → ContainerDetails → ContainerStatus
status_of prefix container = record {
  name = delete_all prefix 0 container.name;
  image = container.image;
  container_id = container.container_id;
  container_name = "";
  ready = false;
  management_ip_address = container.ipv4_address;
}

-- The ConfigMap that records a deployment.
unfoldable pub deploy_log :
    Times → (ProblemEnvironment → OwnerReference) → ProblemEnvironment → Output → ConfigMap
deploy_log times owner pe output = record {
  namespace = pe.meta.namespace;
  name = concat "deploy-" (concat pe.meta.name (concat "-" times.started_unix));
  content =
      ("stdout", output.stdout)
      ∷ ("stderr", output.stderr)
      ∷ ("startedAt", times.started_at)
      ∷ ("endedAt", times.ended_at)
      ∷ [];
  owners = owner pe ∷ [];
}

module _ {C : Type 0} (h : Host C) (codecs : Codecs) (config_dir : String) (times : Times)
    (owner : ProblemEnvironment → OwnerReference) where
  -- The body of the loop over the containers.
  pub check_container : String → ContainerDetails → H C ContainerStatus
  check_container prefix container = do
    inspected ← h.container_inspect container.container_id
    pure (elim inspected [
      | err e ↦ status_of prefix container
      | ok info ↦ record (status_of prefix container) {
        container_name = info.name;
        ready = ready_of info;
      }
    ])

  pub check_containers : String → List ContainerDetails → H C (List ContainerStatus)
  check_containers prefix [] = pure []
  check_containers prefix (container ∷ containers) = do
    status ← check_container prefix container
    statuses ← check_containers prefix containers
    pure (status ∷ statuses)

  pub check : ProblemEnvironment → H C (DriverStatus × Option (List ContainerStatus))
  check pe =
      let client = new_client_for pe in
      (do
        has_directory ← h.stat client.working_directory_path
        if not has_directory then pure (status_init, none) else (do
          has_topology ← h.stat (topology_file_path client)
          if not has_topology then pure (status_error, none) else (do
            inspected ← Clab.inspect h codecs client
            elim inspected [
              | err e ↦ pure (status_error, none)
              | ok containers ↦ do
                statuses ← check_containers (concat "clab-" (concat pe.meta.name "-")) containers
                pure (status_deployed, some statuses)
            ])))

  -- The loop over the config files.
  pub place_config_files :
      String → ProblemEnvironment → List FileSource → H C (Result ApiError (Unit {0}))
  place_config_files directory pe [] = pure (ok tt)
  place_config_files directory pe (source ∷ sources) = do
    fetched ← fetch_file h pe source
    elim fetched [
      | err e ↦ pure (err e)
      | ok text ↦ do
        placed ←
            create_or_update_file h (path_join (directory ∷ source.config_map_ref.key ∷ [])) text
        elim placed.1 [ some e ↦ pure (err e) | none ↦ place_config_files directory pe sources ]
    ]

  pub place_topology_file :
      ContainerLabClient → ProblemEnvironment → H C (Result ApiError (Unit {0}))
  place_topology_file client pe = do
    topology ← get_topology_file_for h codecs config_dir pe
    elim topology [
      | err e ↦ pure (err e)
      | ok text ↦ do
        placed ← create_or_update_file h (topology_file_path client) text
        pure (elim placed.1 [ some e ↦ err e | none ↦ ok tt ])
    ]

  pub place_files : ContainerLabClient → ProblemEnvironment → H C (Result ApiError (Unit {0}))
  place_files client pe =
      let directory = path_join (client.working_directory_path ∷ "config" ∷ []) in
      (do
        made ← h.mkdir_all client.working_directory_path
        elim made [
          | err e ↦ pure (err e)
          | ok _ ↦ do
            nested ← h.mkdir_all directory
            elim nested [
              | err e ↦ pure (err e)
              | ok _ ↦ do
                topology ← place_topology_file client pe
                elim topology [
                  | err e ↦ pure (err e)
                  | ok _ ↦ place_config_files directory pe pe.spec.config_files
                ]
            ]
        ])

  pub deploy_lab : ContainerLabClient → ProblemEnvironment → H C (Result ApiError (Unit {0}))
  deploy_lab client pe = do
    output ← deploy_with_output h codecs client
    recorded ← h.create_config_map (deploy_log times owner pe output)
    pure (elim output.error [ some e ↦ err e | none ↦ ok tt ])

  pub deploy : ProblemEnvironment → H C (Result ApiError (Unit {0}))
  deploy pe =
      let client = new_client_for pe in
      (do
        placed ← place_files client pe
        elim placed [
          | err e ↦ pure (err e)
          | ok _ ↦ do
            ensured ← ensure_management_network h
            elim ensured [ err e ↦ pure (err e) | ok _ ↦ deploy_lab client pe ]
        ])

  -- The deletion of the working directory.
  pub delete_directory : ContainerLabClient → H C (Result ApiError (Unit {0}))
  delete_directory client = do
    deleted ← delete_path h client.working_directory_path
    pure (elim deleted.1 [ some e ↦ err e | none ↦ ok tt ])

  pub destroy : ProblemEnvironment → H C (Result ApiError (Unit {0}))
  destroy pe =
      let client = new_client_for pe in
      (do
        checked ← check pe
        elim checked.0 [
          | status_deployed ↦ do
            destroyed ← Clab.destroy h codecs client
            elim destroyed [ err e ↦ pure (err e) | ok _ ↦ delete_directory client ]
          | _ ↦ delete_directory client
        ])

  pub containerlab_driver : Driver C
  containerlab_driver = record { check = check; deploy = deploy; destroy = destroy }
