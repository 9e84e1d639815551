-- ===== src/Nclet/Drivers/Containerlab/Kept.antt =====
-- What the containerlab driver leaves on the machine: no call but the removal takes a path away.
use netcon_problem_managemen.Prelude.{
  Result-cases, inl, inr, concat, String, Bool, true, List, [], ◌∷◌, ◌≡◌, arith,
}
use netcon_problem_managemen.Api.{ProblemEnvironment, OwnerReference, FileSource}
use netcon_problem_managemen.Host.{Host}
use netcon_problem_managemen.Host.Laws.{FileLaws, Keeps}
use netcon_problem_managemen.Strings.FilePath.{path_join}
use netcon_problem_managemen.Clab.{
  topology_file_path, ContainerDetails, ContainerLabClient, new_client_for, Codecs,
  deploy_with_output,
}
use netcon_problem_managemen.Clab as Clab
use netcon_problem_managemen.Nclet.Drivers.Files.{create_or_update_file, fetch_file}
use netcon_problem_managemen.Nclet.Drivers.Topology.{get_topology_file_for}
use netcon_problem_managemen.Nclet.Drivers.Network.{ensure_management_network, management_network}
use netcon_problem_managemen.Nclet.Drivers.Containerlab.{
  deploy, place_files, deploy_lab, Times, check_container, check_containers, check,
  place_config_files, place_topology_file,
}

module _ {C : Type 0} (h : Host C) (there : String → C → Bool) (laws : FileLaws there h)
    (path : String) where
  keeps_stat : (other : String) → Keeps there path (h.stat other)
  keeps_stat other c at = ground (arith, laws.stat_same other path c)

  create_or_update_file_keeps :
      (other text : String) → Keeps there path (create_or_update_file h other text)
  unfolding create_or_update_file
  create_or_update_file_keeps other text c at =
      let s : there path (h.stat other c).1 ≡ true = keeps_stat other c at in
      ground (
        arith,
        s,
        laws.read_file path other (h.stat other c).1,
        laws.write_file path other text (h.stat other c).1,
        laws.write_file path other text (h.read_file other (h.stat other c).1).1,
      )

  fetch_file_keeps :
      (pe : ProblemEnvironment) (source : FileSource) → Keeps there path (fetch_file h pe source)
  unfolding fetch_file
  fetch_file_keeps pe source c at =
      laws.get_config_map path pe.meta.namespace source.config_map_ref.name c at

  pub ensure_management_network_keeps : Keeps there path (ensure_management_network h)
  unfolding ensure_management_network
  ensure_management_network_keeps c at =
      let c1 : C = (h.network_inspect "nc-mgmt" c).1 in
      let c2 : C = (h.network_remove "nc-mgmt" c1).1 in
      let at1 : there path c1 ≡ true = laws.network_inspect path "nc-mgmt" c at in
      let at2 : there path c2 ≡ true = laws.network_remove path "nc-mgmt" c1 at1 in
      ground (
        arith,
        laws.network_create path "nc-mgmt" management_network c1 at1,
        laws.network_create path "nc-mgmt" management_network c2 at2,
      )

  get_topology_file_for_keeps :
      (codecs : Codecs) (config_dir : String) (pe : ProblemEnvironment)
      → Keeps there path (get_topology_file_for h codecs config_dir pe)
  unfolding get_topology_file_for
  get_topology_file_for_keeps codecs config_dir pe = fetch_file_keeps pe pe.spec.topology_file

  module _ (codecs : Codecs) (config_dir : String) (times : Times)
      (owner : ProblemEnvironment → OwnerReference) where
    pub place_config_files_keeps :
        (directory : String) (pe : ProblemEnvironment) (sources : List FileSource)
        → Keeps there path (place_config_files h codecs config_dir times owner directory pe sources)
    unfolding place_config_files
    place_config_files_keeps directory pe [] c at = at
    place_config_files_keeps directory pe (source ∷ sources) c at =
        let c1 : C = (fetch_file h pe source c).1 in
        let at1 : there path c1 ≡ true = fetch_file_keeps pe source c at in
        elim (Result-cases (fetch_file h pe source c).0) [
          | inr (e, bad) ↦ ground arith
          | inl (text, fetched) ↦
              let file : String = path_join (directory ∷ source.config_map_ref.key ∷ []) in
              ground (
                arith,
                create_or_update_file_keeps file text c1 at1,
                place_config_files_keeps directory pe sources
                    (create_or_update_file h file text c1).1,
              )
        ]

    pub place_topology_file_keeps :
        (client : ContainerLabClient) (pe : ProblemEnvironment)
        → Keeps there path (place_topology_file h codecs config_dir times owner client pe)
    unfolding place_topology_file
    place_topology_file_keeps client pe c at =
        let c1 : C = (get_topology_file_for h codecs config_dir pe c).1 in
        let at1 : there path c1 ≡ true = get_topology_file_for_keeps codecs config_dir pe c at in
        elim (Result-cases (get_topology_file_for h codecs config_dir pe c).0) [
          | inr (e, bad) ↦ ground arith
          | inl (text, fetched) ↦
              ground (arith, create_or_update_file_keeps (topology_file_path client) text c1 at1)
        ]

    check_containers_keeps :
        (prefix : String) (containers : List ContainerDetails)
        → Keeps there path (check_containers h codecs config_dir times owner prefix containers)
    unfolding check_containers check_container
    check_containers_keeps prefix [] c at = at
    check_containers_keeps prefix (container ∷ containers) c at =
        check_containers_keeps prefix containers _
          (laws.container_inspect path container.container_id c at)

    pub check_keeps :
        (pe : ProblemEnvironment) → Keeps there path (check h codecs config_dir times owner pe)
    unfolding check
    check_keeps pe c at =
        let client : ContainerLabClient = new_client_for pe in
        let c1 : C = (h.stat client.working_directory_path c).1 in
        let at1 : there path c1 ≡ true = keeps_stat client.working_directory_path c at in
        let c2 : C = (h.stat (topology_file_path client) c1).1 in
        let at2 : there path c2 ≡ true = keeps_stat (topology_file_path client) c1 at1 in
        let c3 : C = (Clab.inspect h codecs client c2).1 in
        let at3 : there path c3 ≡ true = unfold Clab.inspect in laws.run path _ _ _ c2 at2 in
        elim (Result-cases (Clab.inspect h codecs client c2).0) [
          | inr (e, bad) ↦ ground (arith, at1, at2, at3)
          | inl (containers, inspected) ↦ ground (
            arith,
            at1,
            at2,
            check_containers_keeps (concat "clab-" (concat pe.meta.name "-")) containers c3 at3,
          )
        ]

    place_files_keeps :
        (client : ContainerLabClient) (pe : ProblemEnvironment)
        → Keeps there path (place_files h codecs config_dir times owner client pe)
    unfolding place_files
    place_files_keeps client pe c at =
        let config : String = path_join (client.working_directory_path ∷ "config" ∷ []) in
        let c1 : C = (h.mkdir_all client.working_directory_path c).1 in
        let at1 : there path c1 ≡ true = laws.mkdir_all path client.working_directory_path c at in
        let c2 : C = (h.mkdir_all config c1).1 in
        let at2 : there path c2 ≡ true = laws.mkdir_all path config c1 at1 in
        let at3 : there path (place_topology_file h codecs config_dir times owner client pe c2).1
            ≡ true =
          place_topology_file_keeps client pe c2 at2 in
        ground (
          arith,
          place_config_files_keeps config pe pe.spec.config_files
              (place_topology_file h codecs config_dir times owner client pe c2).1,
        )

    pub deploy_lab_keeps :
        (client : ContainerLabClient) (pe : ProblemEnvironment)
        → Keeps there path (deploy_lab h codecs config_dir times owner client pe)
    unfolding deploy_lab deploy_with_output
    deploy_lab_keeps client pe c at = laws.create_config_map path _ _ (laws.run path _ _ _ c at)

    pub deploy_keeps :
        (pe : ProblemEnvironment) → Keeps there path (deploy h codecs config_dir times owner pe)
    unfolding deploy
    deploy_keeps pe c at =
        let client : ContainerLabClient = new_client_for pe in
        let c1 : C = (place_files h codecs config_dir times owner client pe c).1 in
        let at1 : there path c1 ≡ true = place_files_keeps client pe c at in
        let c2 : C = (ensure_management_network h c1).1 in
        let at2 : there path c2 ≡ true = ensure_management_network_keeps c1 at1 in
        ground (arith, deploy_lab_keeps client pe c2 at2)
