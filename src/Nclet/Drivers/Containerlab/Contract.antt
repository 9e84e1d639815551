-- ===== src/Nclet/Drivers/Containerlab/Contract.antt =====
-- The containerlab driver keeps the contract of a driver: an environment has an instance on the
-- machine while its working directory is there.
use netcon_problem_managemen.Prelude.{
  Result-cases, Bool-cases, inl, inr, String, Bool, true, false, [], ◌∷◌, ◌≡◌, ◌↔◌, ok, arith,
}
use netcon_problem_managemen.Api.{ProblemEnvironment, OwnerReference}
use netcon_problem_managemen.Host.{Host}
use netcon_problem_managemen.Host.Laws.{FileLaws}
use netcon_problem_managemen.Strings.FilePath.{path_join, dir}
use netcon_problem_managemen.Clab.{
  topology_file_path, ContainerLabClient, ContainerDetails, new_client, new_client_for, Codecs,
}
use netcon_problem_managemen.Clab as Clab
use netcon_problem_managemen.Nclet.Environments.{status_init}
use netcon_problem_managemen.Nclet.Environments.Instances.{Instances}
use netcon_problem_managemen.Nclet.Drivers.Files.{delete_path}
use netcon_problem_managemen.Nclet.Drivers.Network.{ensure_management_network}
use netcon_problem_managemen.Nclet.Drivers.Containerlab.{
  Times, check, place_files, place_topology_file, deploy, delete_directory, destroy,
  containerlab_driver,
}
use netcon_problem_managemen.Nclet.Drivers.Containerlab.Kept.{
  place_config_files_keeps, place_topology_file_keeps, ensure_management_network_keeps, check_keeps,
  deploy_keeps, deploy_lab_keeps,
}

-- The working directory of the environment of a name.
abbrev pub instance_directory : String → String
instance_directory name = dir (path_join ("data" ∷ name ∷ "manifest.yml" ∷ []))

module _ {C : Type 0} (h : Host C) (there : String → C → Bool) (laws : FileLaws there h)
    (codecs : Codecs) (config_dir : String) (times : Times)
    (owner : ProblemEnvironment → OwnerReference) where
  check_init_iff :
      (pe : ProblemEnvironment) (c : C)
      → ((check h codecs config_dir times owner pe c).0.0 ≡ status_init)
        ↔ (there (new_client_for pe).working_directory_path c ≡ false)
  unfolding check
  check_init_iff pe c =
      let client : ContainerLabClient = new_client_for pe in
      let answer : (h.stat client.working_directory_path c).0
          ≡ there client.working_directory_path c =
        laws.stat_answers client.working_directory_path c in
      let c2 : C =
        (h.stat (topology_file_path client) (h.stat client.working_directory_path c).1).1 in
      elim (Result-cases (Clab.inspect h codecs client c2).0) [
        | inr (e, bad) ↦ ground (arith, answer)
        | inl (containers, inspected) ↦ ground (arith, answer)
      ]

  check_same :
      (pe : ProblemEnvironment) (c : C)
      → let directory = (new_client_for pe).working_directory_path in
        there directory (check h codecs config_dir times owner pe c).1 ≡ there directory c
  check_same pe c =
      let directory : String = (new_client_for pe).working_directory_path in
      elim (Bool-cases (there directory c)) [
        | inl at ↦
            ground (arith, check_keeps h there laws directory codecs config_dir times owner pe c at)
        | inr absent ↦
            unfold check in
            ground (arith, laws.stat_answers directory c, laws.stat_same directory directory c)
      ]

  place_files-there :
      (pe : ProblemEnvironment) (c : C)
      → let client = new_client_for pe in
        (h.mkdir_all client.working_directory_path c).0 ≡ ok tt
        → there client.working_directory_path
            (place_files h codecs config_dir times owner client pe c).1
          ≡ true
  unfolding place_files
  place_files-there pe c made =
      let client : ContainerLabClient = new_client_for pe in
      let directory : String = client.working_directory_path in
      let config : String = path_join (directory ∷ "config" ∷ []) in
      let c1 : C = (h.mkdir_all directory c).1 in
      let at1 : there directory c1 ≡ true = laws.made directory c made in
      let c2 : C = (h.mkdir_all config c1).1 in
      let at2 : there directory c2 ≡ true = laws.mkdir_all directory config c1 at1 in
      let at3 : there directory (place_topology_file h codecs config_dir times owner client pe c2).1
          ≡ true =
        place_topology_file_keeps h there laws directory codecs config_dir times owner client pe c2
          at2 in
      ground (
        arith,
        place_config_files_keeps h there laws directory codecs config_dir times owner config pe
            pe.spec.config_files
            (place_topology_file h codecs config_dir times owner client pe c2).1,
      )

  -- Whatever goes wrong after the working directory is made, the environment has an instance.
  deploy-there :
      (pe : ProblemEnvironment) (c : C)
      → let directory = (new_client_for pe).working_directory_path in
        (h.mkdir_all directory c).0 ≡ ok tt
        → there directory (deploy h codecs config_dir times owner pe c).1 ≡ true
  unfolding deploy
  deploy-there pe c made =
      let client : ContainerLabClient = new_client_for pe in
      let directory : String = client.working_directory_path in
      let c1 : C = (place_files h codecs config_dir times owner client pe c).1 in
      let at1 : there directory c1 ≡ true = place_files-there pe c made in
      let c2 : C = (ensure_management_network h c1).1 in
      let at2 : there directory c2 ≡ true =
        ensure_management_network_keeps h there laws directory c1 at1 in
      ground (
        arith,
        deploy_lab_keeps h there laws directory codecs config_dir times owner client pe c2 at2,
      )

  deploy_made :
      (pe : ProblemEnvironment) (c : C)
      → (deploy h codecs config_dir times owner pe c).0 ≡ ok tt
      → (h.mkdir_all (new_client_for pe).working_directory_path c).0 ≡ ok tt
  unfolding deploy place_files
  deploy_made pe c done =
      ground (arith, Result-cases (h.mkdir_all (new_client_for pe).working_directory_path c).0)

  delete_directory_gone :
      (client : ContainerLabClient) (c : C)
      → (delete_directory h codecs config_dir times owner client c).0 ≡ ok tt
      → there client.working_directory_path
          (delete_directory h codecs config_dir times owner client c).1
        ≡ false
  unfolding delete_directory delete_path
  delete_directory_gone client c done =
      let directory : String = client.working_directory_path in
      let c1 : C = (h.stat directory c).1 in
      ground (
        arith,
        laws.stat_answers directory c,
        laws.stat_same directory directory c,
        laws.removed directory c1,
        Result-cases (h.remove_all directory c1).0,
      )

  destroy_gone :
      (pe : ProblemEnvironment) (c : C)
      → (destroy h codecs config_dir times owner pe c).0 ≡ ok tt
      → there
          (new_client_for pe).working_directory_path
          (destroy h codecs config_dir times owner pe c).1
        ≡ false
  unfolding destroy
  destroy_gone pe c done =
      let client : ContainerLabClient = new_client_for pe in
      let c1 : C = (check h codecs config_dir times owner pe c).1 in
      let c2 : C = (Clab.destroy h codecs client c1).1 in
      ground (arith, delete_directory_gone client c1, delete_directory_gone client c2)

  -- The containerlab driver keeps the contract of a driver, where an environment has an instance while
  -- its working directory is there: it reports the initial status exactly where there is no instance
  -- and leaves the instances as they are, a deployment without an error makes one, no deployment
  -- takes one away, and a destruction without an error leaves none. The machine keeps the laws of
  -- files.
  pub containerlab_driver-Instances :
      Instances
        (containerlab_driver h codecs config_dir times owner)
        (λ name c. there (instance_directory name) c)
  unfolding containerlab_driver new_client_for new_client
  containerlab_driver-Instances = record {
    checked = check_init_iff;
    check_same = check_same;
    deployed = λ pe c done. deploy-there pe c (deploy_made pe c done);
    deploy_keeps = λ pe.
        deploy_keeps h there laws (instance_directory pe.meta.name) codecs config_dir times owner
          pe;
    destroyed = destroy_gone;
  }
