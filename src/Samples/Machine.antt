-- ===== src/Samples/Machine.antt =====
-- A machine beside the small API server: the paths that are there, a command that does nothing, and
-- codecs that know one topology. It keeps the laws of files.
use netcon_problem_managemen.Prelude.{
  Result, String, Bool, true, false, none, some, List, [], ◌∷◌, ◌==◌, ok, err, if◌then◌else◌, refl,
  arith, eq_iff,
}
use netcon_problem_managemen.Api.{ProblemEnvironment, OwnerReference}
use netcon_problem_managemen.Kube.{ApiError, not_found, failed, Client, Call, World}
use netcon_problem_managemen.Host.{Host, Network}
use netcon_problem_managemen.Host.Laws.{FileLaws, NetworkLaws}
use netcon_problem_managemen.Clab.{Codecs, Config, NodeDefinition}
use netcon_problem_managemen.Samples.{Store, server, world}

abbrev pub Site : Type 0
Site = Store × (String → Bool)

abbrev beside : {A : Type 0} → Call Store A → Call Site A
beside call c = ((call c.0).0, ((call c.0).1, c.1))

abbrev pub site_server : Client Site
site_server = record {
  get_problem = λ namespace name. beside (server.get_problem namespace name);
  get_problem_environment =
      λ namespace name. beside (server.get_problem_environment namespace name);
  get_worker = λ name. beside (server.get_worker name);
  get_lease = λ namespace name. beside (server.get_lease namespace name);
  list_problems = beside server.list_problems;
  list_problem_environments =
      λ namespace labels. beside (server.list_problem_environments namespace labels);
  list_workers = beside server.list_workers;
  create_problem_environment = λ pe. beside (server.create_problem_environment pe);
  update_problem_environment = λ pe. beside (server.update_problem_environment pe);
  update_problem_environment_status = λ pe. beside (server.update_problem_environment_status pe);
  delete_problem_environment = λ pe. beside (server.delete_problem_environment pe);
  update_problem_status = λ p. beside (server.update_problem_status p);
  update_worker = λ w. beside (server.update_worker w);
  update_worker_status = λ w. beside (server.update_worker_status w);
}

-- Nothing is there yet.
abbrev pub site : List ProblemEnvironment → World Site
site environments = record {
  cluster = ((world environments).cluster, λ path. false);
  events = [];
  writes = [];
  commands = [];
}

abbrev pub there : String → Site → Bool
there path c = c.1 path

abbrev with_path : String → Bool → Site → Site
with_path path b c = (c.0, λ other. if other == path then b else c.1 other)

abbrev pub machine : Host Site
machine = record {
  stat = λ path c. (c.1 path, c);
  mkdir_all = λ path c. (ok tt, with_path path true c);
  read_file = λ path c. (ok "", c);
  write_file = λ path text c. (ok tt, with_path path true c);
  remove_all = λ path c. (ok tt, with_path path false c);
  run = λ directory command args c. (record { stdout = ""; stderr = ""; error = none }, c);
  container_inspect = λ id c. (ok (record { name = id; running = true; health = none }), c);
  network_inspect = λ name c. (err not_found, c);
  network_remove = λ name c. (ok tt, c);
  network_create = λ name network c. (ok tt, c);
  get_config_map = λ namespace name c. (ok (("topology.yml", "lab") ∷ []), c);
  create_config_map = λ map c. (ok tt, c);
}

pub machine-FileLaws : FileLaws there machine
machine-FileLaws = record {
  stat_answers = λ path c. refl;
  stat_same = λ path other c. refl;
  made = λ path c done. ground (arith, eq_iff path path);
  removed = λ path c done. ground (arith, eq_iff path path);
  mkdir_all = λ path other c at. ground arith;
  read_file = λ path other c at. at;
  write_file = λ path other text c at. ground arith;
  run = λ path directory command args c at. at;
  container_inspect = λ path id c at. at;
  network_inspect = λ path name c at. at;
  network_remove = λ path name c at. at;
  network_create = λ path name network c at. at;
  get_config_map = λ path namespace name c at. at;
  create_config_map = λ path map c at. at;
}

abbrev pub router : String → NodeDefinition
router startup_config = record {
  startup_config = startup_config;
  binds = "hosts:/etc/hosts" ∷ [];
  labels = ("netcon.janog.gr.jp/adminOnly", "true") ∷ ("netcon.janog.gr.jp/sshPort", "2222") ∷ [];
  other = "";
}

abbrev pub lab : Config
lab = record {
  name = "lab";
  prefix = some "";
  mgmt = none;
  topology = record { nodes = ("r1", some (router "r1.cfg")) ∷ []; other = "" };
}

abbrev pub codecs : Codecs
codecs = record {
  unmarshal = λ text. ok lab;
  marshal = λ config. ok config.name;
  containers = λ text. err (failed "no output");
}

abbrev pub owner_of : ProblemEnvironment → OwnerReference
owner_of pe = record { kind = "ProblemEnvironment"; name = pe.meta.name; controller = false }

abbrev find_network : String → List (String × Network) → Result ApiError Network
find_network name [] = err not_found
find_network name ((other, network) ∷ networks) =
    if name == other then ok network else find_network name networks

-- A machine whose docker has any network that is created and forgets none.
abbrev pub docker : Host (List (String × Network))
docker = record {
  stat = λ path c. (false, c);
  mkdir_all = λ path c. (ok tt, c);
  read_file = λ path c. (ok "", c);
  write_file = λ path text c. (ok tt, c);
  remove_all = λ path c. (ok tt, c);
  run = λ directory command args c. (record { stdout = ""; stderr = ""; error = none }, c);
  container_inspect = λ id c. (err not_found, c);
  network_inspect = λ name c. (find_network name c, c);
  network_remove = λ name c. (ok tt, c);
  network_create = λ name network c. (ok tt, (name, network) ∷ c);
  get_config_map = λ namespace name c. (ok [], c);
  create_config_map = λ map c. (ok tt, c);
}

docker-NetworkLaws : NetworkLaws docker
docker-NetworkLaws = record {
  created = λ name network c done. ground (arith, eq_iff name name);
  inspect_again = λ name c. refl;
}
