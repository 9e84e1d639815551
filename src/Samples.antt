-- ===== src/Samples.antt =====
-- Concrete objects and a small API server, on which the witnesses of the theorems are evaluated. The
-- server keeps its objects in lists, checks the resource version of an update, and keeps the status on
-- an update of the main resource and the rest on an update of the status.
pub mod Machine
pub mod Nclet
pub mod Remote
use netcon_problem_managemen.ControllerManager.Election.{
  Floats, SelectorParser, SchedulerParameters,
}
use netcon_problem_managemen.ControllerManager.Environments.{Scheduler, Readings}
use netcon_problem_managemen.Prelude.{
  ltb, ◌-◌, ◌*◌, ◌/◌, ℕ, ◌+◌, String, Bool, true, false, none, some, List, [], ◌∷◌, ◌==◌, eqb,
  Result, ok, err, filter_by, if◌then◌else◌,
}
use netcon_problem_managemen.Prelude.Int.{pos}
use netcon_problem_managemen.Api.{
  Condition, ConditionStatus, ObjectMeta, ProblemEnvironment, Problem, Worker, condition_true,
  condition_false, condition_scheduled, condition_deployed, condition_ready, condition_assigned,
}
use netcon_problem_managemen.Kube.{ApiError, not_found, failed, Client, Lease, World}

abbrev pub named : String → ObjectMeta
named name = record {
  name = name;
  generate_name = "";
  namespace = "netcon";
  labels = some (("problemName", "p1") ∷ []);
  annotations = none;
  generation = 1;
  resource_version = 7;
  creation_timestamp = some 100;
  deletion_timestamp = none;
  finalizers = [];
  owner_references = record { kind = "Problem"; name = "p1"; controller = true } ∷ [];
}

abbrev pub condition : String → ConditionStatus → Condition
condition type status = record {
  type = type;
  status = status;
  observed_generation = 1;
  last_transition_time = 100;
  reason = "";
  message = "";
}

-- An environment with a name, a worker, and conditions.
abbrev pub environment : String → String → List Condition → ProblemEnvironment
environment name worker conditions = record {
  meta = named name;
  spec = record {
    topology_file = record { config_map_ref = record { key = "topology.yml"; name = "lab" } };
    config_files = [];
    worker_name = worker;
    worker_selectors = none;
  };
  status = record { containers = none; password = ""; conditions = conditions };
}

abbrev pub fresh : ProblemEnvironment
fresh = environment "env" "" []

abbrev pub ready_conditions : ConditionStatus → List Condition
ready_conditions assigned =
    condition condition_scheduled condition_true
    ∷ condition condition_deployed condition_true
    ∷ condition condition_ready condition_true
    ∷ condition condition_assigned assigned
    ∷ []

-- A scheduled, deployed and ready environment that nobody has.
abbrev pub waiting : String → ProblemEnvironment
waiting name = environment name "w1" (ready_conditions condition_false)

-- One that somebody has.
abbrev pub handed_out : String → ProblemEnvironment
handed_out name = environment name "w1" (ready_conditions condition_true)

abbrev pub worker : String → Bool → ConditionStatus → Worker
worker name disabled ready = record {
  meta = named name;
  spec = record { disable_schedule = disabled };
  status = record {
    worker_info = record {
      external_ip_address = "192.0.2.1";
      external_port = 2222;
      hostname = "host";
      memory_used_percent = "10";
      cpu_used_percent = "20";
    };
    conditions = condition "Ready" ready ∷ [];
  };
}

abbrev pub problem : ℕ → Problem
problem replicas = record {
  meta = named "p1";
  spec = record {
    template = record { meta = named ""; spec = fresh.spec };
    assignable_replicas = pos replicas;
  };
  status = record { replicas = record { total = 0; scheduled = 0; assignable = 0; assigned = 0 } };
}

pub record Store : Type 0 where
  pub problems : List Problem
  pub environments : List ProblemEnvironment
  pub workers : List Worker
  pub leases : List (String × Lease)

module _ {A : Type 0} (meta : A → ObjectMeta) where
  abbrev find_named : String → List A → Result ApiError A
  find_named name [] = err not_found
  find_named name (a ∷ as_) = if (meta a).name == name then ok a else find_named name as_

  abbrev replace_named : String → A → List A → List A
  replace_named name a [] = []
  replace_named name a (x ∷ xs) =
      if (meta x).name == name then a ∷ xs else x ∷ replace_named name a xs

abbrev find_lease : String → List (String × Lease) → Result ApiError Lease
find_lease name [] = err not_found
find_lease name ((n, l) ∷ ls) = if n == name then ok l else find_lease name ls

abbrev environment_named : String → Store → Result ApiError ProblemEnvironment
environment_named name s = find_named (λ (e : ProblemEnvironment). e.meta) name s.environments

abbrev with_environment : ProblemEnvironment → Store → Store
with_environment pe s = record s {
  environments = replace_named (λ (e : ProblemEnvironment). e.meta) pe.meta.name pe s.environments;
}

abbrev bumped : ObjectMeta → ObjectMeta
bumped meta = record meta { resource_version = meta.resource_version + 1 }

-- An update of the stored object `old` that was sent as `new`, with `merged` as the outcome.
abbrev store_environment :
    ProblemEnvironment
    → (ProblemEnvironment → ProblemEnvironment)
    → Store
    → Result ApiError ProblemEnvironment × Store
store_environment new merged s = elim (environment_named new.meta.name s) [
  | err e ↦ (err e, s)
  | ok old ↦
      let written = merged old in
      if eqb old.meta.resource_version new.meta.resource_version
      then (ok written, with_environment written s)
      else (err (failed "conflict"), s)
]

abbrev pub server : Client Store
server = record {
  get_problem = λ namespace name s. (find_named (λ (p : Problem). p.meta) name s.problems, s);
  get_problem_environment = λ namespace name s. (environment_named name s, s);
  get_worker = λ name s. (find_named (λ (w : Worker). w.meta) name s.workers, s);
  get_lease = λ namespace name s. (find_lease name s.leases, s);
  list_problems = λ s. (ok s.problems, s);
  list_problem_environments = λ namespace labels s. (ok s.environments, s);
  list_workers = λ s. (ok s.workers, s);
  create_problem_environment = λ pe s. (ok pe, record s { environments = pe ∷ s.environments });
  update_problem_environment = λ pe s.
      store_environment pe (λ old. record pe { meta = bumped pe.meta; status = old.status }) s;
  update_problem_environment_status = λ pe s.
      store_environment pe (λ old. record old { meta = bumped old.meta; status = pe.status }) s;
  delete_problem_environment = λ pe s. (
    ok tt,
    record s {
      environments =
          filter_by
            (λ (e : ProblemEnvironment). if e.meta.name == pe.meta.name then false else true)
            s.environments;
    },
  );
  update_problem_status = λ p s. (ok p, s);
  update_worker = λ w s.
      (ok w, record s { workers = replace_named (λ (x : Worker). x.meta) w.meta.name w s.workers });
  update_worker_status = λ w s.
      (ok w, record s { workers = replace_named (λ (x : Worker). x.meta) w.meta.name w s.workers });
}

abbrev pub world : List ProblemEnvironment → World Store
world environments = record {
  cluster = record {
    problems = problem 1 ∷ [];
    environments = environments;
    workers = worker "w1" false condition_true ∷ worker "w2" true condition_true ∷ [];
    leases = [];
  };
  events = [];
  writes = [];
  commands = [];
}

-- Whole numbers in place of float64, selectors that all match, and parameters that admit every worker.
abbrev pub whole : Floats ℕ
whole = record {
  zero = 0;
  one = 1;
  hundred = 100;
  add = λ a b. a + b;
  sub = λ a b. a - b;
  mul = λ a b. a * b;
  div = λ a b. a / b;
  exp = λ a. a + 1;
  lt = ltb;
  parse_float = λ text. some 10;
}

abbrev pub even : SelectorParser
even selector = some (λ labels. true)

abbrev pub flat : SchedulerParameters ℕ
flat = record { cpu_weight = 1; memory_weight = 1; memory_threshold = 50; temperature = 1 }

abbrev pub scheduler : Scheduler ℕ
scheduler = record { floats = whole; parse_selector = even; parameters = flat }

abbrev pub readings : Readings ℕ
readings = record { now = λ i. 1000 + i; draw = 5; random = λ i. some 0 }

-- `SetControllerReference` on an object without owners.
abbrev pub set_owner : Problem → ProblemEnvironment → Result ApiError ProblemEnvironment
set_owner problem pe = ok (record pe {
  meta = record pe.meta {
    owner_references =
        record { kind = "Problem"; name = problem.meta.name; controller = true } ∷ [];
  };
})

-- The same environment, with its deletion requested.
abbrev pub deleting : ProblemEnvironment → ProblemEnvironment
deleting pe = record pe { meta = record pe.meta { deletion_timestamp = some 900 } }
