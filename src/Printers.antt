-- ===== src/Printers.antt =====
-- pkg/printers: the tables of ProblemEnvironments and Workers. A table is its columns and rows; the
-- printing of a table is apimachinery's. `age` is the printed time since a timestamp that is not zero.
pub mod Statuses
pub mod Ratios
pub mod Tables
mod Examples
use Prim.Native.Char.{Char}
use Prim.Native.String
use netcon_problem_managemen.Prelude.{
  ℕ, zero, suc, ◌+◌, ◌/◌, ◌%◌, String, Bool, true, not, Option, none, some, List, [], ◌∷◌, ◌++◌,
  ltb, map, concat, if◌then◌else◌,
}
use netcon_problem_managemen.Api.{
  ContainerStatus, ProblemEnvironment, Worker, condition_scheduled, condition_deployed,
  condition_ready, condition_assigned,
}
use netcon_problem_managemen.Condition.{
  is_true, get_problem_environment_condition, get_worker_condition,
}
use netcon_problem_managemen.Strings.{join}
use netcon_problem_managemen.Strings.Order.{sort}
use netcon_problem_managemen.Strings.Decimal.{decimal}

-- metav1.TableColumnDefinition: name, type, format and priority.
pub record Column : Type 0 where
  pub name : String
  pub type : String
  pub format : String
  pub priority : ℕ

pub data Cell : Type 0 where
  text : String → Cell
  flag : Bool → Cell
  number : ℕ → Cell

pub record Table : Type 0 where
  pub columns : List Column
  pub resource_version : ℕ
  pub rows : List (List Cell)

abbrev column : String → ℕ → Column
column name priority = record { name = name; type = "string"; format = ""; priority = priority }

abbrev name_column : Column
name_column = record { name = "Name"; type = "string"; format = "name"; priority = 0 }

pub environment_columns : List Column
environment_columns =
    name_column
    ∷ column "Ready" 0
    ∷ column "Status" 0
    ∷ column "Age" 0
    ∷ column "Worker" 1
    ∷ column "Containers" 1
    ∷ column "Password" 1
    ∷ []

pub worker_columns : List Column
worker_columns =
    name_column
    ∷ column "Ready" 0
    ∷ column "Enabled" 0
    ∷ column "Age" 0
    ∷ column "CPU" 1
    ∷ column "Memory" 1
    ∷ column "IPAddress" 1
    ∷ record { name = "Port"; type = "number"; format = ""; priority = 1 }
    ∷ []

-- The loop over the containers: how many there are, and how many are ready.
pub count_ready : ℕ → ℕ → List ContainerStatus → ℕ × ℕ
count_ready total ready [] = (total, ready)
count_ready total ready (c ∷ cs) = count_ready (total + 1) (if c.ready then ready + 1 else ready) cs

-- A nil slice has no elements.
pub elements : Option (List ContainerStatus) → List ContainerStatus
elements none = []
elements (some containers) = containers

pub get_ready : ProblemEnvironment → String
get_ready pe =
    let counted = count_ready 0 0 (elements pe.status.containers) in
    concat (decimal counted.1) (concat "/" (decimal counted.0))

pub get_status : ProblemEnvironment → String
get_status pe =
    let holds : String → Bool = λ type. is_true (get_problem_environment_condition pe type) in
    elim pe.meta.deletion_timestamp [
      | some t ↦ "Deleting"
      | none ↦
          if not (holds condition_scheduled)
          then "Scheduling"
          else if not (holds condition_deployed)
          then "Deploying"
          else if not (holds condition_ready)
          then "Deploying (NotReady)"
          else if not (holds condition_assigned)
          then "Unassigned"
          else "Assigned"
    ]

get_containers : ProblemEnvironment → String
get_containers pe = join "," (
    sort (
      map (λ (c : ContainerStatus). concat c.name (concat ":" c.management_ip_address))
        (elements pe.status.containers)))

pub data Object : Type 0 where
  problem_object problem_list_object other_object : Object
  environment_object : ProblemEnvironment → Object
  environment_list_object : ℕ → List ProblemEnvironment → Object
  worker_object : Worker → Object
  worker_list_object : ℕ → List Worker → Object

-- A table, `ErrUnsupporedType`, or the panic of the objects that are not done yet.
pub data Printed : Type 0 where
  printed : Table → Printed
  unsupported panics : Printed

module _ (age : ℕ → String) where
  translate_timestamp_since : Option ℕ → String
  translate_timestamp_since none = "<unknown>"
  translate_timestamp_since (some t) = age t

  pub environment_row : Bool → ProblemEnvironment → List Cell
  environment_row wide pe =
      let cells : List Cell =
        text pe.meta.name
        ∷ text (get_ready pe)
        ∷ text (get_status pe)
        ∷ text (translate_timestamp_since pe.meta.creation_timestamp)
        ∷ [] in
      if wide
      then cells
        ++ text pe.spec.worker_name ∷ text (get_containers pe) ∷ text pe.status.password ∷ []
      else cells

  pub worker_row : Bool → Worker → List Cell
  worker_row wide worker =
      let info = worker.status.worker_info in
      let cells : List Cell =
        text worker.meta.name
        ∷ flag (is_true (get_worker_condition worker "Ready"))
        ∷ flag (not worker.spec.disable_schedule)
        ∷ text (translate_timestamp_since worker.meta.creation_timestamp)
        ∷ [] in
      if wide
      then cells
        ++ text info.cpu_used_percent
          ∷ text info.memory_used_percent
          ∷ text info.external_ip_address
          ∷ number info.external_port
          ∷ []
      else cells

  -- The table of one object, and of a list, with the resource version that stands on it.
  pub environment_table : Bool → ProblemEnvironment → Table
  environment_table wide pe = record {
    columns = environment_columns;
    resource_version = pe.meta.resource_version;
    rows = environment_row wide pe ∷ [];
  }

  pub environment_list_table : Bool → ℕ → List ProblemEnvironment → Table
  environment_list_table wide resource_version pes = record {
    columns = environment_columns;
    resource_version = resource_version;
    rows = map (environment_row wide) pes;
  }

  pub worker_table : Bool → Worker → Table
  worker_table wide worker = record {
    columns = worker_columns;
    resource_version = worker.meta.resource_version;
    rows = worker_row wide worker ∷ [];
  }

  pub worker_list_table : Bool → ℕ → List Worker → Table
  worker_list_table wide resource_version workers = record {
    columns = worker_columns;
    resource_version = resource_version;
    rows = map (worker_row wide) workers;
  }

  -- `PrintObject`, up to the printer of tables.
  pub print_object : Bool → Object → Printed
  print_object wide problem_object = panics
  print_object wide problem_list_object = panics
  print_object wide (environment_object pe) = printed (environment_table wide pe)
  print_object wide (environment_list_object resource_version pes) =
      printed (environment_list_table wide resource_version pes)
  print_object wide (worker_object worker) = printed (worker_table wide worker)
  print_object wide (worker_list_object resource_version workers) =
      printed (worker_list_table wide resource_version workers)
  print_object wide other_object = unsupported

  -- `GenerateTable`
  pub generate_table : Object → Bool → Printed
  generate_table problem_object wide = panics
  generate_table problem_list_object wide = panics
  generate_table (environment_object pe) wide = printed (environment_table wide pe)
  generate_table (environment_list_object resource_version pes) wide =
      printed (environment_list_table wide resource_version pes)
  generate_table (worker_object worker) wide = panics
  generate_table (worker_list_object resource_version workers) wide = panics
  generate_table other_object wide = unsupported
