-- ===== src/Api.antt =====
-- api/v1alpha1: the resources Problem, ProblemEnvironment and Worker (`*_types.go`), with the parts
-- of the Kubernetes types that the program reads or writes. A nil slice or map is `none` where the
-- program or its comparisons can tell it from an empty one. Times are seconds.
use netcon_problem_managemen.Prelude.{ℕ, String, Bool, Option, List}
use netcon_problem_managemen.Prelude.Int.{ℤ}

-- metav1.ConditionStatus
pub data ConditionStatus : Type 0 where
  condition_true condition_false condition_unknown : ConditionStatus

-- metav1.Condition
pub record Condition : Type 0 where
  pub type : String
  pub status : ConditionStatus
  pub observed_generation : ℕ
  pub last_transition_time : ℕ
  pub reason : String
  pub message : String

-- metav1.OwnerReference, as far as the program looks into it.
pub record OwnerReference : Type 0 where
  pub kind : String
  pub name : String
  pub controller : Bool

-- A Go map with text keys and values.
abbrev pub Labels : Type 0
Labels = List (String × String)

-- metav1.ObjectMeta, as far as the program looks into it.
pub record ObjectMeta : Type 0 where
  pub name : String
  pub generate_name : String
  pub namespace : String
  pub labels : Option Labels
  pub annotations : Option Labels
  pub generation : ℕ
  pub resource_version : ℕ
  pub creation_timestamp : Option ℕ
  pub deletion_timestamp : Option ℕ
  pub finalizers : List String
  pub owner_references : List OwnerReference

-- metav1.LabelSelector is opaque: a text that determines it. Only the election's parameter reads it.
abbrev pub LabelSelector : Type 0
LabelSelector = String

pub record ConfigMapFileSource : Type 0 where
  pub key : String
  pub name : String

pub record FileSource : Type 0 where
  pub config_map_ref : ConfigMapFileSource

pub record ContainerStatus : Type 0 where
  pub name : String
  pub image : String
  pub container_id : String
  pub container_name : String
  pub ready : Bool
  pub management_ip_address : String

abbrev pub condition_scheduled : String
condition_scheduled = "Scheduled"

abbrev pub condition_deployed : String
condition_deployed = "Deployed"

abbrev pub condition_ready : String
condition_ready = "Ready"

abbrev pub condition_assigned : String
condition_assigned = "Assigned"

abbrev pub event_scheduled : String
event_scheduled = "Scheduled"

abbrev pub event_deploying : String
event_deploying = "Deploying"

abbrev pub event_deployed : String
event_deployed = "Deployed"

abbrev pub event_assigned : String
event_assigned = "Assigned"

abbrev pub event_ready : String
event_ready = "Ready"

abbrev pub event_not_ready : String
event_not_ready = "NotReady"

pub record ProblemEnvironmentSpec : Type 0 where
  pub topology_file : FileSource
  pub config_files : List FileSource
  pub worker_name : String
  pub worker_selectors : Option (List LabelSelector)

pub record ProblemEnvironmentStatus : Type 0 where
  pub containers : Option (List ContainerStatus)
  pub password : String
  pub conditions : List Condition

pub record ProblemEnvironment : Type 0 where
  pub meta : ObjectMeta
  pub spec : ProblemEnvironmentSpec
  pub status : ProblemEnvironmentStatus

-- `Template` is a pointer; the API server requires it, and the program dereferences it unchecked.
pub record ProblemEnvironmentTemplate : Type 0 where
  pub meta : ObjectMeta
  pub spec : ProblemEnvironmentSpec

pub record ProblemSpec : Type 0 where
  pub template : ProblemEnvironmentTemplate
  pub assignable_replicas : ℤ

pub record ProblemReplicas : Type 0 where
  pub total : ℕ
  pub scheduled : ℕ
  pub assignable : ℕ
  pub assigned : ℕ

pub record ProblemStatus : Type 0 where
  pub replicas : ProblemReplicas

pub record Problem : Type 0 where
  pub meta : ObjectMeta
  pub spec : ProblemSpec
  pub status : ProblemStatus

abbrev pub worker_condition_ready : String
worker_condition_ready = "Ready"

abbrev pub worker_event_ready : String
worker_event_ready = "Ready"

abbrev pub worker_event_not_ready : String
worker_event_not_ready = "NotReady"

pub record WorkerSpec : Type 0 where
  pub disable_schedule : Bool

pub record WorkerInfo : Type 0 where
  pub external_ip_address : String
  pub external_port : ℕ
  pub hostname : String
  pub memory_used_percent : String
  pub cpu_used_percent : String

pub record WorkerStatus : Type 0 where
  pub worker_info : WorkerInfo
  pub conditions : List Condition

pub record Worker : Type 0 where
  pub meta : ObjectMeta
  pub spec : WorkerSpec
  pub status : WorkerStatus
