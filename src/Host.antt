-- ===== src/Host.antt =====
-- The machine of a Worker, as a parameter: its files (package os), its commands (os/exec), docker, and
-- the ConfigMaps of the cluster, all over one `C`, as the client of `Kube` is. Every call answers and
-- changes `C`, and so may other processes meanwhile.
pub mod Laws
use netcon_problem_managemen.Prelude.{ℕ, String, Bool, Option, List, Result}
use netcon_problem_managemen.Api.{Labels, OwnerReference}
use netcon_problem_managemen.Kube.{ApiError}

-- What a command leaves: its outputs, and the error of `Run`, if any.
pub record Output : Type 0 where
  pub stdout : String
  pub stderr : String
  pub error : Option ApiError

-- docker's `State` and `Name` of a container: `health` is `none` where it has no health check.
pub record ContainerInfo : Type 0 where
  pub name : String
  pub running : Bool
  pub health : Option String

-- A docker network, as far as the program looks into it: the subnets with their gateways.
pub record Network : Type 0 where
  pub driver : String
  pub ipam_driver : String
  pub configs : List (String × String)

-- core/v1 ConfigMap
pub record ConfigMap : Type 0 where
  pub namespace : String
  pub name : String
  pub content : Labels
  pub owners : List OwnerReference

-- A call that answers with an `A`.
abbrev pub H : Type 0 → Type 0 → Type 0
H C A = C → A × C

pub record Host (C : Type 0) : Type 0 where
  -- `os.Stat` without an error.
  pub stat : String → H C Bool
  pub mkdir_all : String → H C (Result ApiError (Unit {0}))
  pub read_file : String → H C (Result ApiError String)
  pub write_file : String → String → H C (Result ApiError (Unit {0}))
  pub remove_all : String → H C (Result ApiError (Unit {0}))
  -- A command with its arguments, in a directory.
  pub run : String → String → List String → H C Output
  pub container_inspect : String → H C (Result ApiError ContainerInfo)
  pub network_inspect : String → H C (Result ApiError Network)
  pub network_remove : String → H C (Result ApiError (Unit {0}))
  pub network_create : String → Network → H C (Result ApiError (Unit {0}))
  pub get_config_map : String → String → H C (Result ApiError Labels)
  pub create_config_map : ConfigMap → H C (Result ApiError (Unit {0}))

module _ {C : Type 0} where
  abbrev pub pure {ℓ} : {A : Type ℓ} → A → C → A × C
  pure a c = (a, c)

  infixl 5 ◌>>=◌
  abbrev pub ◌>>=◌ : {A B : Type 0} → H C A → (A → H C B) → H C B
  ◌>>=◌ m f c = f (m c).0 (m c).1
