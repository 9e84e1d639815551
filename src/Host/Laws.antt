-- ===== src/Host/Laws.antt =====
-- What the driver relies on in the machine: which paths are there, seen by `os.Stat`, and changed by
-- `os.MkdirAll` and `os.RemoveAll` as package os documents it. No other call of the driver removes a
-- path, nor does another process meanwhile.
use netcon_problem_managemen.Prelude.{String, Bool, true, false, List, ok, ◌≡◌}
use netcon_problem_managemen.Host.{Host, H, Network, ConfigMap, ◌>>=◌}

module _ {C : Type 0} (there : String → C → Bool) where
  -- What is at `path` before the call is there after it.
  abbrev pub Keeps : {A : Type 0} → String → H C A → Type 0
  Keeps path call = (c : C) → there path c ≡ true → there path (call c).1 ≡ true

  pub record FileLaws (h : Host C) : Type 0 where
    pub stat_answers : (path : String) (c : C) → (h.stat path c).0 ≡ there path c
    pub stat_same : (path other : String) (c : C) → there other (h.stat path c).1 ≡ there other c
    pub made :
        (path : String) (c : C)
        → (h.mkdir_all path c).0 ≡ ok tt
        → there path (h.mkdir_all path c).1 ≡ true
    pub removed :
        (path : String) (c : C)
        → (h.remove_all path c).0 ≡ ok tt
        → there path (h.remove_all path c).1 ≡ false
    pub mkdir_all : (path other : String) → Keeps path (h.mkdir_all other)
    pub read_file : (path other : String) → Keeps path (h.read_file other)
    pub write_file : (path other text : String) → Keeps path (h.write_file other text)
    pub run :
        (path directory command : String) (args : List String)
        → Keeps path (h.run directory command args)
    pub container_inspect : (path id : String) → Keeps path (h.container_inspect id)
    pub network_inspect : (path name : String) → Keeps path (h.network_inspect name)
    pub network_remove : (path name : String) → Keeps path (h.network_remove name)
    pub network_create :
        (path name : String) (network : Network) → Keeps path (h.network_create name network)
    pub get_config_map :
        (path namespace name : String) → Keeps path (h.get_config_map namespace name)
    pub create_config_map : (path : String) (map : ConfigMap) → Keeps path (h.create_config_map map)

  pub keeps_bind :
      {A B : Type 0} (path : String) (m : H C A) (f : A → H C B)
      → Keeps path m
      → ((a : A) → Keeps path (f a))
      → Keeps path (m >>= f)
  keeps_bind path m f first then_each c at = then_each (m c).0 (m c).1 (first c at)

-- A network that is created is inspected as it was given to docker, and two inspections after one
-- another agree.
pub record NetworkLaws {C : Type 0} (h : Host C) : Type 0 where
  pub created :
      (name : String) (network : Network) (c : C)
      → (h.network_create name network c).0 ≡ ok tt
      → (h.network_inspect name (h.network_create name network c).1).0 ≡ ok network
  pub inspect_again :
      (name : String) (c : C)
      → (h.network_inspect name (h.network_inspect name c).1).0 ≡ (h.network_inspect name c).0
