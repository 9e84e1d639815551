-- ===== src/Nclet/Drivers/Network.antt =====
-- drivers/containerlab.go: the management network.
pub mod Desired
use netcon_problem_managemen.Prelude.{
  String, Bool, true, false, not, ◌||◌, List, [], ◌∷◌, ◌==◌, Result, ok, err, if◌then◌else◌,
}
use netcon_problem_managemen.Kube.{ApiError, not_found, failed}
use netcon_problem_managemen.Host.{Host, H, Network, pure, ◌>>=◌}

pub check_configs : List (String × String) → Bool
check_configs ((subnet, gateway) ∷ []) =
    if not (subnet == "100.64.0.0/10") || not (gateway == "100.64.0.1") then false else true
check_configs _ = false

pub check_management_network : Network → Bool
unfolding check_configs
check_management_network network =
    if not (network.driver == "bridge")
    then false
    else if not (network.ipam_driver == "default")
    then false
    else check_configs network.configs

-- The network that is created.
abbrev pub management_network : Network
management_network = record {
  driver = "bridge";
  ipam_driver = "default";
  configs = ("100.64.0.0/10", "100.64.0.1") ∷ [];
}

module _ {C : Type 0} (h : Host C) where
  unfoldable pub ensure_management_network : H C (Result ApiError (Unit {0}))
  ensure_management_network =
      let create = h.network_create "nc-mgmt" management_network in
      (do
        inspected ← h.network_inspect "nc-mgmt"
        elim inspected [
          | err (failed e) ↦ pure (err (failed e))
          | err not_found ↦ create
          | ok network ↦ if check_management_network network then pure (ok tt) else (do
            removed ← h.network_remove "nc-mgmt"
            elim removed [ err e ↦ pure (err e) | ok _ ↦ create ])
        ])
