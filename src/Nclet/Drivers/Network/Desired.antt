-- ===== src/Nclet/Drivers/Network/Desired.antt =====
-- What the driver makes of the management network.
use netcon_problem_managemen.Prelude.{
  ◌≡◌, inl, inr, refl, true, ok, Result-cases, Bool-cases, arith,
}
use netcon_problem_managemen.Kube.{not_found, failed}
use netcon_problem_managemen.Host.{Host, Network}
use netcon_problem_managemen.Host.Laws.{NetworkLaws}
use netcon_problem_managemen.Nclet.Drivers.Network.{
  check_configs, check_management_network, management_network, ensure_management_network,
}

desired : check_management_network management_network ≡ true
unfolding check_management_network check_configs
desired = refl

module _ {C : Type 0} (h : Host C) (laws : NetworkLaws h) where
  -- Where the driver sees to the management network without an error, docker has the network
  -- afterwards, as it is wanted. Docker keeps the laws of networks.
  ensure_management_network_ok :
      (c : C)
      → (ensure_management_network h c).0 ≡ ok tt
      → (network : Network) × ((h.network_inspect "nc-mgmt" (ensure_management_network h c).1).0
          ≡ ok network)
        × (check_management_network network ≡ true)
  unfolding ensure_management_network
  ensure_management_network_ok c done =
      let c1 : C = (h.network_inspect "nc-mgmt" c).1 in
      let c2 : C = (h.network_remove "nc-mgmt" c1).1 in
      elim (Result-cases (h.network_inspect "nc-mgmt" c).0) [
        | inr (failed e, bad) ↦ absurd (ground arith)
        | inr (not_found, missing) ↦ (
          management_network,
          ground (arith, laws.created "nc-mgmt" management_network c1),
          desired,
        )
        | inl (network, got) ↦ elim (Bool-cases (check_management_network network)) [
          | inl wanted ↦ (network, ground (arith, laws.inspect_again "nc-mgmt" c), wanted)
          | inr unwanted ↦ elim (Result-cases (h.network_remove "nc-mgmt" c1).0) [
            | inr (e, bad) ↦ absurd (ground arith)
            | inl (tt, removed) ↦ (
              management_network,
              ground (arith, laws.created "nc-mgmt" management_network c2),
              desired,
            )
          ]
        ]
      ]
