-- ===== src/Nclet/Drivers/Containerlab/Examples.antt =====
-- The statuses of two containers.
use netcon_problem_managemen.Prelude.{true, false, some, ◌≡◌, refl}
use netcon_problem_managemen.Crypto.{rune_count}
use netcon_problem_managemen.Clab.{ContainerDetails}
use netcon_problem_managemen.Nclet.Drivers.Containerlab.{delete_all, ready_of, status_of}

abbrev details : ContainerDetails
details = record {
  lab_name = "env";
  lab_path = "";
  name = "clab-env-r1";
  container_id = "0123";
  image = "frr";
  kind = "linux";
  state = "running";
  ipv4_address = "100.64.0.2/10";
  ipv6_address = "";
}

prefix_removed : (status_of "clab-env-" details).name ≡ "r1"
unfolding status_of delete_all rune_count
prefix_removed = refl

every_prefix_removed : delete_all "ab" 0 "abcabab" ≡ "c"
unfolding delete_all rune_count
every_prefix_removed = refl

unhealthy : ready_of (record { name = "r1"; running = true; health = some "starting" }) ≡ false
unfolding ready_of
unhealthy = refl
