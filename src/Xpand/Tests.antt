-- ===== src/Xpand/Tests.antt =====
-- Small inputs for the Xpand backend, and the theorems of this folder on them.
use xbench_community.Prelude.{
  ◌+◌, ◌-◌, ◌*◌, ◌/◌, ◌%◌, ◌≤◌, String, true, none, List, [], ◌∷◌, ◌++◌, Dict, lookup, insert, ◌≡◌,
  refl, length, ◌↔◌, if◌then◌else◌,
}
use xbench_community.Exec.{ok, pure, for_each}
use xbench_community.Cluster.{Node}
use xbench_community.Xpand.{
  Statement, set_slices, alter_zone, reform, XpandDb, number_zones, set_zones, set_globals,
  check_quorum, round_down_to_even, clxnode_mem, max_redo_limit_pct, zone_unique_str, assign_zone,
  get_nodeid_by_ip, find_nodeid, zone_number,
}
use xbench_community.Xpand.Zones.{IsNumbering, AreNumbered, number_zones-IsNumbering}
use xbench_community.Xpand.Quorum.{check_quorum_iff}
use xbench_community.Xpand.Sizes.{clxnode_mem_lem}
use xbench_community.Xpand.Globals.{run_all, settings, has_slices, set_globals_lem}

abbrev node : String → String → String → Node
node name zone ip = record {
  vm = record {
    env = "env_0";
    name = name;
    role = "xpand";
    klass = "backend.Xpand";
    zone = zone;
    os_type = "CentOS7";
    managed = true;
    provisioned = true;
    storage = none;
    storage_list = [];
    network = record { cloud_type = "public_cloud"; private_ip = ip; public_ip = "1.2.3.4" };
    id = none;
  };
}

abbrev nodes : List Node
nodes = node "x0" "2a" "10.0.0.1" ∷ node "x1" "2b" "10.0.0.2" ∷ node "x2" "2a" "10.0.0.3" ∷ []

abbrev Log : Type 0
Log = List Statement

abbrev append : Statement → Log → Log
append x log = log ++ x ∷ []

-- A database that records the statements, with `n` nodes in quorum.
abbrev recorder : List (Dict String) → XpandDb Log
recorder rows = record {
  execute = λ x log. (ok tt, append x log);
  quorum_rows = λ log. (ok rows, log);
  get_zone_info = λ log. (
    ok (
        record { nodeid = 1; be_ip = "10.0.0.1"; zone = 0 }
        ∷ record { nodeid = 2; be_ip = "10.0.0.2"; zone = 0 }
        ∷ record { nodeid = 3; be_ip = "10.0.0.3"; zone = 0 }
        ∷ []),
    log,
  );
}

abbrev in_quorum : List (Dict String)
in_quorum = [] ∷ [] ∷ [] ∷ []

number_zones-IsNumbering_example :
    IsNumbering (number_zones [] 1 nodes) (length (number_zones [] 1 nodes) + 1)
    × AreNumbered (number_zones [] 1 nodes) nodes
number_zones-IsNumbering_example = number_zones-IsNumbering nodes

set_zones_run :
    set_zones (recorder in_quorum) nodes []
    ≡ (ok tt, alter_zone 1 1 ∷ alter_zone 2 2 ∷ alter_zone 3 1 ∷ reform ∷ [])
unfolding set_zones assign_zone get_nodeid_by_ip find_nodeid zone_number number_zones
    zone_unique_str lookup insert for_each
set_zones_run = refl

check_quorum_iff_example :
    ((check_quorum (recorder in_quorum) nodes []).0 ≡ ok tt) ↔ (length in_quorum ≡ length nodes)
check_quorum_iff_example =
    check_quorum_iff (recorder in_quorum) nodes in_quorum [] [] refl (λ t. tt)

clxnode_mem_example :
    (100 ≤ 4096 * max_redo_limit_pct / 100)
    × ((2766 + 100) % 2 ≡ 0)
    × (2766 + 100 ≤ 4096 * 70 / 100)
unfolding clxnode_mem round_down_to_even
clxnode_mem_example = clxnode_mem_lem 4096 70 100 100 2766 refl

set_globals_example : set_globals (recorder []) (("max_redo", "100") ∷ []) (pure 4) 3 [] ≡ (
  ok tt,
  run_all append
      (settings (("max_redo", "100") ∷ [])
        ++ (if has_slices (("max_redo", "100") ∷ []) then [] else set_slices (4 * 3 - 3) ∷ []))
      [],
)
set_globals_example =
    set_globals_lem (recorder []) append (("max_redo", "100") ∷ []) (pure 4) 4 3 [] (λ x t. refl)
      (λ t. refl)
