-- ===== src/Cluster/Tests.antt =====
-- A small cluster, and the theorems of this folder on it.
use xbench_community.Prelude.{
  String, Bool, true, some, none, List, [], ◌∷◌, Dict, lookup, ◌≡◌, refl, split_on, leb, ◌&&◌,
  str_eq, insert,
}
use Prim.Native.Char.{Char, code}
use xbench_community.Exn.{attribute_error}
use xbench_community.Exec.{Result, ok, raise}
use xbench_community.Cluster.{
  VirtualNetwork, Node, TreeNode, Instance, unique_nodes, get_backend_nodes, remove_numbers,
  group_nodes_by_name, placed_names, add_instances, add_instance,
}
use xbench_community.Cluster.{is_in}
use xbench_community.Cluster.Unique.{IsDistinct, names, unique_nodes_lem}
use xbench_community.Cluster.Groups.{entry_of, of_role, group_nodes_by_name_lem}

abbrev here : VirtualNetwork
here = record { cloud_type = "public_cloud"; private_ip = "10.0.0.1"; public_ip = "1.2.3.4" }

abbrev node : String → String → String → Node
node name role klass = record {
  vm = record {
    env = "env_0";
    name = name;
    role = role;
    klass = klass;
    zone = "2a";
    os_type = "CentOS7";
    managed = true;
    provisioned = true;
    storage = none;
    storage_list = [];
    network = here;
    id = none;
  };
}

abbrev x0 : Node
x0 = node "xpand-0" "xpand" "backend.Xpand"

abbrev x1 : Node
x1 = node "xpand-1" "xpand" "backend.Xpand"

abbrev members : Dict Node
members = ("xpand-0", x0) ∷ ("xpand-1", x1) ∷ []

abbrev tree : List (List TreeNode)
tree =
    (record { name = "cluster"; parent = "" } ∷ [])
    ∷ (record { name = "xpand-0,xpand-1"; parent = "cluster" }
        ∷ record { name = "xpand-0,xpand-1"; parent = "cluster" }
        ∷ [])
    ∷ []

abbrev all_clustered : String → Result Bool
all_clustered klass = ok true

group_nodes_by_name_example :
    (d : Dict Instance) × (group_nodes_by_name members all_clustered tree ≡ ok d)
    × ((role : String)
        → lookup role d
          ≡ entry_of (of_role role ((x0, "xpand-0,xpand-1") ∷ (x1, "xpand-0,xpand-1") ∷ [])))
unfolding placed_names unique_nodes split_on lookup
group_nodes_by_name_example =
    group_nodes_by_name_lem members all_clustered tree
      ((x0, "xpand-0,xpand-1") ∷ (x1, "xpand-0,xpand-1") ∷ [])
      (refl, refl, refl, (refl, refl, refl, tt))

backends_run : get_backend_nodes members tree ≡ ok (some x0 ∷ some x1 ∷ [])
unfolding get_backend_nodes unique_nodes split_on lookup
backends_run = refl

abbrev ascii_digit : Char → Bool
ascii_digit c = leb b'0' (code c) && leb (code c) b'9'

remove_numbers_runs : remove_numbers ascii_digit "driver1_0" ≡ "driver"
unfolding remove_numbers
remove_numbers_runs = refl

-- A single node and a clustered one under one label.
mixed_labels :
    group_nodes_by_name
      (("a", node "a" "a" "driver.Sysbench") ∷ ("b", node "b" "a" "backend.Xpand") ∷ [])
      (λ k. ok (str_eq k "backend.Xpand"))
      ((record { name = "cluster"; parent = "" } ∷ [])
        ∷ (record { name = "a"; parent = "cluster" }
            ∷ record { name = "b"; parent = "cluster" }
            ∷ [])
        ∷ [])
    ≡ raise attribute_error
unfolding group_nodes_by_name add_instances add_instance placed_names unique_nodes split_on lookup
    insert
mixed_labels = refl

abbrev doubled : List TreeNode
doubled =
    record { name = "proxy"; parent = "driver" } ∷ record { name = "proxy"; parent = "app" } ∷ []

unique_nodes_example :
    IsDistinct [] (names (unique_nodes doubled))
    × ((name : String) → is_in name (names (unique_nodes doubled)) ≡ is_in name (names doubled))
unique_nodes_example = unique_nodes_lem doubled
