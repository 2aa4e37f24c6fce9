-- ===== src/Provisioning/Tests.antt =====
-- Clouds that are lists of machines, and the theorems of this folder on them.
use Prim.Native.Char.{Char}
use xbench_community.Prelude.{
  ℕ, String, Bool, true, false, Option, some, none, List, [], ◌∷◌, lookup, ◌≡◌, refl, if◌then◌else◌,
}
use xbench_community.Exn.{Exn, xbench_exception, cloud_compute_exception}
use xbench_community.Exec.{Result, ok, raise, pure, throw, ◌>>=?◌}
use xbench_community.Config.{str, dict, end, entry}
use xbench_community.Cluster.{Node, not_ready, failed}
use xbench_community.Provisioning.{
  EnvironmentComponents, ClusterFile, Fleet, World, save_nodes, get_component_params,
}
use xbench_community.Provisioning.Allocate.{has_missing, member_of, save_nodes_lem}
use xbench_community.Provisioning.Clean.{Teardown, clean, clean-file}

abbrev node : Node
node = record {
  vm = record {
    env = "env_0";
    name = "driver-0";
    role = "driver";
    klass = "driver.Sysbench";
    zone = "2a";
    os_type = "CentOS7";
    managed = true;
    provisioned = true;
    storage = none;
    storage_list = [];
    network = record {
      cloud_type = "public_cloud";
      private_ip = "10.0.0.1";
      public_ip = "1.2.3.4";
    };
    id = none;
  };
}

abbrev environment : EnvironmentComponents
environment = record {
  env = record { name = "env_0"; cloud = "aws"; cloud_klass = str "aws"; region = "us-west-2" };
  region_config = end;
  components = ("driver", entry "count" (str "1") end) ∷ [];
  shared_storage = [];
}

abbrev cluster : ClusterFile
cluster = record {
  envs = environment.env ∷ [];
  members = ("driver-0", node) ∷ [];
  topo_map = ("driver", "driver-0") ∷ [];
  state = not_ready;
  shared_storage = [];
}

-- A disk with room on it.
abbrev written : {W : Type 0} → ClusterFile → W → Option (Exn × Option (Result ClusterFile))
written c w = none

abbrev fleet : Bool → Fleet (List String)
fleet running = record {
  is_running = λ e. pure running;
  launch_storage = λ e l. pure l;
  launch = λ e l. throw cloud_compute_exception;
  launch_ephemeral = λ e l. pure [];
  write = written;
}

abbrev no_digit : Char → Bool
no_digit c = false

abbrev no_file : World (Unit {0})
no_file = record { cluster_file = none; cloud = tt }

save_nodes_example :
    (saved : ClusterFile) × ((name : String)
      → lookup name saved.members
        ≡ member_of name (some node ∷ none ∷ []) (lookup name cluster.members))
    × (has_missing (some node ∷ none ∷ []) ≡ true → saved.state ≡ failed)
    × (written saved tt ≡ none
        → save_nodes written cluster (some node ∷ none ∷ []) no_file ≡ (
          if has_missing (some node ∷ none ∷ []) then raise xbench_exception else ok saved,
          record no_file { cluster_file = some (ok saved) },
        ))
    × ((e : Exn) (left : Option (Result ClusterFile))
        → written saved tt ≡ some (e, left)
        → save_nodes written cluster (some node ∷ none ∷ []) no_file
          ≡ (raise e, record no_file { cluster_file = left }))
save_nodes_example = save_nodes_lem written cluster (some node ∷ none ∷ []) no_file

abbrev zero_digit : ℕ → String
zero_digit n = "0"

abbrev two_components : EnvironmentComponents
two_components = record environment {
  components =
      ("driver", entry "count" (str "1") end) ∷ ("xpand", entry "count" (str "1") end) ∷ [];
}

-- The count of a component that is in the environment; any other raises XbenchException.
abbrev count_of : String → Result ℕ
count_of c = get_component_params c (two_components ∷ []) >>=? λ d. ok 1

abbrev names : List String
names = "driver" ∷ "xpand" ∷ "xpand" ∷ []

count_of_unknown : count_of "proxy" ≡ raise xbench_exception
unfolding get_component_params lookup
count_of_unknown = refl

abbrev teardown : Teardown (List String)
teardown = record {
  load_cloud = λ c. pure (entry "us-west-2" (dict end) end);
  deregister_cluster = λ r. pure tt;
  is_persistent = λ c. true;
  clean_instances = λ l. pure tt;
  terminate_instances = λ c r l s. (ok tt, []);
  terminate_storage = λ c r l. pure tt;
  write = written;
}

abbrev world : World (List String)
world = record { cluster_file = none; cloud = "vm-1" ∷ [] }

clean-file_example :
    (written cluster world.cloud ≡ none
      → ((clean teardown false cluster [] world).0 ≡ ok tt
          → (clean teardown false cluster [] world).1.cluster_file ≡ none)
        × ((e : Exn)
            → (clean teardown false cluster [] world).0 ≡ raise e
            → (clean teardown false cluster [] world).1.cluster_file ≡ some (ok cluster)))
    × ((e : Exn) (left : Option (Result ClusterFile))
        → written cluster world.cloud ≡ some (e, left)
        → clean teardown false cluster [] world ≡ (raise e, record world { cluster_file = left }))
clean-file_example = clean-file teardown false cluster [] world
