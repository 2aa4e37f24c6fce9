-- ===== src/Hosts/Tests.antt =====
-- Hosts to which every connection fails, and the theorems of this folder on them.
use xbench_community.Prelude.{ℕ, suc, true, false, none, some, [], ◌∷◌, ◌≡◌, ◌≢◌, refl}
use xbench_community.Exn.{connection_error, value_error}
use xbench_community.Exec.{ok, raise, pure, RaisesOnly}
use xbench_community.Retry.Outcomes.{RaisesOnlyClass}
use xbench_community.Exn.{multi_node_exception, keyboard_interrupt, is_a}
use xbench_community.Ssh.{Asyncssh, SshClient, Options, script, with_connection}
use xbench_community.Ssh.Parallel.{gather, settled}
use xbench_community.Hosts.{Machine, HostNode, System}
use xbench_community.Hosts.Multi.{MultiNode, run_on_one_node, run_on_all_nodes, scp_to_all_nodes}
use xbench_community.Hosts.Raises.{multi_node-raises, scp_to_all_nodes_lem}

abbrev dead_network : Asyncssh ℕ
dead_network = record {
  connect = λ c s. (raise connection_error, suc s);
  close = λ conn s. s;
  conn_run = λ conn cmd timeout s. (raise connection_error, s);
  scp_to = λ conn local remote recursive s. (raise connection_error, s);
  scp_from = λ conn remote local recursive s. (raise connection_error, s);
  sftp_put = λ conn local remote s. (raise connection_error, s);
  now = λ s. 0;
  sleep = λ d s. s;
  run_delays = 1 ∷ 2 ∷ [];
  scp_delays = 1 ∷ 2 ∷ 3 ∷ [];
}

abbrev system : System ℕ
system = record {
  ssh = dead_network;
  int_of = λ s. raise value_error;
  temp_file = λ s. pure "/tmp/t";
  unlink = λ s. pure tt;
  read_file = λ s. pure "";
  path_join = λ a b. b;
  json_of = λ t. "{}";
  pem_dir = "/pem";
  xbench_home = "/xbench";
  metrics = record { remote_target_path = "/targets"; ssh_client = none };
}

abbrev host_a : SshClient
host_a = record { hostname = "10.0.0.1"; port = 22; username = "root"; key_file = none }

abbrev machine_a : Machine
machine_a = record {
  vm = record {
    env = "e";
    name = "backend_0";
    role = "backend";
    klass = "backend.Xpand";
    zone = "z";
    os_type = "CentOS7";
    managed = true;
    provisioned = true;
    storage = none;
    storage_list = [];
    network = record {
      cloud_type = "public_cloud";
      private_ip = "10.0.0.1";
      public_ip = "1.2.3.4";
    };
    id = none;
  };
  cloud = "aws";
  cluster_name = "c";
  instance_type = "t";
  ssh_user = "root";
  key_file = "k";
  disable_network_security = true;
}

abbrev node_a : HostNode
node_a = record { machine = machine_a; clients = some (record { os_type = "CentOS7" }, host_a) }

abbrev one_node : MultiNode
one_node = record { nodes = node_a ∷ []; pssh = record { pssh_clients = host_a ∷ [] } }

abbrev options : Options
options = record { timeout = 60; sudo = true; ignore_errors = false; user = none }

multi_node-raises_example :
    RaisesOnlyClass multi_node_exception
      (run_on_one_node system (λ cmd arg. ok cmd) one_node (script "ls") options 0).0
    × RaisesOnlyClass multi_node_exception
        (run_on_all_nodes system (λ cmd arg. ok cmd) one_node (script "ls") none options 0).0
multi_node-raises_example =
    multi_node-raises system (λ cmd arg. ok cmd) one_node (script "ls") none options 0 some_node
  where
    some_node : (node_a ∷ []) ≢ []
    some_node h = cc

scp_to_all_nodes_example :
    RaisesOnly
      (λ e. e ≡ keyboard_interrupt)
      (scp_to_all_nodes system (λ cmd arg. ok cmd) one_node "x" "y" false 0).0
    × ((scp_to_all_nodes system (λ cmd arg. ok cmd) one_node "x" "y" false 0).1 ≡ 1)
unfolding gather settled with_connection is_a
scp_to_all_nodes_example =
    scp_to_all_nodes_lem system (λ cmd arg. ok cmd) one_node "x" "y" false 1 (2 ∷ 3 ∷ []) 0 refl
