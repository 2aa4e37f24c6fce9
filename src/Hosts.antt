-- ===== src/Hosts.antt =====
-- compute/node.py, metrics/server.py and metrics/metrics_target.py: a machine that is reached by
-- ssh, and the server to which it announces its metrics. A command of several lines stands as the
-- list of its lines without their indentation.
pub mod Metrics
pub mod Setup
pub mod Multi
pub mod Raises
mod Tests
use xbench_community.Prelude.{
  ℕ, String, Bool, true, false, ◌&&◌, Option, none, some, List, [], ◌∷◌, str_eq, split_on,
  without_char, concat, join, ◌++◌, if◌then◌else◌,
}
use xbench_community.Exn.{
  Exn, is_a, attribute_error, index_error, os_error, not_implemented_error, node_exception,
  ssh_client_exception, ssh_client_timeout_exception,
}
use xbench_community.Exec.{
  Result, ok, raise, Exec, pure, throw, lift, ◌>>=◌, ◌>>◌, try_except, convert, for_each, ◌>>=?◌,
}
use xbench_community.Retry.{Policy, backoff, retry}
use xbench_community.Cluster.{VirtualMachine, get_client_iface}
use xbench_community.Xpand.{round_down_to_even}
use xbench_community.Yum.{
  Yum, centos7, new_yum, install_epel_command, install_pkg_cmd, install_local_pkg_cmd,
  remove_pkg_cmd, version_number,
}
use xbench_community.Ssh.{
  SshClient, Asyncssh, Command, script, commands, Options, run as ssh_run, send_files,
}

-- The rest of cloud/virtual_machine.py that a node reads.
pub record Machine : Type 0 where
  pub vm : VirtualMachine
  pub cloud : String
  pub cluster_name : String
  pub instance_type : String
  pub ssh_user : String
  pub key_file : String
  pub disable_network_security : Bool

pub record Labels : Type 0 where
  pub cloud : String
  pub cluster_name : String
  pub zone : String
  pub machine_type : String
  pub role : String
  pub name : String

unfoldable pub labels : Machine → Labels
labels m = record {
  cloud = m.cloud;
  cluster_name = m.cluster_name;
  zone = m.vm.zone;
  machine_type = m.instance_type;
  role = m.vm.role;
  name = m.vm.name;
}

-- metrics/metrics_target.py
pub record MetricsTarget : Type 0 where
  pub service_name : String
  pub labels : Labels
  pub hostname : String
  pub port : ℕ

unfoldable pub target_name : MetricsTarget → String
unfolding concat
target_name t =
    concat
      (t.labels.cluster_name ∷ "-" ∷ t.labels.name ∷ "-" ∷ t.service_name ∷ "-exporter.json" ∷ [])

pub record MetricsServer : Type 0 where
  pub remote_target_path : String
  pub ssh_client : Option SshClient

-- A node that is not managed has neither a package manager nor an ssh client.
pub record HostNode : Type 0 where
  pub machine : Machine
  pub clients : Option (Yum × SshClient)

-- The package asyncssh, Python's `int` of a text, the files of the local machine, the json of a
-- target, and the settings of the program.
pub record System (S : Type 0) : Type 0 where
  pub ssh : Asyncssh S
  pub int_of : String → Result ℕ
  pub temp_file : String → Exec S String
  pub unlink : String → Exec S (Unit {0})
  pub read_file : String → Exec S String
  pub path_join : String → String → String
  pub json_of : MetricsTarget → String
  pub pem_dir : String
  pub xbench_home : String
  pub metrics : MetricsServer

unfoldable pub last_part : String → List String → String
last_part s [] = s
last_part s (t ∷ ts) = last_part t ts

-- `os.path.basename`
unfoldable pub basename : String → String
unfolding last_part split_on
basename s = let (part, parts) = split_on 47 s in last_part part parts

abbrev pub base_packages : List String
base_packages =
    "irqbalance" ∷ "mdadm" ∷ "wget" ∷ "screen" ∷ "bzip2" ∷ "vim" ∷ "lbzip2" ∷ "chrony" ∷ "htop"
    ∷ "git" ∷ "sysstat" ∷ "sshpass" ∷ "lsof" ∷ []

abbrev pub ne_package_name : String
ne_package_name = "golang-github-prometheus-node-exporter"

abbrev pub ne_package_rpm : String
ne_package_rpm = "golang-github-prometheus-node-exporter-1.2.2-1.el7.x86_64.rpm"

abbrev pub ne_port : ℕ
ne_port = 9100

abbrev pub node_policy : Policy
node_policy = record {
  exceptions_to_check = ssh_client_exception ∷ ssh_client_timeout_exception ∷ [];
  exception_to_raise = node_exception;
  max_delay = 600;
  delays = backoff 10 3;
}

abbrev pub sudo_for : ℕ → Options
sudo_for timeout = record { timeout = timeout; sudo = true; ignore_errors = false; user = none }

abbrev pub plain_for : ℕ → Options
plain_for timeout = record { timeout = timeout; sudo = false; ignore_errors = false; user = none }

abbrev pub sudo_ignoring : ℕ → Options
sudo_ignoring timeout = record { timeout = timeout; sudo = true; ignore_errors = true; user = none }

unfoldable pub disable_network_lines : Bool → List String
disable_network_lines really =
    if really
    then "chkconfig iptables off || true" ∷ "systemctl iptables stop || true"
      ∷ "systemctl disable firewalld || true" ∷ "systemctl stop firewalld || true" ∷ []
    else []

-- The clients that `__init__` makes.
unfoldable pub new_node : Machine → Result HostNode
new_node m =
    if m.vm.managed
    then elim (new_yum m.vm.os_type) [
      | raise e ↦ if is_a e not_implemented_error then raise node_exception else raise e
      | ok y ↦ ok (record {
        machine = m;
        clients = some (
          y,
          record {
            hostname = m.vm.network.public_ip;
            port = 22;
            username = m.ssh_user;
            key_file = some m.key_file;
          },
        );
      })
    ]
    else ok (record { machine = m; clients = none })

-- `self.yum` and `self.ssh_client`
unfoldable pub clients_of : HostNode → Result (Yum × SshClient)
clients_of n = elim n.clients [ none ↦ raise attribute_error | some c ↦ ok c ]

module _ {S : Type 0} (sys : System S) where
  unfoldable pub unsafe_run : HostNode → Command → Options → Exec S String
  unfolding clients_of
  unsafe_run n cmd o = lift (clients_of n) >>= λ c. ssh_run sys.ssh c.1 cmd o

  unfoldable pub run : HostNode → Command → Options → Exec S String
  unfolding unsafe_run
  run n cmd o = retry sys.ssh.now sys.ssh.sleep node_policy (unsafe_run n cmd o)

  -- A call of `run` whose output is not used.
  unfoldable pub run_only : HostNode → Command → Options → Exec S (Unit {0})
  unfolding run
  run_only n cmd o = run n cmd o >>= λ output. pure tt
