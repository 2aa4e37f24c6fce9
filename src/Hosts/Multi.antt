-- ===== src/Hosts/Multi.antt =====
-- compute/multi_node.py: several nodes together. The head node's user is that of every host.
use xbench_community.Prelude.{ℕ, String, Bool, Option, some, List, [], ◌∷◌, length, map}
use xbench_community.Exn.{
  is_a, index_error, node_exception, multi_node_exception, ssh_client_exception,
  ssh_client_timeout_exception, pssh_client_exception,
}
use xbench_community.Exec.{Result, ok, raise, Exec, try_except, convert, ◌>>=?◌}
use xbench_community.Retry.{Policy, backoff, retry}
use xbench_community.Cluster.{get_client_iface}
use xbench_community.Ssh.{Answer, Command, Options}
use xbench_community.Ssh.Parallel.{PsshClient, new_pssh_client, run as run_pssh, send_files}
use xbench_community.Hosts.{HostNode, System, run}

pub record MultiNode : Type 0 where
  pub nodes : List HostNode
  pub pssh : PsshClient

unfoldable pub num_nodes : MultiNode → ℕ
num_nodes m = length m.nodes

-- `self.nodes[0]`
unfoldable pub head_of : List HostNode → Result HostNode
head_of [] = raise index_error
head_of (n ∷ nodes) = ok n

unfoldable pub all_public_ips : List HostNode → List String
all_public_ips nodes = map (λ n. n.machine.vm.network.public_ip) nodes

unfoldable pub all_client_ips : List HostNode → List String
all_client_ips nodes = map (λ n. get_client_iface n.machine.vm.network) nodes

unfoldable pub all_private_ips : List HostNode → List String
all_private_ips nodes = map (λ n. n.machine.vm.network.private_ip) nodes

-- `__init__`, with the path of xbench.pem
unfoldable pub new_multi_node : String → List HostNode → Result MultiNode
unfolding head_of all_public_ips
new_multi_node key_file nodes = head_of nodes >>=? λ head. ok (record {
  nodes = nodes;
  pssh = new_pssh_client (all_public_ips nodes) 22 head.machine.ssh_user (some key_file);
})

abbrev pub all_nodes_policy : Policy
all_nodes_policy = record {
  exceptions_to_check =
      ssh_client_exception ∷ ssh_client_timeout_exception ∷ pssh_client_exception ∷ [];
  exception_to_raise = multi_node_exception;
  max_delay = 600;
  delays = backoff 10 3;
}

module _ {S : Type 0} (sys : System S) (format : String → String → Result String) where
  -- A MultiNode has a head node, as its `__init__` has read it.
  unfoldable pub run_on_one_node : MultiNode → Command → Options → Exec S String
  unfolding head_of
  run_on_one_node m cmd o = elim (head_of m.nodes) [
    | raise e ↦ λ s. (raise e, s)
    | ok head ↦
        try_except (run sys head cmd o)
          (λ e. convert (λ x. is_a x node_exception) multi_node_exception e)
  ]

  unfoldable pub run_on_all_nodes :
      MultiNode → Command → Option (List String) → Options → Exec S (List (Result Answer))
  run_on_all_nodes m cmd host_args o =
      retry sys.ssh.now sys.ssh.sleep all_nodes_policy
        (run_pssh sys.ssh format m.pssh cmd host_args o)

  unfoldable pub scp_to_all_nodes : MultiNode → String → String → Bool → Exec S (Unit {0})
  scp_to_all_nodes m local_file remote_file recursive =
      try_except (send_files sys.ssh m.pssh local_file remote_file recursive)
        (λ e. convert (λ x. is_a x pssh_client_exception) multi_node_exception e)
