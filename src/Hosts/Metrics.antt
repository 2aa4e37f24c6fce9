-- ===== src/Hosts/Metrics.antt =====
-- metrics/server.py: how the metrics server learns of a node. compute/node.py makes the targets.
use xbench_community.Prelude.{ℕ, String, false, none, some, [], ◌∷◌, concat}
use xbench_community.Exec.{Exec, pure, ◌>>=◌, ◌>>◌}
use xbench_community.Cluster.{get_client_iface}
use xbench_community.Ssh.{script, commands, run as ssh_run, send_files}
use xbench_community.Hosts.{
  HostNode, MetricsTarget, System, basename, labels, sudo_for, sudo_ignoring, target_name,
}

module _ {S : Type 0} (sys : System S) where
  unfoldable pub register_target : MetricsTarget → Exec S (Unit {0})
  unfolding target_name basename concat
  register_target t = elim sys.metrics.ssh_client [
    | none ↦ pure tt
    | some c ↦
        let fname = basename (target_name t) in
        let path = sys.metrics.remote_target_path in
        sys.temp_file (sys.json_of t) >>= λ temp.
        send_files sys.ssh c temp (concat ("/tmp/" ∷ fname ∷ [])) false
        >> (ssh_run sys.ssh c
              (commands (
                concat ("mv /tmp/" ∷ fname ∷ " " ∷ path ∷ "/" ∷ fname ∷ [])
                ∷ concat ("chown nobody:nobody " ∷ path ∷ "/" ∷ fname ∷ [])
                ∷ concat ("chmod +r " ∷ path ∷ "/" ∷ fname ∷ [])
                ∷ []))
              (sudo_for 300)
            >>= λ output. sys.unlink temp)
  ]

  unfoldable pub deregister_target : MetricsTarget → Exec S (Unit {0})
  unfolding target_name concat
  deregister_target t = elim sys.metrics.ssh_client [
    | none ↦ pure tt
    | some c ↦
        ssh_run sys.ssh c
          (script (concat ("rm " ∷ sys.metrics.remote_target_path ∷ "/" ∷ target_name t ∷ [])))
          (sudo_ignoring 300)
        >>= λ output. pure tt
  ]

  unfoldable pub deregister_cluster : String → Exec S (Unit {0})
  unfolding concat
  deregister_cluster cluster_name = elim sys.metrics.ssh_client [
    | none ↦ pure tt
    | some c ↦
        ssh_run sys.ssh c
          (script
            (concat ("rm " ∷ sys.metrics.remote_target_path ∷ "/" ∷ cluster_name ∷ "*.json" ∷ [])))
          (sudo_ignoring 300)
        >>= λ output. pure tt
  ]

  unfoldable pub target_of : HostNode → String → ℕ → MetricsTarget
  unfolding labels
  target_of n service_name port = record {
    service_name = service_name;
    labels = labels n.machine;
    hostname = get_client_iface n.machine.vm.network;
    port = port;
  }

  unfoldable pub register_metric_target : HostNode → String → ℕ → Exec S (Unit {0})
  unfolding register_target target_of
  register_metric_target n service_name port = register_target (target_of n service_name port)

  unfoldable pub deregister_metric_target : HostNode → String → ℕ → Exec S (Unit {0})
  unfolding deregister_target target_of
  deregister_metric_target n service_name port = deregister_target (target_of n service_name port)
