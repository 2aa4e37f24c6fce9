-- ===== src/Hosts/Setup.antt =====
-- compute/node.py: what is installed on a node, and what is asked of it.
use xbench_community.Prelude.{
  ℕ, String, Bool, false, ◌&&◌, none, List, [], ◌∷◌, str_eq, split_on, without_char, concat, join,
  ◌++◌, if◌then◌else◌,
}
use xbench_community.Exn.{is_a, index_error, os_error, node_exception}
use xbench_community.Exec.{
  Result, ok, raise, Exec, pure, lift, ◌>>=◌, ◌>>◌, try_except, convert, for_each, ◌>>=?◌,
}
use xbench_community.Xpand.{round_down_to_even}
use xbench_community.Yum.{
  centos7, install_epel_command, install_pkg_cmd, install_local_pkg_cmd, remove_pkg_cmd,
  version_number,
}
use xbench_community.Ssh.{script, commands, send_files}
use xbench_community.Hosts.{
  HostNode, System, base_packages, clients_of, disable_network_lines, ne_package_name,
  ne_package_rpm, ne_port, plain_for, sudo_for, sudo_ignoring, run, run_only,
}
use xbench_community.Hosts.Metrics.{register_metric_target}

module _ {S : Type 0} (sys : System S) where
  unfoldable pub install_gitv2_for_centos7 : HostNode → Exec S (Unit {0})
  unfolding clients_of run_only concat
  install_gitv2_for_centos7 n = do
    (y, c) ← lift (clients_of n)
    remove ← lift (remove_pkg_cmd y)
    run_only sys n (script (concat (remove ∷ " git" ∷ []))) (sudo_for 300)
    install ← lift (install_pkg_cmd y)
    run_only sys n
        (script (
          concat (
            install ∷ " "
            ∷ "https://packages.endpointdev.com/rhel/7/os/x86_64/endpoint-repo.x86_64.rpm" ∷ [])))
        (sudo_ignoring 300)
    run_only sys n (script (concat (install ∷ " git" ∷ []))) (sudo_for 300)

  unfoldable pub prepare_ssh_passwordless_access : HostNode → Exec S (Unit {0})
  unfolding run_only
  prepare_ssh_passwordless_access n =
      run_only sys n
        (commands (
          "mkdir -p ${HOME}/.ssh" ∷ "chmod 700 .ssh" ∷ "cat << EOF >>${HOME}/.ssh/config" ∷ "Host *"
          ∷ "AddKeysToAgent yes" ∷ "StrictHostKeyChecking no" ∷ "IdentityFile ~/.ssh/xbench.pem"
          ∷ "EOF" ∷ "chmod 600 ${HOME}/.ssh/config" ∷ []))
        (plain_for 300)

  unfoldable pub send_pem_files : HostNode → String → Exec S (Unit {0})
  unfolding clients_of concat for_each
  send_pem_files n local_dir = for_each ("xbench.pem" ∷ "xbench.pem.pub" ∷ []) (λ file.
      lift (clients_of n) >>= λ c.
      send_files sys.ssh c.1 (sys.path_join local_dir file) (concat (".ssh/" ∷ file ∷ [])) false)

  unfoldable pub add_pem_file : HostNode → Exec S (Unit {0})
  unfolding run_only
  add_pem_file n =
      run_only sys n (commands ("cd ~/.ssh/" ∷ "cat xbench.pem.pub >>authorized_keys" ∷ []))
        (plain_for 300)

  unfoldable pub set_ssh_passwordless_access : HostNode → String → Exec S (Unit {0})
  unfolding prepare_ssh_passwordless_access send_pem_files add_pem_file
  set_ssh_passwordless_access n local_dir =
      prepare_ssh_passwordless_access n >> (send_pem_files n local_dir >> add_pem_file n)

  unfoldable pub configure_metrics_exporter_repo : HostNode → Exec S (Unit {0})
  unfolding clients_of run_only concat
  configure_metrics_exporter_repo n = lift (clients_of n) >>= λ c.
      if str_eq (version_number c.0) "7"
      then (send_files sys.ssh c.1
            (concat (sys.xbench_home ∷ "/metrics/exporters/" ∷ ne_package_rpm ∷ [])) "./" false
          >> (lift (install_local_pkg_cmd c.0) >>= λ install.
              run_only sys n (script (concat (install ∷ " " ∷ ne_package_rpm ∷ [])))
                (sudo_for 300)))
      else (lift (install_pkg_cmd c.0) >>= λ install.
          run_only sys n (script (concat (install ∷ " " ∷ ne_package_name ∷ []))) (sudo_for 300))

  unfoldable pub run_metrics_exporter : HostNode → Exec S (Unit {0})
  unfolding run_only
  run_metrics_exporter n =
      run_only sys n
        (commands ("systemctl enable node_exporter" ∷ "systemctl start node_exporter" ∷ []))
        (sudo_for 300)

  unfoldable pub configure_metrics_exporter : HostNode → String → ℕ → Exec S (Unit {0})
  unfolding configure_metrics_exporter_repo run_metrics_exporter register_metric_target
  configure_metrics_exporter n service_name port =
      configure_metrics_exporter_repo n
      >> (run_metrics_exporter n >> register_metric_target sys n service_name port)

  -- The lines of the first command of `configure`.
  unfoldable pub configure_lines : HostNode → Result (List String)
  unfolding clients_of disable_network_lines concat
  configure_lines n = clients_of n >>=? λ c. install_epel_command c.0 >>=? λ install_epel.
      install_pkg_cmd c.0 >>=? λ install. ok (
        install_epel
        ∷ join " " install base_packages
        ∷ "setenforce 0"
        ∷ (disable_network_lines n.machine.disable_network_security
            ++ "service chronyd start" ∷ "rpm -qa | grep -i epel" ∷ []))

  unfoldable pub configure : HostNode → Exec S (Unit {0})
  unfolding configure_lines run_only install_gitv2_for_centos7 set_ssh_passwordless_access
      configure_metrics_exporter
  configure n = do
    lines ← lift (configure_lines n)
    run_only sys n (commands lines) (sudo_for 300)
    if str_eq n.machine.vm.role "driver" && str_eq n.machine.vm.os_type centos7
        then install_gitv2_for_centos7 n
        else pure tt
    set_ssh_passwordless_access n sys.pem_dir
    configure_metrics_exporter n "node" ne_port

  -- `output.split("=")[1].replace('"', "")`
  unfoldable pub value_behind : String → Result String
  unfolding split_on without_char
  value_behind output =
      let (part, parts) = split_on 61 output in
      elim parts [ [] ↦ raise index_error | v ∷ vs ↦ ok (without_char 34 v) ]

  unfoldable pub os_name : HostNode → Exec S String
  unfolding run value_behind
  os_name n = run sys n (script "grep ^NAME /etc/os-release") (sudo_for 300) >>= λ output.
      lift (value_behind output)

  unfoldable pub os_version : HostNode → Exec S String
  unfolding run value_behind
  os_version n = run sys n (script "grep VERSION_ID /etc/os-release") (sudo_for 300) >>= λ output.
      lift (value_behind output)

  unfoldable pub memory_mb : HostNode → Exec S ℕ
  unfolding run
  memory_mb n = do
    output ←
        run sys n (commands ("cat /proc/meminfo | grep MemTotal | awk {\"print \\$2\"}" ∷ []))
          (plain_for 300)
    kb ← lift (sys.int_of output)
    pure (round_down_to_even kb 1024)

  unfoldable pub nproc : HostNode → Exec S ℕ
  unfolding run
  nproc n = run sys n (script "nproc") (plain_for 300) >>= λ output. lift (sys.int_of output)

  -- `except (FileNotFoundError, IOError)`; both are OSError.
  unfoldable pub send_file : HostNode → String → String → Bool → Exec S (Unit {0})
  unfolding run_only concat
  send_file n local_file_name remote_file_name sudo =
      try_except
        (sys.read_file local_file_name >>= λ content.
          run_only sys n (script (concat ("echo \"" ∷ content ∷ "\" > " ∷ remote_file_name ∷ [])))
            (record { timeout = 300; sudo = sudo; ignore_errors = false; user = none }))
        (λ e. convert (λ x. is_a x os_error) node_exception e)

  unfoldable pub scp_file : HostNode → String → String → Exec S (Unit {0})
  unfolding clients_of
  scp_file n local_file_name remote_file_name =
      lift (clients_of n) >>= λ c. send_files sys.ssh c.1 local_file_name remote_file_name false
