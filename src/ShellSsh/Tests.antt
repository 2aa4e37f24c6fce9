-- ===== src/ShellSsh/Tests.antt =====
-- A reboot that closes the connection.
use xbench_community.Prelude.{
  ℕ, ◌+◌, false, none, [], ◌∷◌, ◌≡◌, refl, contains, starts_with, concat,
}
use xbench_community.Exec.{ok}
use xbench_community.Ssh.{script}
use xbench_community.Cli.{Programs, finished, run_subprocess, run_result}
use xbench_community.ShellSsh.{
  ShellSshClient, remote_text, base_ssh_command, checked_timeout, run_remote,
}
use xbench_community.ShellSsh.Failures.{run_remote-fails}

abbrev closing : Programs ℕ
closing = record {
  popen = λ cmd shell timeout s. (ok (finished "" "closed by remote host" 1), s + 1);
  exe_shell = false;
  digits = λ n. "1";
}

abbrev host : ShellSshClient
host = record {
  hostname = "h";
  username = "root";
  password = none;
  key_file = none;
  connect_timeout = none;
}

run_remote-fails_example :
    run_remote closing (λ s. 0) (λ d s. s) (3 ∷ []) host (script "reboot") none 0 ≡ (ok ("", ""), 1)
unfolding remote_text base_ssh_command checked_timeout concat run_subprocess run_result contains
    starts_with
run_remote-fails_example =
    run_remote-fails closing (λ s. 0) (λ d s. s) (3 ∷ []) host (script "reboot") none
      "ssh -q -oStrictHostKeyChecking=no root@h 'reboot'"
      "Command ssh -q -oStrictHostKeyChecking=no root@h 'reboot' failed with closed by remote host, error code 1"
      "closed by remote host" 3 [] 0 1 refl refl refl refl
