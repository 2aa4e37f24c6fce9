-- ===== src/Ssh/Tests.antt =====
-- A network of hosts on which every command prints the same, and the theorems of this folder on it.
use xbench_community.Prelude.{ℕ, suc, true, false, none, [], ◌∷◌}
use xbench_community.Exn.{os_error}
use xbench_community.Exec.{ok, raise, pure}
use xbench_community.Ssh.{exited, Asyncssh, script, Options}
use xbench_community.Ssh.Parallel.{PsshClient, run}
use xbench_community.Ssh.Answers.{RunOutcome, run-RunOutcome}

abbrev network : Asyncssh ℕ
network = record {
  connect = λ c. pure 1;
  close = λ conn s. s;
  conn_run = λ conn cmd timeout s. (ok (record { exit_status = exited 0; stdout = "up" }), suc s);
  scp_to = λ conn local remote recursive s. (raise os_error, suc s);
  scp_from = λ conn remote local recursive. pure tt;
  sftp_put = λ conn local remote. pure tt;
  now = λ s. 0;
  sleep = λ d s. s;
  run_delays = 1 ∷ 2 ∷ [];
  scp_delays = 1 ∷ [];
}

abbrev two_hosts : PsshClient
two_hosts = record {
  pssh_clients =
      record { hostname = "a"; port = 22; username = "root"; key_file = none }
      ∷ record { hostname = "b"; port = 22; username = "root"; key_file = none }
      ∷ [];
}

abbrev within_a_minute : Options
within_a_minute = record { timeout = 60; sudo = true; ignore_errors = false; user = none }

run-RunOutcome_example :
    RunOutcome network within_a_minute
      (λ cmd arg. ok cmd)
      two_hosts
      (script "uptime")
      none
      (run network (λ cmd arg. ok cmd) two_hosts (script "uptime") none within_a_minute 0).0
run-RunOutcome_example =
    run-RunOutcome network within_a_minute (λ cmd arg. ok cmd) two_hosts (script "uptime") none 0
