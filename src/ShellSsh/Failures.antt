-- ===== src/ShellSsh/Failures.antt =====
-- What a failure of the ssh program becomes.
use xbench_community.Prelude.{
  ℕ, String, Bool, true, false, ◌&&◌, Option, List, ◌∷◌, ◌≡◌, refl, contains, if◌then◌else◌,
}
use xbench_community.Exn.{is_a, is_any_of, shell_ssh_client_exception}
use xbench_community.Exec.{ok, raise}
use xbench_community.Retry.First.{retry-returns, retry-unchecked}
use xbench_community.Ssh.{Command}
use xbench_community.Cli.{failed, Programs, run_subprocess}
use xbench_community.ShellSsh.{
  ShellSshClient, remote_policy, remote_text, outcome_of, run_remote_once, run_remote,
}

module _ {S : Type 0} (programs : Programs S) (now : S → ℕ) (sleep : ℕ → S → S)
    (delays : List ℕ) where
  -- If the ssh program fails, and not with the status 255, it is started once, where there is a
  -- delay: a reboot that
  -- closed the connection counts as done with no output, and any other failure raises
  -- ShellSSHClientException.
  pub run_remote-fails :
      (c : ShellSshClient) (cmd : Command) (timeout : Option ℕ) (full message err : String) (d : ℕ)
      (ds : List ℕ) (s t : S)
      → delays ≡ d ∷ ds
      → remote_text programs.exe_shell c cmd ≡ ok full
      → run_subprocess programs full true timeout s ≡ (ok (failed message, err), t)
      → contains "error code 255" message ≡ false
      → run_remote programs now sleep delays c cmd timeout s ≡ (
          if contains "reboot" full && contains "closed by remote host" message
          then (ok ("", ""), t)
          else (raise shell_ssh_client_exception, t))
  unfolding run_remote run_remote_once outcome_of is_a is_any_of
  run_remote-fails c cmd timeout full message err d ds s t e f r n =
      by_test (contains "reboot" full && contains "closed by remote host" message) refl
    where
      by_test :
          (b : Bool)
          → (contains "reboot" full && contains "closed by remote host" message) ≡ b
          → run_remote programs now sleep delays c cmd timeout s
            ≡ (if b then (ok ("", ""), t) else (raise shell_ssh_client_exception, t))
      by_test true q =
          retry-returns now sleep (remote_policy delays)
            (run_remote_once programs now sleep delays c cmd timeout) d ds s t ("", "") e
            (rw (f, r, q) refl)
      by_test false q =
          retry-unchecked now sleep (remote_policy delays)
            (run_remote_once programs now sleep delays c cmd timeout) d ds s t
            shell_ssh_client_exception e refl refl refl (rw (f, r, q, n) refl)
