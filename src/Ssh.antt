-- ===== src/Ssh.antt =====
-- compute/ssh_client.py: commands on one host. The package asyncssh is a parameter; what the
-- event loop runs, runs to its end before the method returns.
mod Tests
use xbench_community.Prelude.{
  ℕ, String, Bool, true, false, not, ◌&&◌, Option, some, none, List, [], ◌∷◌, ltb, length,
  if◌then◌else◌, join, splitlines, strip, is_text,
}
use Prim.Native.String.{◌++◌ as str_append}
use xbench_community.Exn.{
  Exn, is_a, type_error, os_error, connection_error, connection_refused_error, timeout_error,
  socket_timeout, asyncssh_error, asyncssh_timeout_error, ssh_client_exception,
  ssh_client_timeout_exception,
}
use xbench_community.Exec.{Exec, pure, throw, ◌>>=◌, ◌>>◌, try_except}
use xbench_community.Retry.{Policy, retry}
pub mod Parallel
pub mod Lines
pub mod Outcomes
pub mod Answers

pub record SshClient : Type 0 where
  pub hostname : String
  pub port : ℕ
  pub username : String
  pub key_file : Option String

-- How a process ended, as asyncssh tells it: with a status, by a signal (-1), or unknown (None).
pub data ExitStatus : Type 0 where
  exited : ℕ → ExitStatus
  signalled : ExitStatus
  unknown : ExitStatus

pub record Completed : Type 0 where
  pub exit_status : ExitStatus
  pub stdout : String

-- `{"hostname": …, "stdout": …}`
pub record Answer : Type 0 where
  pub hostname : String
  pub stdout : String

-- The package, the clock, and the delays that backoff_with_jitter drew when the module was
-- loaded: of `run` and the two methods that copy, and of `_scp_send`.
pub record Asyncssh (S : Type 0) : Type 0 where
  pub connect : SshClient → Exec S ℕ
  pub close : ℕ → S → S
  pub conn_run : ℕ → String → ℕ → Exec S Completed
  pub scp_to : ℕ → String → String → Bool → Exec S (Unit {0})
  pub scp_from : ℕ → String → String → Bool → Exec S (Unit {0})
  pub sftp_put : ℕ → String → String → Exec S (Unit {0})
  pub now : S → ℕ
  pub sleep : ℕ → S → S
  pub run_delays : List ℕ
  pub scp_delays : List ℕ

-- common/common.py: a text is cut into lines, a list is taken as it is.
pub data Command : Type 0 where
  script : String → Command
  commands : List String → Command

unfoldable pub stripped_lines : List String → List String
unfolding strip
stripped_lines [] = []
stripped_lines (x ∷ xs) =
    let rest = stripped_lines xs in if is_text (strip x) then strip x ∷ rest else rest

-- `"\n".join(lines)`
unfoldable pub join_lines : List String → String
unfolding join
join_lines [] = ""
join_lines (l ∷ ls) = join "\n" l ls

unfoldable pub clean_cmd : Command → String
unfolding join_lines stripped_lines splitlines
clean_cmd (script s) = join_lines (stripped_lines (splitlines s))
clean_cmd (commands l) = join_lines l

-- `if user:`
unfoldable pub has_user : Option String → Bool
has_user none = false
has_user (some u) = is_text u

unfoldable pub user_name : Option String → String
user_name none = ""
user_name (some u) = u

-- The command with the shell options and the change of the user around it.
unfoldable pub full_command : String → Bool → Bool → Option String → String
unfolding has_user user_name splitlines
full_command cmd sudo ignore_errors user =
    let body =
      if not ignore_errors && ltb 1 (length (splitlines cmd))
      then str_append "set -e\n" cmd
      else cmd in
    if has_user user
    then str_append "sudo -i -u "
        (str_append (user_name user) (str_append " -S $SHELL -c '" (str_append body "'")))
    else if sudo
    then str_append "sudo -S $SHELL -c '" (str_append body "'")
    else body

-- The arguments of `run` behind the command.
pub record Options : Type 0 where
  pub timeout : ℕ
  pub sudo : Bool
  pub ignore_errors : Bool
  pub user : Option String

abbrev pub run_policy : List ℕ → Policy
run_policy delays = record {
  exceptions_to_check =
      asyncssh_error ∷ timeout_error ∷ connection_error ∷ connection_refused_error ∷ socket_timeout
      ∷ [];
  exception_to_raise = ssh_client_exception;
  max_delay = 300;
  delays = delays;
}

-- Of `_scp_send`, `send_files` and `receive_files`.
abbrev pub copy_policy : List ℕ → Policy
copy_policy delays = record {
  exceptions_to_check = os_error ∷ asyncssh_error ∷ timeout_error ∷ [];
  exception_to_raise = ssh_client_exception;
  max_delay = 300;
  delays = delays;
}

module _ {S : Type 0} (lib : Asyncssh S) where
  -- `async with asyncssh.connect(…) as conn:`, which closes the connection however the block ends
  unfoldable pub with_connection : {A : Type 0} → SshClient → (ℕ → Exec S A) → Exec S A
  with_connection c body =
      lib.connect c >>= λ conn s. let (r, t) = body conn s in (r, lib.close conn t)

  -- `if result.exit_status > 0: …`
  unfoldable pub check_status : Bool → ExitStatus → Exec S (Unit {0})
  check_status ignore_errors (exited n) =
      if ltb 0 n && not ignore_errors then throw ssh_client_exception else pure tt
  check_status ignore_errors signalled = pure tt
  check_status ignore_errors unknown = throw type_error

  -- A result is never a TimeoutError, so the second test of the source has one branch.
  unfoldable pub run_client : SshClient → String → Options → Exec S Answer
  unfolding with_connection full_command check_status join_lines splitlines
  run_client c cmd o = with_connection c (λ conn.
      lib.conn_run conn (full_command cmd o.sudo o.ignore_errors o.user) o.timeout >>= λ result.
      check_status o.ignore_errors result.exit_status
      >> pure (record { hostname = c.hostname; stdout = join_lines (splitlines result.stdout) }))

  -- The `except` clauses of `_unsafe_run`, the first that fits.
  unfoldable pub on_run_error : Bool → Exn → Exec S String
  on_run_error ignore_errors e =
      if is_a e connection_error
      then throw e
      else if is_a e os_error
      then (if ignore_errors then pure "" else throw ssh_client_exception)
      else if is_a e asyncssh_timeout_error
      then throw ssh_client_timeout_exception
      else if is_a e timeout_error
      then throw connection_error
      else throw e

  unfoldable pub unsafe_run : SshClient → Command → Options → Exec S String
  unfolding run_client on_run_error clean_cmd
  unsafe_run c cmd o =
      try_except (run_client c (clean_cmd cmd) o >>= λ ret. pure ret.stdout)
        (on_run_error o.ignore_errors)

  unfoldable pub run : SshClient → Command → Options → Exec S String
  unfolding unsafe_run
  run c cmd o = retry lib.now lib.sleep (run_policy lib.run_delays) (unsafe_run c cmd o)

  -- The decorator sees the call of a coroutine function, which returns the coroutine at once.
  unfoldable pub scp_send : SshClient → String → String → Bool → Exec S (Exec S (Unit {0}))
  unfolding with_connection
  scp_send c local remote recursive =
      retry lib.now lib.sleep (copy_policy lib.scp_delays)
        (pure (with_connection c (λ conn. lib.scp_to conn local remote recursive)))

  unfoldable pub scp_receive : SshClient → String → String → Bool → Exec S (Unit {0})
  unfolding with_connection
  scp_receive c remote local recursive =
      with_connection c (λ conn. lib.scp_from conn remote local recursive)

  unfoldable pub sftp_send : SshClient → String → String → Exec S (Unit {0})
  unfolding with_connection
  sftp_send c local remote = with_connection c (λ conn. lib.sftp_put conn local remote)

  unfoldable pub send_files : SshClient → String → String → Bool → Exec S (Unit {0})
  unfolding scp_send
  send_files c local remote recursive =
      retry lib.now lib.sleep (copy_policy lib.run_delays)
        (scp_send c local remote recursive >>= λ coroutine. coroutine)

  -- The source calls `_scp_send` here, with the remote name first.
  unfoldable pub receive_files : SshClient → String → String → Bool → Exec S (Unit {0})
  unfolding scp_send
  receive_files c remote local recursive =
      retry lib.now lib.sleep (copy_policy lib.run_delays)
        (scp_send c remote local false >>= λ coroutine. coroutine)
