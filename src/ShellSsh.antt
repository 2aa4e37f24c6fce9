-- ===== src/ShellSsh.antt =====
-- compute/shell_ssh_client.py: the client that starts the ssh program. A command that is not waited
-- for is left out.
mod Failures
mod Tests
use xbench_community.Prelude.{
  ℕ, String, Bool, true, false, ◌&&◌, Option, none, some, List, [], ◌∷◌, concat, contains, words,
  unwords, splitlines, is_text, str_eq, if◌then◌else◌, ◌==◌,
}
use xbench_community.Exn.{
  value_error, attribute_error, process_execution_exception, shell_ssh_client_exception,
}
use xbench_community.Exec.{Result, ok, raise, Exec, pure, throw, lift, ◌>>=◌, ◌>>◌, ◌>>=?◌}
use xbench_community.Retry.{Policy, retry}
use xbench_community.Ssh.{Command, script, commands, stripped_lines, join_lines}
use xbench_community.Cli.{Reply, printed, failed, Programs, run_subprocess}

pub record ShellSshClient : Type 0 where
  pub hostname : String
  pub username : String
  pub password : Option String
  pub key_file : Option String
  pub connect_timeout : Option ℕ

-- `if self.key_file:` and the like
abbrev is_set : Option String → Bool
is_set none = false
is_set (some s) = is_text s

abbrev text : Option String → String
text none = ""
text (some s) = s

-- The object has no field `timeout`, which is read where `connect_timeout` is given.
unfoldable pub checked_timeout : Option ℕ → Result (Unit {0})
checked_timeout none = ok tt
checked_timeout (some n) = if n == 0 then ok tt else raise attribute_error

unfoldable pub base_ssh_command : ShellSshClient → Result String
unfolding checked_timeout concat
base_ssh_command c = checked_timeout c.connect_timeout >>=? λ u. ok (
    concat (
      "ssh -q -oStrictHostKeyChecking=no"
      ∷ (if is_set c.key_file then concat (" -i " ∷ text c.key_file ∷ []) else "")
      ∷ " "
      ∷ c.username
      ∷ "@"
      ∷ c.hostname
      ∷ []))

-- A single line is quoted; lines stand in a block that ends with EOF, or are quoted too where the
-- shell is a Windows program.
unfoldable pub remote_text : Bool → ShellSshClient → Command → Result String
unfolding base_ssh_command join_lines concat
remote_text exe_shell c (script cmd) =
    base_ssh_command c >>=? λ base. ok (concat (base ∷ " '" ∷ cmd ∷ "'" ∷ []))
remote_text exe_shell c (commands cmds) = base_ssh_command c >>=? λ base.
    if exe_shell
    then ok (concat (base ∷ " '" ∷ join_lines cmds ∷ "'" ∷ []))
    else ok (concat (base ∷ " << EOF\n" ∷ join_lines cmds ∷ "\nEOF\n" ∷ []))

-- The cleaned lines of a text: one line is a text again.
unfoldable pub one_or_many : List String → Command
one_or_many (l ∷ []) = script l
one_or_many ls = commands ls

unfoldable pub as_command : Command → Command
unfolding one_or_many stripped_lines splitlines
as_command (script s) = one_or_many (stripped_lines (splitlines s))
as_command (commands l) = commands l

abbrev pub remote_policy : List ℕ → Policy
remote_policy delays = record {
  exceptions_to_check = process_execution_exception ∷ [];
  exception_to_raise = shell_ssh_client_exception;
  max_delay = 300;
  delays = delays;
}

module _ {S : Type 0} (programs : Programs S) (now : S → ℕ) (sleep : ℕ → S → S)
    (delays : List ℕ) where
  -- `__init__`: a password is refused; the program `which` ends with another status than 127
  -- where there is no ssh, which raises before the test of the status.
  unfoldable pub new_shell_ssh_client : ShellSshClient → Exec S ShellSshClient
  unfolding run_subprocess
  new_shell_ssh_client c =
      if is_set c.password
      then throw shell_ssh_client_exception
      else (run_subprocess programs "which ssh" false (some 15) >>= λ r. elim r.0 [
        | printed out ↦ pure c
        | failed message ↦ throw process_execution_exception
      ])

  -- stdout and stderr, or the `except` clause for what the command was and the message says.
  unfoldable pub outcome_of : String → Reply × String → Exec S (String × String)
  outcome_of cmd (printed out, err) = pure (out, err)
  outcome_of cmd (failed message, err) =
      if contains "reboot" cmd && contains "closed by remote host" message
      then pure ("", "")
      else if contains "error code 255" message
      then throw process_execution_exception
      else throw shell_ssh_client_exception

  unfoldable pub run_remote_once : ShellSshClient → Command → Option ℕ → Exec S (String × String)
  unfolding remote_text run_subprocess outcome_of
  run_remote_once c cmd timeout = lift (remote_text programs.exe_shell c cmd) >>= λ full.
      run_subprocess programs full true timeout >>= outcome_of full

  -- `_run_remote_shell_command`
  unfoldable pub run_remote : ShellSshClient → Command → Option ℕ → Exec S (String × String)
  run_remote c cmd timeout = retry now sleep (remote_policy delays) (run_remote_once c cmd timeout)

  unfoldable pub run_one_command : ShellSshClient → String → Option ℕ → Exec S (String × String)
  unfolding words unwords
  run_one_command c cmd timeout = run_remote c (script (unwords (words cmd))) timeout

  unfoldable pub run : ShellSshClient → Command → Option ℕ → Exec S (String × String)
  unfolding as_command
  run c cmd timeout = run_remote c (as_command cmd) timeout

  unfoldable pub redirect_of : String → Result String
  redirect_of mode =
      if str_eq mode "w" then ok ">" else if str_eq mode "a" then ok ">>" else raise value_error

  unfoldable pub put : ShellSshClient → String → String → String → Exec S String
  unfolding redirect_of concat
  put c path contents mode = lift (redirect_of mode) >>= λ redirect.
      run_remote c
        (commands (concat ("echo \"" ∷ contents ∷ "\" " ∷ redirect ∷ " " ∷ path ∷ []) ∷ [])) none
      >>= λ r. pure path

  -- The three words stand on a line each.
  unfoldable pub delete : ShellSshClient → String → Exec S Bool
  delete c path = run_remote c (commands ("rm" ∷ "-rf" ∷ path ∷ [])) none >>= λ r. pure true
