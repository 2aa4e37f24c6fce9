-- ===== src/Cli.antt =====
-- compute/run_subprocess.py and cloud/abstract_cli.py: the programs that are run on the local
-- machine. An exception's message is read by some callers, so a failure of a program is a value
-- that has it (less the system's own words), and becomes an exception where no
-- caller reads it.
use xbench_community.Prelude.{
  ℕ, String, Bool, true, not, ◌&&◌, zero, suc, Option, none, some, [], ◌∷◌, has_char, is_text,
  concat, words, unwords, if◌then◌else◌,
}
use xbench_community.Exn.{cloud_cli_exception}
use xbench_community.Exec.{Exec, pure, throw, ◌>>=◌}

-- What becomes of a program: it ends with a status, is killed by a signal, is still running after
-- the timeout, or there is none of this name.
pub data Process : Type 0 where
  finished : String → String → ℕ → Process
  killed : String → String → ℕ → Process
  timed_out : Process
  not_found : Process

-- The text printed, or the message of the exception.
pub data Reply : Type 0 where
  printed : String → Reply
  failed : String → Reply

-- Python's subprocess module, which gets the command, whether the shell reads it, and the timeout
-- if there is one; whether the shell of the environment is a Windows program; and how a number is
-- printed.
pub record Programs (S : Type 0) : Type 0 where
  pub popen : String → Bool → Option ℕ → Exec S Process
  pub exe_shell : Bool
  pub digits : ℕ → String

-- The outcome of `RunSubprocess._run`: stdout and stderr, or the message of a
-- ProcessExecutionException.
unfoldable pub run_result : (ℕ → String) → String → Option ℕ → Process → Reply × String
unfolding concat
run_result digits cmd timeout (finished out err zero) = (printed out, err)
run_result digits cmd timeout (finished out err (suc n)) = (
  failed
      (concat ("Command " ∷ cmd ∷ " failed with " ∷ err ∷ ", error code " ∷ digits (suc n) ∷ [])),
  err,
)
run_result digits cmd timeout (killed out err n) = (
  failed (concat ("Command " ∷ cmd ∷ " failed with " ∷ err ∷ ", error code -" ∷ digits n ∷ [])),
  err,
)
run_result digits cmd timeout timed_out = (
  failed (
      concat (
        "Command "
        ∷ cmd
        ∷ " timed out after "
        ∷ elim timeout [ none ↦ "None" | some n ↦ digits n ]
        ∷ " seconds"
        ∷ [])),
  "",
)
run_result digits cmd timeout not_found =
    (failed (concat ("Command " ∷ cmd ∷ " failed with: " ∷ [])), "")

-- `if exit_code != 0 or (self._check_stderr and len(stderr) > 0)`, where the status is 0
unfoldable pub checked_reply : Bool → Reply × String → Reply
unfolding concat
checked_reply check_stderr (printed out, err) =
    if check_stderr && is_text err
    then failed (concat ("CLI command failed with " ∷ err ∷ []))
    else printed out
checked_reply check_stderr (failed message, err) =
    failed (concat ("CLI command failed with " ∷ message ∷ []))

-- A cloud's command line: the text before each command, and whether errors printed count.
pub record AbstractCli : Type 0 where
  pub cluster_name : String
  pub base_command : String
  pub check_stderr : Bool

abbrev pub cli_default_timeout : ℕ
cli_default_timeout = 600

module _ {S : Type 0} (programs : Programs S) where
  -- RunSubprocess._run
  unfoldable pub run_subprocess : String → Bool → Option ℕ → Exec S (Reply × String)
  unfolding run_result
  run_subprocess cmd shell timeout =
      programs.popen cmd (shell && not programs.exe_shell) timeout >>= λ process.
      pure (run_result programs.digits cmd timeout process)

  -- `run` with a timeout of its own; the reply is kept.
  unfoldable pub run_within : ℕ → AbstractCli → String → Exec S Reply
  unfolding run_subprocess checked_reply words unwords concat
  run_within timeout cli cmd =
      run_subprocess (unwords (words (concat (cli.base_command ∷ " " ∷ cmd ∷ [])))) true
        (some timeout)
      >>= λ r. pure (checked_reply cli.check_stderr r)

  unfoldable pub run_cli : AbstractCli → String → Exec S Reply
  unfolding run_within
  run_cli cli cmd = run_within cli_default_timeout cli cmd

  -- A failure that no caller looks at is a CloudCliException.
  unfoldable pub printed_by : Reply → Exec S String
  printed_by (printed out) = pure out
  printed_by (failed message) = throw cloud_cli_exception

  unfoldable pub run : AbstractCli → String → Exec S String
  unfolding run_cli printed_by
  run cli cmd = run_cli cli cmd >>= printed_by

-- `SecurityRecord`, with the network that `__post_init__` completes
pub record SecurityRecord : Type 0 where
  pub port_from : ℕ
  pub port_to : ℕ
  pub cidr : String
  pub name : Option String
  pub desc : Option String

unfoldable pub new_security_record : ℕ → ℕ → String → Option String → Option String → SecurityRecord
unfolding concat
new_security_record port_from port_to cidr name desc = record {
  port_from = port_from;
  port_to = port_to;
  cidr = if has_char 47 cidr then cidr else concat (cidr ∷ "/32" ∷ []);
  name = name;
  desc = desc;
}
