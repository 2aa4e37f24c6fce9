-- ===== src/Ssh/Parallel.antt =====
-- compute/pssh_client.py: one command on many hosts.
use xbench_community.Prelude.{
  ℕ, String, Bool, Option, none, some, List, [], ◌∷◌, map, if◌then◌else◌,
}
use xbench_community.Exn.{
  Exn, is_a, is_any_of, index_error, exception, type_error, os_error, asyncssh_error,
  pssh_client_exception, keyboard_interrupt,
}
use xbench_community.Exec.{
  Result, ok, raise, Exec, pure, throw, lift, ◌>>=◌, ◌>>◌, try_except, ◌>>=?◌,
}
use xbench_community.Ssh.{
  SshClient, Answer, Asyncssh, Command, Options, clean_cmd, run_client, scp_send, scp_receive,
}

pub record PsshClient : Type 0 where
  pub pssh_clients : List SshClient

unfoldable pub new_pssh_client : List String → ℕ → String → Option String → PsshClient
new_pssh_client hostnames port username key_file = record {
  pssh_clients =
      map
        (λ hostname. record {
          hostname = hostname;
          port = port;
          username = username;
          key_file = key_file;
        })
        hostnames;
}

-- A task's outcome as a result, but KeyboardInterrupt leaves the event loop. No modelled code raises
-- SystemExit, the other class of this kind.
unfoldable pub settled : {S A : Type 0} → Exec S A → Exec S (Result A)
settled task s =
    let (r, t) = task s in
    elim r [
      | ok a ↦ (ok (ok a), t)
      | raise e ↦
          if is_a e keyboard_interrupt then (raise keyboard_interrupt, t) else (ok (raise e), t)
    ]

-- `asyncio.gather(*tasks, return_exceptions=True)`: each task's outcome in its task's place. The
-- tasks' effects stand one after the other here.
unfoldable pub gather : {S A : Type 0} → List (Exec S A) → Exec S (List (Result A))
unfolding settled
gather [] = pure []
gather (task ∷ tasks) = settled task >>= λ r. gather tasks >>= λ rs. pure (r ∷ rs)

-- `if host_args:`, and the commands `cmd % host_args[i]`; `format` is Python's operator.
unfoldable pub format_each :
    (String → String → Result String) → String → List String → List SshClient → Result (List String)
format_each format cmd args [] = ok []
format_each format cmd [] (c ∷ cs) = raise index_error
format_each format cmd (a ∷ args) (c ∷ cs) =
    format cmd a >>=? λ first. format_each format cmd args cs >>=? λ rest. ok (first ∷ rest)

unfoldable pub host_commands :
    (String → String → Result String)
    → String
    → Option (List String)
    → List SshClient
    → Result (List String)
unfolding format_each
host_commands format cmd none cs = ok (map (λ c. cmd) cs)
host_commands format cmd (some []) cs = ok (map (λ c. cmd) cs)
host_commands format cmd (some (a ∷ args)) cs = format_each format cmd (a ∷ args) cs

-- The loop over the results in `run`: the first exception is converted. What is no Exception
-- stays among the results.
unfoldable pub first_failure : {A : Type 0} → List (Result A) → Result (Unit {0})
first_failure [] = ok tt
first_failure (ok a ∷ rs) = first_failure rs
first_failure (raise e ∷ rs) =
    let rest = first_failure rs in if is_a e exception then raise pssh_client_exception else rest

-- `except (OSError, asyncssh.Error)`
unfoldable pub on_copy_error : {S A : Type 0} → Exn → Exec S A
on_copy_error e =
    if is_any_of e (os_error ∷ asyncssh_error ∷ []) then throw pssh_client_exception else throw e

module _ {S : Type 0} (lib : Asyncssh S) where
  unfoldable pub tasks_for : List SshClient → List String → Options → List (Exec S Answer)
  tasks_for [] cmds o = []
  tasks_for (c ∷ cs) [] o = []
  tasks_for (c ∷ cs) (cmd ∷ cmds) o = run_client lib c cmd o ∷ tasks_for cs cmds o

  -- What gather raises is no SshClientException, so the handler around it is never reached.
  unfoldable pub run_clients :
      (String → String → Result String)
      → PsshClient
      → String
      → Option (List String)
      → Options
      → Exec S (List (Result Answer))
  unfolding host_commands tasks_for gather
  run_clients format p cmd host_args o =
      lift (host_commands format cmd host_args p.pssh_clients) >>= λ cmds.
      gather (tasks_for p.pssh_clients cmds o)

  unfoldable pub run :
      (String → String → Result String)
      → PsshClient
      → Command
      → Option (List String)
      → Options
      → Exec S (List (Result Answer))
  unfolding run_clients clean_cmd first_failure
  run format p cmd host_args o = run_clients format p (clean_cmd cmd) host_args o >>= λ results.
      lift (first_failure results) >> pure results

  -- The calls of `_scp_send`, which give the coroutines.
  unfoldable pub scp_tasks :
      List SshClient → String → String → Bool → Exec S (List (Exec S (Unit {0})))
  unfolding scp_send
  scp_tasks [] local remote recursive = pure []
  scp_tasks (c ∷ cs) local remote recursive = scp_send lib c local remote recursive >>= λ first.
      scp_tasks cs local remote recursive >>= λ rest. pure (first ∷ rest)

  unfoldable pub send_file_scp :
      PsshClient → String → String → Bool → Exec S (List (Result (Unit {0})))
  unfolding scp_tasks gather
  send_file_scp p local remote recursive =
      scp_tasks p.pssh_clients local remote recursive >>= λ tasks. gather tasks

  unfoldable pub send_files : PsshClient → String → String → Bool → Exec S (Unit {0})
  unfolding send_file_scp on_copy_error
  send_files p local remote recursive =
      try_except (send_file_scp p local remote recursive >>= λ results. pure tt) on_copy_error

  unfoldable pub receive_file_scp :
      PsshClient → String → String → Bool → Exec S (List (Result (Unit {0})))
  unfolding scp_receive gather
  receive_file_scp p remote local recursive =
      gather (map (λ c. scp_receive lib c remote local recursive) p.pssh_clients)

  unfoldable pub receive_files : PsshClient → String → String → Bool → Exec S (Unit {0})
  unfolding receive_file_scp on_copy_error
  receive_files p remote local recursive =
      try_except (receive_file_scp p remote local recursive >>= λ results. pure tt) on_copy_error

  -- The list of coroutines itself is given to gather, which refuses it with a TypeError.
  unfoldable pub send_file_sftp : PsshClient → String → String → Exec S (Unit {0})
  unfolding on_copy_error
  send_file_sftp p local remote = try_except (throw type_error) on_copy_error
