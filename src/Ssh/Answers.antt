-- ===== src/Ssh/Answers.antt =====
-- What the command on many hosts returns: the answers of the hosts, in their order.
use xbench_community.Prelude.{
  String, Bool, true, false, Option, none, some, List, [], ◌∷◌, map, ◌≡◌, ◌⊎◌, inl, inr, refl,
  if◌then◌else◌, ℕ, splitlines,
}
use xbench_community.Exn.{Exn, is_a, exception, pssh_client_exception, keyboard_interrupt}
use xbench_community.Exec.{
  Result, ok, raise, Exec, pure, lift, ◌>>=◌, ◌>>◌, and_then, and_then_ind, ◌>>=?◌,
}
use xbench_community.Ssh.{
  SshClient, Answer, Completed, Asyncssh, join_lines, Command, Options, clean_cmd, run_client,
  with_connection, full_command, check_status,
}
use xbench_community.Ssh.Parallel.{
  PsshClient, settled, gather, format_each, host_commands, first_failure, tasks_for, run_clients,
  run,
}

module _ {S : Type 0} (lib : Asyncssh S) (o : Options) where
  -- A host's answer: the host was connected to, the command ran on that connection, and the answer
  -- has the host's name and the lines that the command printed.
  abbrev pub HasAnswered : SshClient → String → Answer → Type 0
  HasAnswered c cmd a =
      (conn : ℕ) × (s : S) × (t : S) × (u : S) × (result : Completed) × (lib.connect c s
        ≡ (ok conn, t))
      × (lib.conn_run conn (full_command cmd o.sudo o.ignore_errors o.user) o.timeout t
          ≡ (ok result, u))
      × (a ≡ record { hostname = c.hostname; stdout = join_lines (splitlines result.stdout) })

  -- What stands in the place of a host: the answer of that host, or what is no Exception.
  abbrev pub IsAnswerOf : SshClient → String → Result Answer → Type 0
  IsAnswerOf c cmd (ok a) = HasAnswered c cmd a
  IsAnswerOf c cmd (raise e) = is_a e exception ≡ false

  -- One result for each host, and its command.
  abbrev pub AreAnswersOf : List SshClient → List String → List (Result Answer) → Type 0
  AreAnswersOf [] cmds [] = Unit
  AreAnswersOf [] cmds (r ∷ rs) = ⊥
  AreAnswersOf (c ∷ cs) [] rs = ⊥
  AreAnswersOf (c ∷ cs) (cmd ∷ cmds) [] = ⊥
  AreAnswersOf (c ∷ cs) (cmd ∷ cmds) (r ∷ rs) = IsAnswerOf c cmd r × AreAnswersOf cs cmds rs

  abbrev IsFrom : SshClient → String → Result Answer → Type 0
  IsFrom c cmd (ok a) = HasAnswered c cmd a
  IsFrom c cmd (raise e) = Unit

  abbrev AreFrom : List SshClient → List String → List (Result Answer) → Type 0
  AreFrom [] cmds [] = Unit
  AreFrom [] cmds (r ∷ rs) = ⊥
  AreFrom (c ∷ cs) [] rs = ⊥
  AreFrom (c ∷ cs) (cmd ∷ cmds) [] = ⊥
  AreFrom (c ∷ cs) (cmd ∷ cmds) (r ∷ rs) = IsFrom c cmd r × AreFrom cs cmds rs

  keep-AnswersOf :
      (cs : List SshClient) (cmds : List String) (rs : List (Result Answer))
      → AreFrom cs cmds rs
      → first_failure rs ≡ ok tt
      → AreAnswersOf cs cmds rs
  unfolding first_failure
  keep-AnswersOf [] cmds [] f h = tt
  keep-AnswersOf [] cmds (r ∷ rs) f h = f
  keep-AnswersOf (c ∷ cs) [] rs f h = f
  keep-AnswersOf (c ∷ cs) (x ∷ xs) [] f h = f
  keep-AnswersOf (c ∷ cs) (x ∷ xs) (ok a ∷ rs) (f, fs) h = (f, keep-AnswersOf cs xs rs fs h)
  keep-AnswersOf (c ∷ cs) (x ∷ xs) (raise e ∷ rs) (f, fs) h =
      by_class (is_a e exception) refl (λ g. keep-AnswersOf cs xs rs fs g) h
    where
      raise_ok : Path (Result (Unit {0})) (raise pssh_client_exception) (ok tt) → ⊥
      raise_ok g = cc

      by_class :
          (b : Bool)
          → is_a e exception ≡ b
          → (first_failure rs ≡ ok tt → AreAnswersOf cs xs rs)
          → (if b then raise pssh_client_exception else first_failure rs) ≡ ok tt
          → (is_a e exception ≡ false) × AreAnswersOf cs xs rs
      by_class true q rest g = absurd (raise_ok g)
      by_class false q rest g = (q, rest g)

abbrev SameLength : List SshClient → List String → Type 0
SameLength [] [] = Unit
SameLength [] (x ∷ xs) = ⊥
SameLength (c ∷ cs) [] = ⊥
SameLength (c ∷ cs) (x ∷ xs) = SameLength cs xs

all-SameLength : (cmd : String) (cs : List SshClient) → SameLength cs (map (λ c. cmd) cs)
all-SameLength cmd [] = tt
all-SameLength cmd (c ∷ cs) = all-SameLength cmd cs

-- The commands are as many as the hosts.
abbrev IsCommands : List SshClient → Result (List String) → Type 0
IsCommands cs (ok cmds) = SameLength cs cmds
IsCommands cs (raise e) = Unit

module _ (format : String → String → Result String) (cmd : String) where
  format_each-IsCommands :
      (args : List String) (cs : List SshClient) → IsCommands cs (format_each format cmd args cs)
  unfolding format_each
  format_each-IsCommands args [] = tt
  format_each-IsCommands [] (c ∷ cs) = tt
  format_each-IsCommands (a ∷ args) (c ∷ cs) =
      by_first (format cmd a) (format_each format cmd args cs) (format_each-IsCommands args cs)
    where
      by_first :
          (r : Result String) (rest : Result (List String))
          → IsCommands cs rest
          → IsCommands (c ∷ cs) (r >>=? λ first. rest >>=? λ rest. ok (first ∷ rest))
      by_first (ok x) (ok xs) h = h
      by_first (ok x) (raise e) h = tt
      by_first (raise e) rest h = tt

  host_commands-IsCommands :
      (args : Option (List String)) (cs : List SshClient)
      → IsCommands cs (host_commands format cmd args cs)
  unfolding host_commands
  host_commands-IsCommands none cs = all-SameLength cmd cs
  host_commands-IsCommands (some []) cs = all-SameLength cmd cs
  host_commands-IsCommands (some (a ∷ args)) cs = format_each-IsCommands (a ∷ args) cs

first_failure-raises :
    (rs : List (Result Answer)) (x : Exn) → first_failure rs ≡ raise x → x ≡ pssh_client_exception
unfolding first_failure
first_failure-raises [] x h = absurd (ok_raise h)
  where
    ok_raise : Path (Result (Unit {0})) (ok tt) (raise x) → ⊥
    ok_raise h = cc
first_failure-raises (ok a ∷ rs) x h = first_failure-raises rs x h
first_failure-raises (raise e ∷ rs) x h = by_class (is_a e exception) (first_failure-raises rs x) h
  where
    by_class :
        (b : Bool)
        → (first_failure rs ≡ raise x → x ≡ pssh_client_exception)
        → (if b then raise pssh_client_exception else first_failure rs) ≡ raise x
        → x ≡ pssh_client_exception
    by_class true rest g = cc
    by_class false rest g = rest g

module _ {S : Type 0} (lib : Asyncssh S) (o : Options) where
  run_client-IsFrom :
      (c : SshClient) (cmd : String) (s : S) → IsFrom lib o c cmd (run_client lib c cmd o s).0
  unfolding run_client with_connection
  run_client-IsFrom c cmd s =
      and_then_ind (λ r. IsFrom lib o c cmd r.0) _ (lib.connect c s)
        (λ conn t connected.
          and_then_ind (λ r. IsFrom lib o c cmd r.0) _
            (lib.conn_run conn (full_command cmd o.sudo o.ignore_errors o.user) o.timeout t)
            (λ result u ran.
              and_then_ind (λ r. IsFrom lib o c cmd r.0) _
                (check_status lib o.ignore_errors result.exit_status u)
                (λ x v _. (conn, s, t, u, result, connected, ran, refl)) (λ e v _. tt))
            (λ e u _. tt))
        (λ e t _. tt)

  -- What gather gives for the hosts.
  abbrev Gathered : List SshClient → List String → Result (List (Result Answer)) → Type 0
  Gathered cs cmds (ok rs) = AreFrom lib o cs cmds rs
  Gathered cs cmds (raise e) = e ≡ keyboard_interrupt

  abbrev Settled : SshClient → String → Result (Result Answer) → Type 0
  Settled c cmd (ok r) = IsFrom lib o c cmd r
  Settled c cmd (raise e) = e ≡ keyboard_interrupt

  settled-Settled :
      (c : SshClient) (cmd : String) (s : S) → Settled c cmd (settled (run_client lib c cmd o) s).0
  unfolding settled
  settled-Settled c cmd s = by_result (run_client lib c cmd o s) (run_client-IsFrom c cmd s)
    where
      by_class :
          (e : Exn) (t : S) (b : Bool)
          → Settled c cmd
              (if◌then◌else◌ {A = Result (Result Answer) × S} b
                (raise keyboard_interrupt, t)
                (ok (raise e), t)).0
      by_class e t true = refl
      by_class e t false = tt

      by_result :
          (r : Result Answer × S)
          → IsFrom lib o c cmd r.0
          → Settled c cmd
              (elim r.0 as (λ _. Result (Result Answer) × S) [
                | ok a ↦ (ok (ok a), r.1)
                | raise e ↦
                    if is_a e keyboard_interrupt
                    then (raise keyboard_interrupt, r.1)
                    else (ok (raise e), r.1)
              ]).0
      by_result (ok a, t) h = h
      by_result (raise e, t) h = by_class e t (is_a e keyboard_interrupt)

  gather-Gathered :
      (cs : List SshClient) (cmds : List String) (s : S)
      → SameLength cs cmds
      → Gathered cs cmds (gather (tasks_for lib cs cmds o) s).0
  unfolding gather tasks_for
  gather-Gathered [] [] s h = tt
  gather-Gathered [] (x ∷ xs) s h = absurd h
  gather-Gathered (c ∷ cs) [] s h = absurd h
  gather-Gathered (c ∷ cs) (x ∷ xs) s h =
      by_first (settled (run_client lib c x o) s) (settled-Settled c x s)
        (λ t. gather-Gathered cs xs t h)
    where
      more : Result Answer → Exec S (List (Result Answer))
      more r = gather (tasks_for lib cs xs o) >>= λ rs. pure (r ∷ rs)

      by_rest :
          (r : Result Answer) (q : Result (List (Result Answer)) × S)
          → IsFrom lib o c x r
          → Gathered cs xs q.0
          → Gathered (c ∷ cs) (x ∷ xs) (and_then (λ rs. pure (r ∷ rs)) q).0
      by_rest r (ok rs, u) f g = (f, g)
      by_rest r (raise e, u) f g = g

      by_first :
          (q : Result (Result Answer) × S)
          → Settled c x q.0
          → ((t : S) → Gathered cs xs (gather (tasks_for lib cs xs o) t).0)
          → Gathered (c ∷ cs) (x ∷ xs) (and_then more q).0
      by_first (ok r, t) f rest = by_rest r (gather (tasks_for lib cs xs o) t) f (rest t)
      by_first (raise e, t) f rest = f

  -- Every outcome of `run`: the answers, or an error of building the commands, PsshClientException
  -- or KeyboardInterrupt.
  abbrev pub RunOutcome :
      (String → String → Result String)
      → PsshClient
      → Command
      → Option (List String)
      → Result (List (Result Answer))
      → Type 0
  RunOutcome format p cmd args (ok rs) =
      (cmds : List String) × (host_commands format (clean_cmd cmd) args p.pssh_clients ≡ ok cmds)
      × AreAnswersOf lib o p.pssh_clients cmds rs
  RunOutcome format p cmd args (raise e) =
      (host_commands format (clean_cmd cmd) args p.pssh_clients ≡ raise e)
      ⊎ ((e ≡ pssh_client_exception) ⊎ (e ≡ keyboard_interrupt))

  -- If run returns, there is one result for each host, in the order of the hosts: the host was
  -- connected to, its command ran on that connection, and the result has the host's name and
  -- the lines that the command printed; or it is what is no Exception. If run raises, the commands
  -- could not be built from the arguments, or the exception is PsshClientException or
  -- KeyboardInterrupt.
  pub run-RunOutcome :
      (format : String → String → Result String) (p : PsshClient) (cmd : Command)
      (args : Option (List String)) (s : S)
      → RunOutcome format p cmd args (run lib format p cmd args o s).0
  unfolding run run_clients
  run-RunOutcome format p cmd args s =
      by_commands (host_commands format (clean_cmd cmd) args p.pssh_clients)
        (host_commands-IsCommands format (clean_cmd cmd) args p.pssh_clients) refl
    where
      checked : List (Result Answer) → Exec S (List (Result Answer))
      checked results = lift (first_failure results) >> pure results

      by_results :
          (cmds : List String) (rs : List (Result Answer)) (t : S) (f : Result (Unit {0}))
          → host_commands format (clean_cmd cmd) args p.pssh_clients ≡ ok cmds
          → AreFrom lib o p.pssh_clients cmds rs
          → first_failure rs ≡ f
          → RunOutcome format p cmd args (and_then (λ u v. (ok rs, v)) (f, t)).0
      by_results cmds rs t (ok u) q h e = (cmds, q, keep-AnswersOf lib o p.pssh_clients cmds rs h e)
      by_results cmds rs t (raise x) q h e = inr (inl (first_failure-raises rs x e))

      by_gathered :
          (cmds : List String) (r : Result (List (Result Answer)) × S)
          → host_commands format (clean_cmd cmd) args p.pssh_clients ≡ ok cmds
          → Gathered p.pssh_clients cmds r.0
          → RunOutcome format p cmd args (and_then checked r).0
      by_gathered cmds (ok rs, t) q h = by_results cmds rs t (first_failure rs) q h refl
      by_gathered cmds (raise e, t) q h = inr (inr h)

      by_commands :
          (cmds : Result (List String))
          → IsCommands p.pssh_clients cmds
          → host_commands format (clean_cmd cmd) args p.pssh_clients ≡ cmds
          → RunOutcome format p cmd args
              (((lift cmds >>= λ cmds. gather (tasks_for lib p.pssh_clients cmds o)) >>= checked)
                s).0
      by_commands (raise e) h q = inl q
      by_commands (ok cmds) h q =
          by_gathered cmds (gather (tasks_for lib p.pssh_clients cmds o) s) q
            (gather-Gathered p.pssh_clients cmds s h)
