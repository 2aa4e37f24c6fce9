-- ===== src/Ssh/Outcomes.antt =====
-- What the methods of the two clients return, and what they raise.
use xbench_community.Prelude.{
  ℕ, String, Bool, true, false, List, [], ◌∷◌, map, ◌≡◌, ◌≢◌, refl, if◌then◌else◌,
}
use xbench_community.Exn.{Exn, is_a, keyboard_interrupt}
use xbench_community.Exec.{
  Result, ok, raise, Exec, pure, handle, and_then, RaisesOnly, and_then-RaisesOnly,
}
use xbench_community.Retry.First.{retry-returns}
use xbench_community.Retry.Outcomes.{IsPermitted, retry-IsPermitted}
use xbench_community.Ssh.{
  SshClient, Asyncssh, Command, Options, with_connection, unsafe_run, run, run_policy, copy_policy,
  scp_send,
}
use xbench_community.Ssh.Parallel.{
  PsshClient, settled, gather, scp_tasks, send_file_scp, send_files, on_copy_error,
}

module _ {S : Type 0} (lib : Asyncssh S) where
  -- Whatever the host does, `run` with at least one delay never raises SshClientTimeoutException:
  -- what it raises is SshClientException itself, SigTermException, or what is no Exception.
  run-raises :
      (c : SshClient) (cmd : Command) (o : Options) (s : S)
      → lib.run_delays ≢ []
      → IsPermitted (run_policy lib.run_delays) (run lib c cmd o s).0
  unfolding run
  run-raises c cmd o s some_delay =
      retry-IsPermitted lib.now lib.sleep (run_policy lib.run_delays) (unsafe_run lib c cmd o) s
        some_delay

  scp_send_lem :
      (c : SshClient) (local remote : String) (recursive : Bool) (d : ℕ) (ds : List ℕ) (s : S)
      → lib.scp_delays ≡ d ∷ ds
      → scp_send lib c local remote recursive s
        ≡ (ok (with_connection lib c (λ conn. lib.scp_to conn local remote recursive)), s)
  unfolding scp_send
  scp_send_lem c local remote recursive d ds s e =
      retry-returns lib.now lib.sleep (copy_policy lib.scp_delays)
        (pure (with_connection lib c (λ conn. lib.scp_to conn local remote recursive))) d ds s s _ e
        refl

  scp_tasks_lem :
      (cs : List SshClient) (local remote : String) (recursive : Bool) (d : ℕ) (ds : List ℕ) (s : S)
      → lib.scp_delays ≡ d ∷ ds
      → scp_tasks lib cs local remote recursive s ≡ (
        ok (map (λ c. with_connection lib c (λ conn. lib.scp_to conn local remote recursive)) cs),
        s,
      )
  unfolding scp_tasks
  scp_tasks_lem [] local remote recursive d ds s e = refl
  scp_tasks_lem (c ∷ cs) local remote recursive d ds s e =
      rw
        (
          scp_send_lem c local remote recursive d ds s e,
          scp_tasks_lem cs local remote recursive d ds s e,
        )
        refl

  -- The coroutines of `send_files`.
  abbrev pub copies : PsshClient → String → String → Bool → List (Exec S (Unit {0}))
  copies p local remote recursive =
      map (λ c. with_connection lib c (λ conn. lib.scp_to conn local remote recursive))
        p.pssh_clients

  -- If _scp_send has a delay, send_files copies to each host, and looks at none of the outcomes.
  pub send_files_lem :
      (p : PsshClient) (local remote : String) (recursive : Bool) (d : ℕ) (ds : List ℕ) (s : S)
      → lib.scp_delays ≡ d ∷ ds
      → send_files lib p local remote recursive s
        ≡ handle on_copy_error
            (and_then (λ results. pure tt) (gather (copies p local remote recursive) s))
  unfolding send_files send_file_scp
  send_files_lem p local remote recursive d ds s e =
      rw (scp_tasks_lem p.pssh_clients local remote recursive d ds s e) refl

-- What leaves gather is KeyboardInterrupt.
pub gather-raises :
    {S A : Type 0} (tasks : List (Exec S A)) (s : S)
    → RaisesOnly (λ e. e ≡ keyboard_interrupt) (gather tasks s).0
unfolding gather settled
gather-raises [] s = tt
gather-raises {S = S} {A = A} (task ∷ tasks) s =
    and_then-RaisesOnly (λ e. e ≡ keyboard_interrupt) _ (settled task s) (first (task s))
      (λ r t.
        and_then-RaisesOnly (λ e. e ≡ keyboard_interrupt) _ (gather tasks t) (gather-raises tasks t)
          (λ rs u. tt))
  where
    by_class :
        (e : Exn) (t : S) (b : Bool)
        → RaisesOnly
            (λ e. e ≡ keyboard_interrupt)
            (if◌then◌else◌ {A = Result (Result A) × S} b
              (raise keyboard_interrupt, t)
              (ok (raise e), t)).0
    by_class e t true = refl
    by_class e t false = tt

    first :
        (r : Result A × S)
        → RaisesOnly
            (λ e. e ≡ keyboard_interrupt)
            (elim r.0 as (λ _. Result (Result A) × S) [
              | ok a ↦ (ok (ok a), r.1)
              | raise e ↦
                  if is_a e keyboard_interrupt
                  then (raise keyboard_interrupt, r.1)
                  else (ok (raise e), r.1)
            ]).0
    first (ok a, t) = tt
    first (raise e, t) = by_class e t (is_a e keyboard_interrupt)
