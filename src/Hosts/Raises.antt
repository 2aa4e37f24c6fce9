-- ===== src/Hosts/Raises.antt =====
-- Which exceptions leave the methods of a node and of several nodes.
use xbench_community.Prelude.{ℕ, String, Bool, Option, List, [], ◌∷◌, ◌≡◌, ◌≢◌, refl, ap, sym}
use xbench_community.Exn.{
  Exn, is_a, is_any_of, node_exception, multi_node_exception, pssh_client_exception,
  keyboard_interrupt,
}
use mathlib.Core.Path.{subst}
use xbench_community.Exec.{Result, ok, raise, Exec, pure, handle, and_then, convert, RaisesOnly}
use xbench_community.Retry.{backoff}
use xbench_community.Retry.Outcomes.{
  RaisesOnlyClass, IsPermitted-RaisesOnlyClass, convert-RaisesOnlyClass, retry-IsPermitted,
}
use xbench_community.Ssh.{Command, Options}
use xbench_community.Ssh.Parallel.{gather, on_copy_error, run as run_pssh}
use xbench_community.Ssh.Outcomes.{send_files_lem, copies, gather-raises}
use xbench_community.Hosts.{HostNode, System, node_policy, unsafe_run, run}
use xbench_community.Hosts.Multi.{
  MultiNode, head_of, all_nodes_policy, run_on_one_node, run_on_all_nodes, scp_to_all_nodes,
}

some_delays : backoff 10 3 ≢ []
unfolding backoff
some_delays h = cc

module _ {S : Type 0} (sys : System S) (format : String → String → Result String) where
  -- Node.run
  node_run-raises :
      (n : HostNode) (cmd : Command) (o : Options) (s : S)
      → RaisesOnlyClass node_exception (run sys n cmd o s).0
  unfolding run
  node_run-raises n cmd o s = IsPermitted-RaisesOnlyClass node_policy _ (
      retry-IsPermitted sys.ssh.now sys.ssh.sleep node_policy (unsafe_run sys n cmd o) s
        some_delays)

  run_on_head :
      (m : MultiNode) (n : HostNode) (l : List HostNode) (cmd : Command) (o : Options) (s : S)
      → m.nodes ≡ n ∷ l
      → RaisesOnlyClass multi_node_exception (run_on_one_node sys format m cmd o s).0
  unfolding run_on_one_node head_of is_a
  run_on_head m n l cmd o s q = rw q (
      convert-RaisesOnlyClass node_exception multi_node_exception node_exception refl
        (run sys n cmd o s) (node_run-raises n cmd o s))

  -- Whatever the hosts do, with a head node: run_on_one_node and run_on_all_nodes raise
  -- MultiNodeException itself, SigTermException, or what is no Exception.
  pub multi_node-raises :
      (m : MultiNode) (cmd : Command) (args : Option (List String)) (o : Options) (s : S)
      → m.nodes ≢ []
      → RaisesOnlyClass multi_node_exception (run_on_one_node sys format m cmd o s).0
        × RaisesOnlyClass multi_node_exception (run_on_all_nodes sys format m cmd args o s).0
  unfolding run_on_all_nodes
  multi_node-raises m cmd args o s some_node = (
    on_one m.nodes refl,
    IsPermitted-RaisesOnlyClass all_nodes_policy _ (
        retry-IsPermitted sys.ssh.now sys.ssh.sleep all_nodes_policy
          (run_pssh sys.ssh format m.pssh cmd args o) s some_delays),
  )
    where
      on_one :
          (l : List HostNode)
          → m.nodes ≡ l
          → RaisesOnlyClass multi_node_exception (run_on_one_node sys format m cmd o s).0
      on_one [] q = absurd (some_node q)
      on_one (n ∷ l) q = run_on_head m n l cmd o s q

  -- If _scp_send has a delay, scp_to_all_nodes returns, or raises KeyboardInterrupt, whatever else
  -- connecting to the hosts and copying raise; the state is the one after all hosts have been
  -- tried, or after the interrupt.
  pub scp_to_all_nodes_lem :
      (m : MultiNode) (local remote : String) (recursive : Bool) (d : ℕ) (ds : List ℕ) (s : S)
      → sys.ssh.scp_delays ≡ d ∷ ds
      → RaisesOnly
          (λ e. e ≡ keyboard_interrupt)
          (scp_to_all_nodes sys format m local remote recursive s).0
        × ((scp_to_all_nodes sys format m local remote recursive s).1
            ≡ (gather (copies sys.ssh m.pssh local remote recursive) s).1)
  unfolding scp_to_all_nodes on_copy_error is_a is_any_of
  scp_to_all_nodes_lem m local remote recursive d ds s e =
      subst Outcome
        (sym (ap (handle failed) (send_files_lem sys.ssh m.pssh local remote recursive d ds s e)))
        (copied (gather (copies sys.ssh m.pssh local remote recursive) s)
          (gather-raises (copies sys.ssh m.pssh local remote recursive) s))
    where
      failed : Exn → Exec S (Unit {0})
      failed e = convert (λ x. is_a x pssh_client_exception) multi_node_exception e

      Outcome : Result (Unit {0}) × S → Type 0
      Outcome r =
          RaisesOnly (λ e. e ≡ keyboard_interrupt) r.0
          × (r.1 ≡ (gather (copies sys.ssh m.pssh local remote recursive) s).1)

      passed : Result (List (Result (Unit {0}))) × S → Result (Unit {0}) × S
      passed r = handle failed (handle on_copy_error (and_then (λ results. pure tt) r))

      copied :
          (r : Result (List (Result (Unit {0}))) × S)
          → RaisesOnly (λ e. e ≡ keyboard_interrupt) r.0
          → RaisesOnly (λ e. e ≡ keyboard_interrupt) (passed r).0 × ((passed r).1 ≡ r.1)
      copied (ok l, t) h = (tt, refl)
      copied (raise x, t) h = subst Interrupted (sym h) (refl, refl)
        where
          Interrupted : Exn → Type 0
          Interrupted x =
              RaisesOnly (λ e. e ≡ keyboard_interrupt) (passed (raise x, t)).0
              × ((passed (raise x, t)).1 ≡ t)
