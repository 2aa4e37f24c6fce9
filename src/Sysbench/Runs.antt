-- ===== src/Sysbench/Runs.antt =====
-- `run` and `run_thread`. The command that `run` only logs is left out, and `sysbench` stands for
-- building the command, running it on all drivers and waiting for it.
use xbench_community.Prelude.{ℕ, ◌/◌, ◌==◌, String, List, [], ◌∷◌, ◌++◌, if◌then◌else◌, range_from}
use xbench_community.Exn.{
  is_a, zero_division_error, benchmark_exception, node_exception, sysbench_output_parse_exception,
  ssh_client_timeout_exception, sysbench_fatal_exception,
}
use xbench_community.Exec.{Result, ok, raise, Exec, pure, throw, lift, ◌>>=◌, ◌>>◌}
use xbench_community.Retry.{Policy, retry}
use xbench_community.Sysbench.{Output, Line, parse_output}

abbrev pub run_policy : List ℕ → Policy
run_policy delays = record {
  exceptions_to_check =
      node_exception ∷ sysbench_output_parse_exception ∷ ssh_client_timeout_exception
      ∷ sysbench_fatal_exception ∷ [];
  exception_to_raise = benchmark_exception;
  max_delay = 600;
  delays = delays;
}

-- The output of one driver, in lines.
pub record HostOutput : Type 0 where
  pub hostname : String
  pub stdout : List String

module _ {S : Type 0} (line_of : String → Line) (kill : Exec S (Unit {0}))
    (sysbench : ℕ → Exec S (List HostOutput)) (save_output : HostOutput → Exec S (Unit {0})) where
  -- The loop over the outputs: each is saved before it is parsed.
  unfoldable pub parse_hosts : List HostOutput → Exec S (List Output)
  unfolding parse_output
  parse_hosts [] = pure []
  parse_hosts (h ∷ hosts) = do
    save_output h
    single_host_results ← lift (parse_output line_of h.stdout)
    thread_results ← parse_hosts hosts
    pure (single_host_results ∷ thread_results)

  -- `run_thread` as it stands under the decorator
  unfoldable pub run_thread_once : ℕ → Exec S (List Output)
  unfolding parse_hosts
  run_thread_once t = kill >> sysbench t >>= parse_hosts

  unfoldable pub run_thread : (S → ℕ) → (ℕ → S → S) → List ℕ → ℕ → Exec S (List Output)
  unfolding run_thread_once
  run_thread now sleep delays t = retry now sleep (run_policy delays) (run_thread_once t)

-- What `run` calls; the two hooks do nothing where they are not configured.
pub record Runner (S Row Frame : Type 0) : Type 0 where
  pub num_drivers : ℕ
  pub sleep : ℕ → Exec S (Unit {0})
  pub pre_workload_run : Exec S (Unit {0})
  pub pre_thread_run : Exec S (Unit {0})
  -- threads for each driver, and the number of the repeat
  pub thread : ℕ → ℕ → Exec S (List Row)
  pub save_one_repeat : ℕ → List Row → Exec S Frame
  pub save_summary : List Frame → Exec S (Unit {0})

module _ {S Row Frame : Type 0} (runner : Runner S Row Frame) where
  -- `int(t / num_drivers)`
  unfoldable pub per_driver : ℕ → Result ℕ
  per_driver t =
      if runner.num_drivers == 0 then raise zero_division_error else ok (t / runner.num_drivers)

  unfoldable pub run_each : ℕ → List ℕ → List Row → Exec S (List Row)
  unfolding per_driver
  run_each r [] this_repeat_results = pure this_repeat_results
  run_each r (t ∷ threads) this_repeat_results = do
    runner.sleep 30
    runner.pre_thread_run
    per_driver_t ← lift (per_driver t)
    thread_results ← runner.thread per_driver_t r
    run_each r threads (this_repeat_results ++ thread_results)

  unfoldable pub one_repeat : List ℕ → ℕ → Exec S Frame
  unfolding run_each
  one_repeat threads r = do
    runner.pre_workload_run
    this_repeat_results ← run_each r threads []
    runner.save_one_repeat r this_repeat_results

  -- A repeat that is done adds its frame to all_results, which outlives an exception.
  unfoldable pub continued :
      (List Frame → S → Result (Unit {0}) × List Frame × S)
      → List Frame
      → Result Frame × S
      → Result (Unit {0}) × List Frame × S
  continued rest all_results (ok df, s) = rest (all_results ++ df ∷ []) s
  continued rest all_results (raise e, s) = (raise e, all_results, s)

  unfoldable pub repeats_from :
      List ℕ → List ℕ → List Frame → S → Result (Unit {0}) × List Frame × S
  unfolding one_repeat continued
  repeats_from threads [] all_results s = (ok tt, all_results, s)
  repeats_from threads (r ∷ rs) all_results s =
      continued (repeats_from threads rs) all_results (one_repeat threads r s)

  -- The `except` and `finally` clauses: `success` is False only after a BenchmarkException.
  unfoldable pub finally_clause : Result (Unit {0}) × List Frame × S → Result (Unit {0}) × S
  finally_clause (ok a, all_results, s) = runner.save_summary all_results s
  finally_clause (raise e, all_results, s) =
      if is_a e benchmark_exception
      then (raise benchmark_exception, s)
      else (runner.save_summary all_results >> throw e) s

  unfoldable pub run : List ℕ → ℕ → Exec S (Unit {0})
  unfolding repeats_from finally_clause
  run threads repeats s = finally_clause (repeats_from threads (range_from 1 repeats) [] s)
