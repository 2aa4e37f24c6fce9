-- ===== src/Sysbench/Tests.antt =====
-- Small runs of the sysbench runner, and the theorems of this folder on them.
use xbench_community.Prelude.{
  ℕ, ◌+◌, ◌-◌, ◌*◌, ◌/◌, ltb, false, String, true, some, List, [], ◌∷◌, ◌++◌, str_eq, if◌then◌else◌,
  range_from, ◌≡◌, refl, arith,
}
use xbench_community.Exec.{ok, Exec, pure}
use xbench_community.Retry.{retry, attempts, on_failure, mark_last, iter_islast}
use xbench_community.Sysbench.{
  TpccTable, Floats, is_off, Line, sql_statistics_line, latency_line, other_line, transactions_line,
  Output, read_line, read_lines, parse_output,
}
use xbench_community.Sysbench.Parse.{AreParsed, run_thread-ok}
use xbench_community.Sysbench.Runs.{
  HostOutput, parse_hosts, run_thread_once, run_thread, Runner, run,
}
use xbench_community.Sysbench.Schedule.{Steps, Succeeds, repeats_done, run_lem}

abbrev rows_of : ℕ → ℕ
rows_of k = 10000

abbrev tpcc_rows_of : TpccTable → ℕ → ℕ
tpcc_rows_of k i = 1

-- Numbers with a sign and four digits behind the point: a part above zero and one below it.
abbrev Fixed : Type 0
Fixed = ℕ × ℕ

abbrev one : ℕ
one = 10000

abbrev fixed : Floats Fixed
fixed = record {
  float = λ n. (n * one, 0);
  divide = λ a d. (a * one / d, 0);
  minus = λ a b. ((a.0 + b.1) - (a.1 + b.0), (a.1 + b.0) - (a.0 + b.1));
  absolute = λ a. (a.0 + a.1, 0);
  times = λ a b. ((a.0 * b.0 + a.1 * b.1) / one, (a.0 * b.1 + a.1 * b.0) / one);
  above = λ a b. ltb (b.0 + a.1) (a.0 + b.1);
}

-- Rows that are missing, and rows that are too many.
is_off_runs :
    (is_off fixed 94 100 ≡ true) × (is_off fixed 96 100 ≡ false) × (is_off fixed 106 100 ≡ true)
unfolding is_off
is_off_runs = (refl, refl, refl)

abbrev lines : List String
lines = "SQL" ∷ "transactions" ∷ "Latency" ∷ []

abbrev line_of : String → Line
line_of l =
    if str_eq l "SQL"
    then sql_statistics_line
    else if str_eq l "transactions"
    then transactions_line (some (90, 300))
    else if str_eq l "Latency"
    then latency_line
    else other_line

abbrev output : Output
output = record {
  thds = 0;
  tps = 300;
  qps = 0;
  avg = 0;
  stddev = 0;
  transactions = 90;
  total_response_time = 0;
  p95_latency = 0;
  errors = 0;
  seen_latency = true;
  seen_sql_statistics = true;
}

abbrev host : HostOutput
host = record { hostname = "driver-0"; stdout = lines }

abbrev sysbench : ℕ → Exec ℕ (List HostOutput)
sysbench t s = (ok (host ∷ []), s + 1)

run_thread_example :
    (v u u' : ℕ) × (hosts : List HostOutput) × (pure {S = ℕ} tt v ≡ (ok tt, u))
    × (sysbench 8 u ≡ (ok hosts, u'))
    × (parse_hosts line_of (pure tt) sysbench (λ h. pure tt) hosts u' ≡ (ok (output ∷ []), 1))
    × AreParsed line_of (pure tt) sysbench (λ h. pure tt) hosts (output ∷ [])
unfolding run_thread run_thread_once parse_hosts parse_output read_lines read_line retry attempts
    iter_islast mark_last on_failure
run_thread_example =
    run_thread-ok line_of (pure tt) sysbench (λ h. pure tt) (λ s. 0) (λ d s. s) (1 ∷ []) 8
      (output ∷ []) 0 1 refl

-- What has been called.
data Event : Type 0 where
  pause : ℕ → Event
  workload_hook thread_hook : Event
  thread : ℕ → ℕ → Event
  repeat_saved : ℕ → Event

abbrev Log : Type 0
Log = List Event

abbrev and_log : Event → Log → Log
and_log e log = log ++ e ∷ []

-- A runner that writes down what it is asked.
abbrev runner : Runner Log ℕ (ℕ × List ℕ)
runner = record {
  num_drivers = 2;
  sleep = λ d log. (ok tt, and_log (pause d) log);
  pre_workload_run = λ log. (ok tt, and_log workload_hook log);
  pre_thread_run = λ log. (ok tt, and_log thread_hook log);
  thread = λ t r log. (ok (t ∷ []), and_log (thread t r) log);
  save_one_repeat = λ r l log. (ok (r, l), and_log (repeat_saved r) log);
  save_summary = λ frames. pure tt;
}

abbrev steps : Steps Log ℕ (ℕ × List ℕ)
steps = record {
  slept = λ d. and_log (pause d);
  workload_hook = and_log workload_hook;
  thread_hook = and_log thread_hook;
  called = λ t r. and_log (thread t r);
  rows = λ t r log. t ∷ [];
  saved = λ r l. and_log (repeat_saved r);
  frame = λ r l log. (r, l);
}

runner-Succeeds : Succeeds runner steps
runner-Succeeds = record {
  some_driver = omega arith;
  sleeps = λ d s. refl;
  workload_hooks = λ s. refl;
  thread_hooks = λ s. refl;
  runs = λ t r s. refl;
  saves = λ r l s. refl;
}

run_example :
    run runner (16 ∷ 32 ∷ []) 2 []
    ≡ runner.save_summary
        (repeats_done runner steps (16 ∷ 32 ∷ []) (range_from 1 2) []).0
        (repeats_done runner steps (16 ∷ 32 ∷ []) (range_from 1 2) []).1
run_example = run_lem runner steps (16 ∷ 32 ∷ []) 2 [] runner-Succeeds
