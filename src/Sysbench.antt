-- ===== src/Sysbench.antt =====
-- benchmark/sysbench/sysbench_runner.py: the check of the data, the runs over threads and repeats,
-- and the reading of sysbench's output. The regular expressions, the drivers and pandas are
-- parameters. Numbers that the code reads as floats are natural numbers here, as hundredths.
pub mod Check
pub mod Parse
pub mod Runs
pub mod Schedule
mod Tests
use xbench_community.Prelude.{
  ℕ, zero, suc, ◌+◌, ◌-◌, ◌*◌, ◌/◌, String, Bool, true, false, not, ◌&&◌, ◌||◌, Option, some, none,
  List, [], ◌∷◌, ◌++◌, if◌then◌else◌, ltb, ◌==◌, range_from, map,
}
use xbench_community.Exn.{
  Exn, is_a, zero_division_error, benchmark_exception, sysbench_fatal_exception,
  sysbench_output_parse_exception, node_exception, ssh_client_timeout_exception,
}
use xbench_community.Exec.{
  Result, ok, raise, Exec, pure, throw, lift, ◌>>=◌, ◌>>◌, for_each, ◌>>=?◌,
}
use xbench_community.Retry.{Policy, retry}

-- The tables of tpc-c that `tpcc_scale_factors` names.
pub data TpccTable : Type 0 where
  customer district item warehouse : TpccTable

abbrev pub tpcc_tables : List TpccTable
tpcc_tables = customer ∷ district ∷ item ∷ warehouse ∷ []

-- `eval(v)` for the texts of tpcc_scale_factors
unfoldable pub desired_rows : ℕ → TpccTable → ℕ
desired_rows scale customer = scale * 30000
desired_rows scale district = scale * 10
desired_rows scale item = 100000
desired_rows scale warehouse = scale

abbrev pub error_pct : ℕ
error_pct = 5

-- Python's floats, which round: an integer as one, the division of integers, and what `data_check`
-- does with the quotient.
pub record Floats (F : Type 0) : Type 0 where
  pub float : ℕ → F
  pub divide : ℕ → ℕ → F
  pub minus : F → F → F
  pub absolute : F → F
  pub times : F → F → F
  pub above : F → F → Bool

-- `abs(1 - actual_rows / desired_rows) * 100 > ERROR_PCT`, where some rows are desired
unfoldable pub is_off : {F : Type 0} → Floats F → ℕ → ℕ → Bool
is_off floats actual_rows desired_rows =
    let deviation =
      floats.absolute (floats.minus (floats.float 1) (floats.divide actual_rows desired_rows)) in
    floats.above (floats.times deviation (floats.float 100)) (floats.float error_pct)

module _ {S F : Type 0} (floats : Floats F) where
  -- The loop over the tables of oltp: `count k` is the number of rows of sbtest{k}.
  unfoldable pub check_oltp : (ℕ → Exec S ℕ) → ℕ → List ℕ → Exec S (Unit {0})
  check_oltp count table_size [] = pure tt
  check_oltp count table_size (k ∷ ks) = count k >>= λ actual_rows.
      if actual_rows == table_size
      then check_oltp count table_size ks
      else throw benchmark_exception

  -- The loop over tpcc_scale_factors, for the tables with the number i.
  unfoldable pub check_tpcc_tables :
      (TpccTable → ℕ → Exec S ℕ) → ℕ → ℕ → List TpccTable → Exec S (Unit {0})
  unfolding desired_rows is_off
  check_tpcc_tables count scale i [] = pure tt
  check_tpcc_tables count scale i (k ∷ ks) = count k i >>= λ actual_rows.
      if desired_rows scale k == 0
      then throw zero_division_error
      else if is_off floats actual_rows (desired_rows scale k)
      then throw benchmark_exception
      else check_tpcc_tables count scale i ks

  unfoldable pub check_tpcc : (TpccTable → ℕ → Exec S ℕ) → ℕ → List ℕ → Exec S (Unit {0})
  unfolding check_tpcc_tables
  check_tpcc count scale [] = pure tt
  check_tpcc count scale (i ∷ is) =
      check_tpcc_tables count scale i tpcc_tables >> check_tpcc count scale is

  -- `data_check`: the kind of script by the start of its name
  unfoldable pub data_check :
      Bool → Bool → (ℕ → Exec S ℕ) → (TpccTable → ℕ → Exec S ℕ) → ℕ → ℕ → ℕ → Exec S (Unit {0})
  unfolding check_oltp check_tpcc
  data_check oltp tpcc count tpcc_count tables table_size scale =
      (if oltp then check_oltp count table_size (range_from 1 tables) else pure tt)
      >> (if tpcc then check_tpcc tpcc_count scale (range_from 1 tables) else pure tt)

-- What a line of the output is, by its start. `none` stands for a regular expression that does
-- not match; the code takes 0 then.
pub data Line : Type 0 where
  fatal_line sql_statistics_line latency_line other_line : Line
  histogram_line : Option (ℕ × ℕ) → Line
  threads_line : Option ℕ → Line
  transactions_line : Option (ℕ × ℕ) → Line
  queries_line : Option ℕ → Line
  ignored_errors_line : Option ℕ → Line
  percentile_line : Option ℕ → Line
  sum_line : Option ℕ → Line

-- The variables of `parse_output`.
pub record Output : Type 0 where
  pub thds : ℕ
  pub tps : ℕ
  pub qps : ℕ
  pub avg : ℕ
  pub stddev : ℕ
  pub transactions : ℕ
  pub total_response_time : ℕ
  pub p95_latency : ℕ
  pub errors : ℕ
  pub seen_latency : Bool
  pub seen_sql_statistics : Bool

abbrev pub or_zero : Option ℕ → ℕ
or_zero none = 0
or_zero (some n) = n

abbrev pub or_zeros : Option (ℕ × ℕ) → ℕ × ℕ
or_zeros none = (0, 0)
or_zeros (some p) = p

abbrev pub no_output : Output
no_output = record {
  thds = 0;
  tps = 0;
  qps = 0;
  avg = 0;
  stddev = 0;
  transactions = 0;
  total_response_time = 0;
  p95_latency = 0;
  errors = 0;
  seen_latency = false;
  seen_sql_statistics = false;
}

-- The body of the loop over the lines. A second "SQL statistics:" after "Latency (ms):" does not
-- take the latter back.
unfoldable pub read_line : Output → Line → Result Output
read_line o fatal_line = raise sysbench_fatal_exception
read_line o sql_statistics_line = ok (record o { seen_sql_statistics = true })
read_line o latency_line = ok (record o { seen_latency = true })
read_line o other_line = ok o
read_line o (histogram_line m) = ok (record o { avg = (or_zeros m).0; stddev = (or_zeros m).1 })
read_line o (threads_line m) =
    if o.seen_sql_statistics then ok o else ok (record o { thds = or_zero m })
read_line o (transactions_line m) =
    if o.seen_sql_statistics && not o.seen_latency
    then ok (record o { transactions = (or_zeros m).0; tps = (or_zeros m).1 })
    else ok o
read_line o (queries_line m) =
    if o.seen_sql_statistics && not o.seen_latency then ok (record o { qps = or_zero m }) else ok o
read_line o (ignored_errors_line m) =
    if o.seen_sql_statistics && not o.seen_latency
    then ok (record o { errors = or_zero m })
    else ok o
read_line o (percentile_line m) =
    if o.seen_latency then ok (record o { p95_latency = or_zero m }) else ok o
read_line o (sum_line m) =
    if o.seen_latency then ok (record o { total_response_time = or_zero m }) else ok o

unfoldable pub read_lines : Output → List Line → Result Output
unfolding read_line
read_lines o [] = ok o
read_lines o (l ∷ ls) = read_line o l >>=? λ o'. read_lines o' ls

unfoldable pub parse_output : (String → Line) → List String → Result Output
unfolding read_lines
parse_output line_of lines = read_lines no_output (map line_of lines) >>=? λ o.
    if ltb 0 o.tps then ok o else raise sysbench_output_parse_exception
