-- ===== src/Sysbench/Check.antt =====
-- What `data_check` accepts.
use xbench_community.Prelude.{ℕ, Bool, true, not, ◌&&◌, List, [], ◌∷◌, if◌then◌else◌, ◌≡◌}
use xbench_community.Exn.{benchmark_exception}
use xbench_community.Exec.{Result, ok, raise, Exec}
use xbench_community.Sysbench.{TpccTable, desired_rows, Floats, is_off}

abbrev pub all : {A : Type 0} → (A → Bool) → List A → Bool
all p [] = true
all p (x ∷ xs) = p x && all p xs

-- A check that passes, or raises BenchmarkException.
abbrev pub verdict : Bool → Result (Unit {0})
verdict b = if b then ok tt else raise benchmark_exception

module _ {S F : Type 0} (floats : Floats F) (rows : ℕ → ℕ) (tpcc_rows : TpccTable → ℕ → ℕ)
    (count : ℕ → Exec S ℕ) (tpcc_count : TpccTable → ℕ → Exec S ℕ)
    (reads : (k : ℕ) (s : S) → count k s ≡ (ok (rows k), s))
    (tpcc_reads : (k : TpccTable) (i : ℕ) (s : S)
      → tpcc_count k i s ≡ (ok (tpcc_rows k i), s)) where
  -- Whether a table of tpc-c has about the rows that it should have.
  abbrev pub is_close : ℕ → ℕ → TpccTable → Bool
  is_close scale i k = not (is_off floats (tpcc_rows k i) (desired_rows scale k))
