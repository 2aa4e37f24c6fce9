-- ===== src/Memoize/Tests.antt =====
-- The second call for a monitor.
use xbench_community.Prelude.{ℕ, ◌-◌, ◌/◌, [], ◌∷◌, Dict, lookup}
use xbench_community.Exec.{ok}
use xbench_community.Memoize.{Numbers, Metrics, Entry, memoized}
use xbench_community.Memoize.Cache.{CallOutcome, memoized-CallOutcome}

abbrev whole_numbers : Numbers ℕ
whole_numbers = record { minus = λ a b. a - b; per_second = λ a sec. ok (a / sec) }

abbrev metrics : Metrics
metrics = record { cumsum_metrics = []; rate_metrics = "qps" ∷ [] }

abbrev before : Dict (Entry ℕ)
before = ("xpand", record { timestamp = 10; return_dict = ("qps", 100) ∷ [] }) ∷ []

memoized_example :
    CallOutcome whole_numbers metrics 20 "xpand"
      (("qps", 300) ∷ [])
      before
      (lookup "xpand" before)
      (memoized whole_numbers metrics 20 "xpand" (("qps", 300) ∷ []) before)
memoized_example = memoized-CallOutcome whole_numbers metrics 20 "xpand" (("qps", 300) ∷ []) before
