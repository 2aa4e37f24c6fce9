-- ===== src/Memoize.antt =====
-- lib/xpand_monitor/memoize.py: the decorator that turns sums into differences. Numbers are those
-- of Python, so their arithmetic is a parameter.
pub mod Cache
mod Tests
use xbench_community.Prelude.{
  String, Bool, Option, none, some, List, [], ◌∷◌, Dict, lookup, insert, if◌then◌else◌,
}
use xbench_community.Exn.{key_error}
use xbench_community.Exec.{Result, ok, raise, Exec, ◌>>=?◌}
use xbench_community.Cluster.{is_in}

-- `a - b`, and `round(float(a) / sec, 1)`, which fails where no time has passed
pub record Numbers (N : Type 0) : Type 0 where
  pub minus : N → N → N
  pub per_second : N → N → Result N

-- The lists that the decorator is given.
pub record Metrics : Type 0 where
  pub cumsum_metrics : List String
  pub rate_metrics : List String

-- What is kept for a monitor.
pub record Entry (N : Type 0) : Type 0 where
  pub timestamp : N
  pub return_dict : Dict N

module _ {N : Type 0} (numbers : Numbers N) (metrics : Metrics) where
  -- `prev_values[k]`
  unfoldable pub previous : String → Dict N → Result N
  previous k prev = elim (lookup k prev) [ none ↦ raise key_error | some v ↦ ok v ]

  -- The body of the loop: the value of one metric.
  unfoldable pub measure : N → Dict N → String → N → Result N
  unfolding previous
  measure sec_diff prev k v =
      if is_in k metrics.cumsum_metrics
      then (previous k prev >>=? λ p. ok (numbers.minus v p))
      else if is_in k metrics.rate_metrics
      then (previous k prev >>=? λ p. numbers.per_second (numbers.minus v p) sec_diff)
      else ok v

  -- The loop; the keys of a dictionary are distinct, so each is new in the result.
  unfoldable pub measure_all : N → Dict N → Dict N → Result (Dict N)
  unfolding measure
  measure_all sec_diff prev [] = ok []
  measure_all sec_diff prev ((k, v) ∷ curr) = measure sec_diff prev k v >>=? λ first.
      measure_all sec_diff prev curr >>=? λ rest. ok ((k, first) ∷ rest)

  -- The wrapper, for what the function has just returned: the monitor and its values. The cache is
  -- the state; a raise in the loop leaves it as it was.
  unfoldable pub memoized : N → String → Dict N → Exec (Dict (Entry N)) (Dict N)
  unfolding measure_all
  memoized utc_now monitor_inst curr_values cache =
      let updated =
        insert monitor_inst (record { timestamp = utc_now; return_dict = curr_values }) cache in
      elim (lookup monitor_inst cache) [
        | none ↦ (ok [], updated)
        | some e ↦
            elim (measure_all (numbers.minus utc_now e.timestamp) e.return_dict curr_values) [
              | raise x ↦ (raise x, cache)
              | ok d ↦ (ok (insert "timestamp" utc_now d), updated)
            ]
      ]
