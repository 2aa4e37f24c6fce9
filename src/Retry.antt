-- ===== src/Retry.antt =====
-- common/retry_decorator.py: the delay sequences and the `retry` decorator. A decorated function
-- is an action on a state that also holds the clock; `now` reads it in microseconds, and `sleep` takes
-- seconds. Exceptions are their classes, and logging is not modelled.
pub mod First
pub mod Delays
pub mod Outcomes
pub mod Budget
pub mod Script
pub mod Returns
mod Tests
use xbench_community.Prelude.{
  ℕ, zero, suc, ◌-◌, ◌/◌, ◌*◌, ◌^◌, min, Bool, true, false, List, [], ◌∷◌, ltb, if◌then◌else◌, map,
  range_from,
}
use xbench_community.Exn.{
  Exn, is_a, is_any_of, runtime_error, sig_term_exception, exception, value_error,
}
use xbench_community.Exec.{Result, ok, raise, Exec, pure, throw, lift, ◌>>=◌, try_except}

-- The pairs that `iter_islast` yields once its first item is there.
unfoldable pub mark_last {ℓ} : {A : Type ℓ} → A → List A → List (A × Bool)
mark_last prev [] = (prev, true) ∷ []
mark_last prev (item ∷ rest) = (prev, false) ∷ mark_last item rest

-- `next(it)` on an empty iterable raises StopIteration inside a generator, which Python turns
-- into a RuntimeError.
unfoldable pub iter_islast {ℓ} : {A : Type ℓ} → List A → Result (List (A × Bool))
unfolding mark_last
iter_islast [] = raise runtime_error
iter_islast (prev ∷ rest) = ok (mark_last prev rest)

unfoldable pub constant_delay : ℕ → ℕ → List ℕ
constant_delay delay zero = []
constant_delay delay (suc attempts) = delay ∷ constant_delay delay attempts

unfoldable pub backoff : ℕ → ℕ → List ℕ
backoff delay attempts = map (λ i. delay * 2 ^ i) (range_from 0 attempts)

-- `randrange(0, b)` raises a ValueError for an empty range; `draw` gives the numbers drawn.
unfoldable pub randrange : {S : Type 0} → (ℕ → Exec S ℕ) → ℕ → Exec S ℕ
randrange draw zero = throw value_error
randrange draw (suc b) = draw (suc b)

module _ {S : Type 0} (draw : ℕ → Exec S ℕ) (delay cap : ℕ) where
  jitter_delays : List ℕ → Exec S (List ℕ)
  unfolding randrange
  jitter_delays [] = pure []
  jitter_delays (i ∷ is) = do
    d ← randrange draw (min cap (delay * 2 ^ i))
    ds ← jitter_delays is
    pure (d ∷ ds)

  pub backoff_with_jitter : ℕ → Exec S (List ℕ)
  unfolding jitter_delays
  backoff_with_jitter attempts = jitter_delays (range_from 0 attempts)

-- The arguments of `retry`.
pub record Policy : Type 0 where
  pub exceptions_to_check : List Exn
  pub exception_to_raise : Exn
  pub max_delay : ℕ
  pub delays : List ℕ

module _ {S A : Type 0} (now : S → ℕ) (sleep : ℕ → S → S) (policy : Policy) where
  -- The `except` clauses of `f_retry`. `again` is the rest of the loop; `int(total_seconds())` cuts
  -- the part of a second off.
  unfoldable pub on_failure : ℕ → ℕ → Bool → Exec S A → Exn → Exec S A
  on_failure time_started delay last again e s =
      if is_any_of e policy.exceptions_to_check
      then (if ltb policy.max_delay ((now s - time_started) / 1000000)
          then (raise policy.exception_to_raise, s)
          else if last
          then again s
          else again (sleep delay s))
      else if is_a e sig_term_exception
      then (raise e, s)
      else if is_a e exception
      then (raise policy.exception_to_raise, s)
      else (raise e, s)

  -- The `for` loop, and the raise behind it.
  unfoldable pub attempts : Exec S A → ℕ → List (ℕ × Bool) → Exec S A
  unfolding on_failure
  attempts f time_started [] = throw policy.exception_to_raise
  attempts f time_started ((delay, last) ∷ rest) =
      try_except f (on_failure time_started delay last (attempts f time_started rest))

  unfoldable pub retry : Exec S A → Exec S A
  unfolding attempts iter_islast
  retry f s = (lift (iter_islast policy.delays) >>= attempts f (now s)) s
