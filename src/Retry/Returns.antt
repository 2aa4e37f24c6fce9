-- ===== src/Retry/Returns.antt =====
-- Where a value that a decorated function returns comes from.
use xbench_community.Prelude.{
  ℕ, ◌-◌, ◌/◌, ◌≡◌, Bool, true, false, List, [], ◌∷◌, refl, ltb, if◌then◌else◌,
}
use xbench_community.Exn.{Exn, is_any_of, is_a, sig_term_exception, exception}
use xbench_community.Exec.{Result, ok, raise, Exec, handle_ind}
use xbench_community.Retry.{Policy, mark_last, on_failure, attempts, retry}
use xbench_community.Retry.First.{retry-cons, retry-nil}

module _ {S A : Type 0} (now : S → ℕ) (sleep : ℕ → S → S) (policy : Policy) (f : Exec S A) where
  -- A value is one that a call has just returned.
  abbrev pub IsReturned : Result A × S → Type 0
  IsReturned (ok a, s') = (t : S) × (f t ≡ (ok a, s'))
  IsReturned (raise e, s') = Unit

  on_failure-IsReturned :
      (started delay : ℕ) (last : Bool) (again : Exec S A) (e : Exn) (s : S)
      → ((u : S) → IsReturned (again u))
      → IsReturned (on_failure now sleep policy started delay last again e s)
  unfolding on_failure
  on_failure-IsReturned started delay last again e s h =
      by_clause (is_any_of e policy.exceptions_to_check)
        (ltb policy.max_delay ((now s - started) / 1000000)) last (is_a e sig_term_exception)
        (is_a e exception)
    where
      by_clause :
          (checked late final term plain : Bool)
          → IsReturned (
              if checked
              then (if late
                  then (raise policy.exception_to_raise, s)
                  else if final
                  then again s
                  else again (sleep delay s))
              else if term
              then (raise e, s)
              else if plain
              then (raise policy.exception_to_raise, s)
              else (raise e, s))
      by_clause true true final term plain = tt
      by_clause true false true term plain = h s
      by_clause true false false term plain = h (sleep delay s)
      by_clause false late final true plain = tt
      by_clause false late final false true = tt
      by_clause false late final false false = tt

  attempts-IsReturned :
      (started : ℕ) (marked : List (ℕ × Bool)) (s : S)
      → IsReturned (attempts now sleep policy f started marked s)
  unfolding attempts
  attempts-IsReturned started [] s = tt
  attempts-IsReturned started ((delay, last) ∷ rest) s =
      handle_ind IsReturned
        (on_failure now sleep policy started delay last (attempts now sleep policy f started rest))
        (f s) (λ a u e. (s, e))
        (λ e u _.
          on_failure-IsReturned started delay last (attempts now sleep policy f started rest) e u
            (attempts-IsReturned started rest))

-- A value that a decorated function returns is the one that its last call returned, and the state
-- is the one that this call left: nothing is slept or called after it.
pub retry-IsReturned :
    {S A : Type 0} (now : S → ℕ) (sleep : ℕ → S → S) (policy : Policy) (f : Exec S A) (s : S)
    → IsReturned now sleep policy f (retry now sleep policy f s)
retry-IsReturned now sleep policy f s = by_delays policy.delays refl
  where
    by_delays :
        (delays : List ℕ)
        → policy.delays ≡ delays
        → IsReturned now sleep policy f (retry now sleep policy f s)
    by_delays [] e = rw (retry-nil now sleep policy f s e) tt
    by_delays (d ∷ ds) e =
        rw (retry-cons now sleep policy f s d ds e)
          (attempts-IsReturned now sleep policy f (now s) (mark_last d ds) s)
