-- ===== src/Retry/First.antt =====
-- The first step of `retry`: the attempts over the marked delays.
use xbench_community.Prelude.{ℕ, ◌≡◌, true, false, List, [], ◌∷◌, ap, refl, ◌∙◌}
use xbench_community.Exn.{Exn, is_a, is_any_of, exception, sig_term_exception, runtime_error}
use xbench_community.Exec.{ok, raise, Exec, lift, ◌>>=◌}
use xbench_community.Retry.{Policy, mark_last, iter_islast, on_failure, attempts, retry}

module _ {S A : Type 0} (now : S → ℕ) (sleep : ℕ → S → S) (policy : Policy) (f : Exec S A)
    (s : S) where
  start : List ℕ → Exec S A
  start delays = lift (iter_islast delays) >>= attempts now sleep policy f (now s)

  pub retry-cons :
      (d : ℕ) (ds : List ℕ)
      → policy.delays ≡ d ∷ ds
      → retry now sleep policy f s ≡ attempts now sleep policy f (now s) (mark_last d ds) s
  unfolding retry iter_islast start
  retry-cons d ds e = ap (λ l. start l s) e

  pub retry-nil : policy.delays ≡ [] → retry now sleep policy f s ≡ (raise runtime_error, s)
  unfolding retry iter_islast start
  retry-nil e = ap (λ l. start l s) e

-- A decorated function whose first call returns is called once.
pub retry-returns :
    {S A : Type 0} (now : S → ℕ) (sleep : ℕ → S → S) (policy : Policy) (f : Exec S A) (d : ℕ)
    (ds : List ℕ) (s t : S) (a : A)
    → policy.delays ≡ d ∷ ds
    → f s ≡ (ok a, t)
    → retry now sleep policy f s ≡ (ok a, t)
unfolding attempts mark_last
retry-returns now sleep policy f d ds s t a e h = retry-cons now sleep policy f s d ds e ∙ first ds
  where
    first : (ds : List ℕ) → attempts now sleep policy f (now s) (mark_last d ds) s ≡ (ok a, t)
    first [] = rw h refl
    first (x ∷ ds) = rw h refl

-- Nor is it called again after an exception that the policy does not check.
pub retry-unchecked :
    {S A : Type 0} (now : S → ℕ) (sleep : ℕ → S → S) (policy : Policy) (f : Exec S A) (d : ℕ)
    (ds : List ℕ) (s t : S) (x : Exn)
    → policy.delays ≡ d ∷ ds
    → is_any_of x policy.exceptions_to_check ≡ false
    → is_a x sig_term_exception ≡ false
    → is_a x exception ≡ true
    → f s ≡ (raise x, t)
    → retry now sleep policy f s ≡ (raise policy.exception_to_raise, t)
unfolding attempts mark_last on_failure
retry-unchecked now sleep policy f d ds s t x e u n p h =
    retry-cons now sleep policy f s d ds e ∙ first ds
  where
    first :
        (ds : List ℕ)
        → attempts now sleep policy f (now s) (mark_last d ds) s
          ≡ (raise policy.exception_to_raise, t)
    first [] = rw (h, u, n, p) refl
    first (y ∷ ds) = rw (h, u, n, p) refl
