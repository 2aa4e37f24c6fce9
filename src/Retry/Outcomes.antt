-- ===== src/Retry/Outcomes.antt =====
-- Which exceptions leave a function that is decorated with `retry`.
use xbench_community.Prelude.{
  ℕ, ◌≡◌, ◌≢◌, ◌⊎◌, Bool, true, false, List, [], ◌∷◌, inl, inr, ap, if◌then◌else◌, arith, refl,
}
use xbench_community.Exn.{Exn, is_a, is_any_of, sig_term_exception, exception}
use xbench_community.Exec.{Result, ok, raise, Exec, throw, handle, convert, handle_ind}
use xbench_community.Retry.{Policy, mark_last, on_failure, attempts, retry}
use xbench_community.Retry.First.{retry-cons}

-- A value, the policy's own exception, or an exception that no clause of the decorator catches.
abbrev pub IsPermitted {ℓ} : {A : Type ℓ} → Policy → Result A → Type 0
IsPermitted policy (ok a) = Unit
IsPermitted policy (raise e) =
    (e ≡ policy.exception_to_raise)
    ⊎ ((is_any_of e policy.exceptions_to_check ≡ false)
        × ((is_a e sig_term_exception ≡ true) ⊎ (is_a e exception ≡ false)))

module _ {S A : Type 0} (now : S → ℕ) (sleep : ℕ → S → S) (policy : Policy) where
  on_failure-IsPermitted :
      (started delay : ℕ) (last : Bool) (again : Exec S A) (e : Exn) (s : S)
      → ((u : S) → IsPermitted policy (again u).0)
      → IsPermitted policy (on_failure now sleep policy started delay last again e s).0
  unfolding on_failure
  on_failure-IsPermitted started delay last again e s h = ground (arith, h s, h (sleep delay s))

  attempts-IsPermitted :
      (f : Exec S A) (started : ℕ) (marked : List (ℕ × Bool)) (s : S)
      → IsPermitted policy (attempts now sleep policy f started marked s).0
  unfolding attempts
  attempts-IsPermitted f started [] s = ground arith
  attempts-IsPermitted f started ((delay, last) ∷ rest) s =
      handle_ind (λ r. IsPermitted policy r.0)
        (on_failure now sleep policy started delay last (attempts now sleep policy f started rest))
        (f s) (λ a u _. tt)
        (λ e u _.
          on_failure-IsPermitted started delay last (attempts now sleep policy f started rest) e u
            (attempts-IsPermitted f started rest))

-- With at least one delay, a decorated function returns a value, raises the policy's exception,
-- or lets through an exception that the policy does not check: SigTermException, or one that is
-- no `Exception`.
pub retry-IsPermitted :
    {S A : Type 0} (now : S → ℕ) (sleep : ℕ → S → S) (policy : Policy) (f : Exec S A) (s : S)
    → policy.delays ≢ []
    → IsPermitted policy (retry now sleep policy f s).0
retry-IsPermitted now sleep policy f s some_delay = by_delays policy.delays refl
  where
    by_delays :
        (delays : List ℕ)
        → policy.delays ≡ delays
        → IsPermitted policy (retry now sleep policy f s).0
    by_delays [] e = absurd (some_delay e)
    by_delays (d ∷ ds) e =
        rw (retry-cons now sleep policy f s d ds e)
          (attempts-IsPermitted now sleep policy f (now s) (mark_last d ds) s)

-- The class itself, SigTermException, or what is no Exception.
abbrev pub IsOnly : Exn → Exn → Type 0
IsOnly c e = (e ≡ c) ⊎ ((is_a e sig_term_exception ≡ true) ⊎ (is_a e exception ≡ false))

abbrev pub RaisesOnlyClass {ℓ} : {A : Type ℓ} → Exn → Result A → Type 0
RaisesOnlyClass c (ok a) = Unit
RaisesOnlyClass c (raise e) = IsOnly c e

pub IsPermitted-RaisesOnlyClass :
    {A : Type 0} (policy : Policy) (r : Result A)
    → IsPermitted policy r
    → RaisesOnlyClass policy.exception_to_raise r
IsPermitted-RaisesOnlyClass policy (ok a) h = tt
IsPermitted-RaisesOnlyClass policy (raise e) (inl q) = inl q
IsPermitted-RaisesOnlyClass policy (raise e) (inr (q, h)) = inr h

-- A handler that catches a class and raises another one.
pub convert-RaisesOnlyClass :
    {S A : Type 0} (caught out from : Exn)
    → is_a from caught ≡ true
    → (r : Result A × S) → RaisesOnlyClass from r.0
    → RaisesOnlyClass out (handle (λ e. convert (λ x. is_a x caught) out e) r).0
convert-RaisesOnlyClass caught out from c (ok a, s) h = tt
convert-RaisesOnlyClass {S = S} {A = A} caught out from c (raise e, s) h =
    by_class (is_a e caught) refl h
  where
    not_both : is_a e caught ≡ false → is_a e caught ≡ is_a from caught → ⊥
    not_both p q = cc

    by_class :
        (b : Bool)
        → is_a e caught ≡ b
        → IsOnly from e
        → RaisesOnlyClass out ((if◌then◌else◌ {A = Exec S A} b (throw out) (throw e)) s).0
    by_class true q g = inl refl
    by_class false q (inr g) = inr g
    by_class false q (inl g) = absurd (not_both q (ap (λ x. is_a x caught) g))
