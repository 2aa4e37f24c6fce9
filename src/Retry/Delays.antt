-- ===== src/Retry/Delays.antt =====
-- The delay sequences of common/retry_decorator.py.
use xbench_community.Prelude.{
  ℕ, zero, suc, ◌+◌, ◌*◌, ◌^◌, ◌<◌, ◌≡◌, List, [], ◌∷◌, arith, refl, min, map, sum, range_from, ap,
}
use native.Mathlib.Nat.{pow-suc}
use native.Mathlib.Numerals.{add-one}
use xbench_community.Exec.{Result, ok, raise, Exec, pure, ◌>>=◌, and_then, and_then_ind}
use xbench_community.Retry.{backoff, randrange, jitter_delays, backoff_with_jitter}

sum-backoff_from :
    (delay attempts start : ℕ)
    → sum (map (λ i. delay * 2 ^ i) (range_from start attempts)) + delay * 2 ^ start
      ≡ delay * 2 ^ start * 2 ^ attempts
sum-backoff_from delay zero start = omega arith
sum-backoff_from delay (suc attempts) start =
    let p = 2 ^ start in
    let tail : ℕ = sum (map (λ i. delay * 2 ^ i) (range_from (start + 1) attempts)) in
    let step : 2 ^ (start + 1) ≡ p * 2 = rw add-one (pow-suc 2 start) in
    let rest : tail + delay * (p * 2) ≡ delay * (p * 2) * 2 ^ attempts =
      rw step at (sum-backoff_from delay attempts (start + 1)) in
    rw (pow-suc 2 attempts) (omega (arith, rest))

-- The delays of `backoff` double, so with the first delay once more they add up to its
-- 2 ^ attempts-fold.
sum-backoff : (delay attempts : ℕ) → sum (backoff delay attempts) + delay ≡ delay * 2 ^ attempts
unfolding backoff
sum-backoff delay attempts = omega (arith, sum-backoff_from delay attempts 0)

-- `attempts` draws, each below the cap and below the doubled delay of its attempt.
abbrev pub IsJittered : ℕ → ℕ → ℕ → ℕ → List ℕ → Type 0
IsJittered delay cap start zero ds = ds ≡ []
IsJittered delay cap start (suc n) [] = ⊥
IsJittered delay cap start (suc n) (d ∷ ds) =
    (d < cap) × (d < delay * 2 ^ start) × IsJittered delay cap (start + 1) n ds

abbrev pub OnOk {ℓ} : {A : Type ℓ} → (A → Type 0) → Result A → Type 0
OnOk P (ok a) = P a
OnOk P (raise e) = Unit

module _ {S : Type 0} (draw : ℕ → Exec S ℕ)
    (in_range : (b : ℕ) (s : S) → 0 < b → OnOk (λ d. d < b) (draw b s).0) (delay cap : ℕ) where
  randrange-lt : (b : ℕ) (s : S) → OnOk (λ d. d < b) (randrange draw b s).0
  unfolding randrange
  randrange-lt zero s = tt
  randrange-lt (suc b) s = in_range (suc b) s (omega arith)

  cons-IsJittered :
      (n start d : ℕ) (r : Result (List ℕ) × S)
      → d < min cap (delay * 2 ^ start)
      → OnOk (IsJittered delay cap (start + 1) n) r.0
      → OnOk (IsJittered delay cap start (suc n)) (and_then (λ ds. pure (d ∷ ds)) r).0
  cons-IsJittered n start d (ok ds, t) h k = (omega arith, omega arith, k)
  cons-IsJittered n start d (raise e, t) h k = tt

  jitter_delays-IsJittered :
      (n start : ℕ) (s : S)
      → OnOk (IsJittered delay cap start n) (jitter_delays draw delay cap (range_from start n) s).0
  unfolding jitter_delays
  jitter_delays-IsJittered zero start s = refl
  jitter_delays-IsJittered (suc n) start s =
      let bound = min cap (delay * 2 ^ start) in
      and_then_ind (λ r. OnOk (IsJittered delay cap start (suc n)) r.0)
        (λ d. jitter_delays draw delay cap (range_from (start + 1) n) >>= λ ds. pure (d ∷ ds))
        (randrange draw bound s)
        (λ d t e.
          cons-IsJittered n start d _
            (rw (ap (λ (r : Result ℕ × S). r.0) e) at (randrange-lt bound s))
            (jitter_delays-IsJittered n (start + 1) t))
        (λ e t _. tt)

-- If random.randrange draws below its bound, the delays of `backoff_with_jitter` are one for each
-- attempt, the i-th of them below the cap and below delay * 2 ^ i.
backoff_with_jitter-IsJittered :
    {S : Type 0} (draw : ℕ → Exec S ℕ) (delay cap attempts : ℕ)
    → ((b : ℕ) (s : S) → 0 < b → OnOk (λ d. d < b) (draw b s).0)
    → (s : S)
    → OnOk (IsJittered delay cap 0 attempts) (backoff_with_jitter draw delay cap attempts s).0
unfolding backoff_with_jitter
backoff_with_jitter-IsJittered draw delay cap attempts in_range s =
    jitter_delays-IsJittered draw in_range delay cap attempts 0 s
