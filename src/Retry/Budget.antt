-- ===== src/Retry/Budget.antt =====
-- How long a function that is decorated with `retry` can take.
use xbench_community.Prelude.{ℕ, ◌+◌, ◌*◌, ◌≤◌, ◌≡◌, Bool, List, [], ◌∷◌, arith, refl, All, ap}
use xbench_community.Exn.{Exn}
use xbench_community.Exec.{Result, Exec, handle_ind}
use xbench_community.Retry.{Policy, mark_last, on_failure, attempts, retry}
use xbench_community.Retry.First.{retry-cons, retry-nil}

mark_last-All {ℓ} :
    {A : Type ℓ} (P : A → Type 0) (x : A) (xs : List A)
    → P x
    → All P xs
    → All (λ (p : A × Bool). P p.0) (mark_last x xs)
unfolding mark_last
mark_last-All P x [] h hs = (h, tt)
mark_last-All P x (y ∷ ys) h hs = (h, mark_last-All P y ys hs.0 hs.1)

module _ {S A : Type 0} (now : S → ℕ) (sleep : ℕ → S → S) (policy : Policy) (f : Exec S A)
    (call pause late : ℕ) (call_time : (s : S) → now (f s).1 ≤ now s + call)
    (sleep_time : (n : ℕ) (s : S) → now (sleep n s) ≤ now s + n * 1000000 + late) where
  on_failure_time :
      (started delay : ℕ) (last : Bool) (again : Exec S A) (e : Exn) (u : S) (bound : ℕ)
      → now u ≤ bound
      → delay ≤ pause
      → started + (policy.max_delay + 1 + pause) * 1000000 + late + call ≤ bound
      → ((v : S)
          → now v ≤ started + (policy.max_delay + 1 + pause) * 1000000 + late
          → now (again v).1 ≤ bound)
      → now (on_failure now sleep policy started delay last again e u).1 ≤ bound
  unfolding on_failure
  on_failure_time started delay last again e u bound h short fits rest =
      ground (arith, rest u, rest (sleep delay u), sleep_time delay u)

  attempts_time :
      (started : ℕ) (marked : List (ℕ × Bool)) (s : S)
      → All (λ (p : ℕ × Bool). p.0 ≤ pause) marked
      → now s ≤ started + (policy.max_delay + 1 + pause) * 1000000 + late
      → now (attempts now sleep policy f started marked s).1
        ≤ started + (policy.max_delay + 1 + pause) * 1000000 + late + call
  unfolding attempts
  attempts_time started [] s short h = omega arith
  attempts_time started ((delay, last) ∷ rest) s short h =
      handle_ind (λ r. now r.1 ≤ bound)
        (on_failure now sleep policy started delay last (attempts now sleep policy f started rest))
        (f s) (λ a u e. rw (ap (λ (r : Result A × S). r.1) e) at (in_time s h))
        (λ e u p.
          on_failure_time started delay last (attempts now sleep policy f started rest) e u bound
            (rw (ap (λ (r : Result A × S). r.1) p) at (in_time s h)) short.0 (omega arith)
            (λ v. attempts_time started rest v short.1))
    where
      bound : ℕ
      bound = started + (policy.max_delay + 1 + pause) * 1000000 + late + call

      in_time :
          (v : S)
          → now v ≤ started + (policy.max_delay + 1 + pause) * 1000000 + late
          → now (f v).1 ≤ started + (policy.max_delay + 1 + pause) * 1000000 + late + call
      in_time v k = omega (arith, call_time v)

-- If a call takes at most `call` microseconds, no delay is longer than `pause` seconds, and sleep
-- comes back at most `late` microseconds after its delay is over, the decorated function is back
-- within max_delay + 1 + pause seconds and `late` and `call` microseconds, however often the call
-- fails.
pub retry_time :
    {S A : Type 0} (now : S → ℕ) (sleep : ℕ → S → S) (policy : Policy) (f : Exec S A)
    (call pause late : ℕ)
    → ((s : S) → now (f s).1 ≤ now s + call)
    → ((n : ℕ) (s : S) → now (sleep n s) ≤ now s + n * 1000000 + late)
    → All (λ d. d ≤ pause) policy.delays
    → (s : S)
    → now (retry now sleep policy f s).1
      ≤ now s + (policy.max_delay + 1 + pause) * 1000000 + late + call
retry_time {S} now sleep policy f call pause late call_time sleep_time short s =
    by_delays policy.delays refl
  where
    by_delays :
        (delays : List ℕ)
        → policy.delays ≡ delays
        → now (retry now sleep policy f s).1
          ≤ now s + (policy.max_delay + 1 + pause) * 1000000 + late + call
    by_delays [] e = rw (retry-nil now sleep policy f s e) (omega arith)
    by_delays (d ∷ ds) e =
        let short' : All (λ x. x ≤ pause) (d ∷ ds) = rw e at short in
        rw (retry-cons now sleep policy f s d ds e) (
          attempts_time now sleep policy f call pause late call_time sleep_time (now s)
            (mark_last d ds) s (mark_last-All (λ x. x ≤ pause) d ds short'.0 short'.1)
            (omega arith))
