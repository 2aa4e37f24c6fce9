-- ===== src/Retry/Script.antt =====
-- `retry` around a function whose outcomes are scripted: which call's outcome is returned, and
-- which delays are slept.
use xbench_community.Prelude.{
  ℕ, ◌≤◌, ◌<◌, ◌*◌, ◌≡◌, ◌≢◌, Bool, true, false, List, [], ◌∷◌, ◌++◌, arith, refl, All, take,
  drop_last, length, ◌∙◌,
}
use mathlib.Core.List.{append-nil, append_assoc}
use xbench_community.Exn.{Exn, is_any_of, index_error}
use xbench_community.Exec.{Result, ok, raise, Exec}
use xbench_community.Retry.{Policy, mark_last, on_failure, attempts, retry}
use xbench_community.Retry.First.{retry-cons}

-- The outcomes of the calls to come, and the delays slept so far, the oldest first.
pub record Script (A : Type 0) : Type 0 where
  pub outcomes : List (Result A)
  pub slept : List ℕ

module _ {A : Type 0} where
  abbrev pub scripted : Exec (Script A) A
  scripted s = elim s.outcomes [
    | [] ↦ (raise index_error, s)
    | o ∷ os ↦ (o, record s { outcomes = os })
  ]

  abbrev pub sleep_scripted : ℕ → Script A → Script A
  sleep_scripted d s = record s { slept = s.slept ++ d ∷ [] }

  -- The calls raise `failures`, and then the outcomes `rest` follow.
  abbrev pub fails_then : List Exn → List (Result A) → List (Result A)
  fails_then [] rest = rest
  fails_then (e ∷ es) rest = raise e ∷ fails_then es rest

abbrev pub AllChecked : Policy → List Exn → Type 0
AllChecked policy = All (λ e. is_any_of e policy.exceptions_to_check ≡ true)

module _ {A : Type 0} (now : Script A → ℕ) (policy : Policy)
    (in_time : (s : Script A) → now s ≤ policy.max_delay * 1000000) (started : ℕ) where
  loop : List (ℕ × Bool) → Exec (Script A) A
  loop = attempts now sleep_scripted policy scripted started

  -- A checked failure in time sleeps, unless it is the last, and goes on.
  on_failure_checked :
      (delay : ℕ) (last : Bool) (again : Exec (Script A) A) (e : Exn) (s : Script A)
      → is_any_of e policy.exceptions_to_check ≡ true
      → on_failure now sleep_scripted policy started delay last again e s
        ≡ elim last [ true ↦ again s | false ↦ again (sleep_scripted delay s) ]
  unfolding on_failure
  on_failure_checked delay last again e s checked = ground (arith, in_time s)

  loop_succeeds :
      (failures : List Exn) (a : A) (rest : List (Result A)) (d : ℕ) (ds slept : List ℕ)
      → AllChecked policy failures
      → length failures ≤ length ds
      → loop
          (mark_last d ds)
          (record { outcomes = fails_then failures (ok a ∷ rest); slept = slept })
        ≡ (ok a, record { outcomes = rest; slept = slept ++ take (length failures) (d ∷ ds) })
  unfolding loop attempts mark_last
  loop_succeeds [] a rest d [] slept checked short = rw append-nil
  loop_succeeds [] a rest d (d' ∷ ds) slept checked short = rw append-nil
  loop_succeeds (e ∷ es) a rest d [] slept checked short = absurd (omega arith)
  loop_succeeds (e ∷ es) a rest d (d' ∷ ds) slept checked short =
      on_failure_checked d false (loop (mark_last d' ds)) e
        (record { outcomes = fails_then es (ok a ∷ rest); slept = slept }) checked.0
      ∙ loop_succeeds es a rest d' ds (slept ++ d ∷ []) checked.1 (omega arith)
      ∙ rw append_assoc

  loop_gives_up :
      (failures : List Exn) (rest : List (Result A)) (d : ℕ) (ds slept : List ℕ)
      → AllChecked policy failures
      → length failures ≡ length (d ∷ ds)
      → loop (mark_last d ds) (record { outcomes = fails_then failures rest; slept = slept }) ≡ (
        raise policy.exception_to_raise,
        record { outcomes = rest; slept = slept ++ drop_last (d ∷ ds) },
      )
  unfolding loop attempts mark_last
  loop_gives_up [] rest d ds slept checked short = absurd (omega arith)
  loop_gives_up (e ∷ []) rest d [] slept checked short =
      on_failure_checked d true (loop []) e (record { outcomes = rest; slept = slept }) checked.0
      ∙ rw append-nil
  loop_gives_up (e ∷ e' ∷ es) rest d [] slept checked short = absurd (omega arith)
  loop_gives_up (e ∷ es) rest d (d' ∷ ds) slept checked short =
      on_failure_checked d false (loop (mark_last d' ds)) e
        (record { outcomes = fails_then es rest; slept = slept }) checked.0
      ∙ loop_gives_up es rest d' ds (slept ++ d ∷ []) checked.1 (omega arith)
      ∙ rw append_assoc

-- If the first calls raise checked exceptions, fewer than there are delays, and the next call
-- returns, and the clock never passes max_delay, then the decorated function returns that value,
-- has slept the first delays in order, one for each failure, and makes no further call.
pub retry_succeeds :
    {A : Type 0} (now : Script A → ℕ) (policy : Policy) (failures : List Exn) (a : A)
    (rest : List (Result A))
    → ((s : Script A) → now s ≤ policy.max_delay * 1000000)
    → AllChecked policy failures
    → length failures < length policy.delays
    → retry now sleep_scripted policy scripted
        (record { outcomes = fails_then failures (ok a ∷ rest); slept = [] })
      ≡ (ok a, record { outcomes = rest; slept = take (length failures) policy.delays })
unfolding attempts loop
retry_succeeds {A} now policy failures a rest in_time checked few = by_delays policy.delays refl few
  where
    by_delays :
        (delays : List ℕ)
        → policy.delays ≡ delays
        → length failures < length delays
        → retry now sleep_scripted policy scripted
            (record { outcomes = fails_then failures (ok a ∷ rest); slept = [] })
          ≡ (ok a, record { outcomes = rest; slept = take (length failures) delays })
    by_delays [] e few' = absurd (omega arith)
    by_delays (d ∷ ds) e few' =
        retry-cons now sleep_scripted policy scripted _ d ds e
        ∙ loop_succeeds now policy in_time _ failures a rest d ds [] checked (omega arith)

-- If as many calls as there are delays raise checked exceptions, and the clock never passes
-- max_delay, then the policy's exception is raised after exactly these calls, and every delay but
-- the last was slept.
pub retry_gives_up :
    {A : Type 0} (now : Script A → ℕ) (policy : Policy) (failures : List Exn)
    (rest : List (Result A))
    → ((s : Script A) → now s ≤ policy.max_delay * 1000000)
    → AllChecked policy failures
    → policy.delays ≢ []
    → length failures ≡ length policy.delays
    → retry now sleep_scripted policy scripted
        (record { outcomes = fails_then failures rest; slept = [] })
      ≡ (
        raise policy.exception_to_raise,
        record { outcomes = rest; slept = drop_last policy.delays },
      )
unfolding attempts loop
retry_gives_up {A} now policy failures rest in_time checked some_delay same =
    by_delays policy.delays refl some_delay same
  where
    by_delays :
        (delays : List ℕ)
        → policy.delays ≡ delays
        → delays ≢ []
        → length failures ≡ length delays
        → retry now sleep_scripted policy scripted
            (record { outcomes = fails_then failures rest; slept = [] })
          ≡ (raise policy.exception_to_raise, record { outcomes = rest; slept = drop_last delays })
    by_delays [] e some_delay' same' = absurd (some_delay' refl)
    by_delays (d ∷ ds) e some_delay' same' =
        retry-cons now sleep_scripted policy scripted _ d ds e
        ∙ loop_gives_up now policy in_time _ failures rest d ds [] checked same'
