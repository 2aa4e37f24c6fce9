-- ===== src/Retry/Tests.antt =====
-- Runs of the retry decorator, and its theorems at concrete inputs.
use xbench_community.Prelude.{ℕ, ◌≤◌, ◌+◌, ◌*◌, ◌≡◌, List, [], ◌∷◌, arith, refl, ◌/◌}
use xbench_community.Exn.{
  Exn, ssh_client_exception, ssh_client_timeout_exception, node_exception, is_any_of,
}
use xbench_community.Exec.{ok, raise, Exec}
use xbench_community.Retry.{Policy, retry, backoff, constant_delay}
use xbench_community.Retry.Outcomes.{IsPermitted, retry-IsPermitted}
use xbench_community.Retry.Returns.{IsReturned, retry-IsReturned}
use xbench_community.Retry.Budget.{retry_time}
use xbench_community.Retry.Script.{
  Script, scripted, sleep_scripted, fails_then, retry_succeeds, retry_gives_up,
}

-- The policy of `Node.run`.
abbrev node_run : Policy
node_run = record {
  exceptions_to_check = ssh_client_exception ∷ ssh_client_timeout_exception ∷ [];
  exception_to_raise = node_exception;
  max_delay = 600;
  delays = 10 ∷ 20 ∷ 40 ∷ [];
}

node_run_delays : backoff 10 3 ≡ node_run.delays
unfolding backoff
node_run_delays = refl

constant_delay_runs : constant_delay 60 3 ≡ 60 ∷ 60 ∷ 60 ∷ []
unfolding constant_delay
constant_delay_runs = refl

abbrev timeouts : List Exn
timeouts = ssh_client_timeout_exception ∷ ssh_client_exception ∷ []

abbrev frozen : Script ℕ → ℕ
frozen s = 0

retry_succeeds_example :
    retry frozen sleep_scripted node_run scripted
      (record { outcomes = fails_then timeouts (ok 7 ∷ ok 8 ∷ []); slept = [] })
    ≡ (ok 7, record { outcomes = ok 8 ∷ []; slept = 10 ∷ 20 ∷ [] })
unfolding is_any_of
retry_succeeds_example =
    retry_succeeds frozen node_run timeouts 7 (ok 8 ∷ []) (λ s. omega arith) (refl, (refl, tt))
      (omega arith)

retry_gives_up_example :
    retry frozen sleep_scripted node_run scripted
      (record { outcomes = fails_then (ssh_client_exception ∷ timeouts) (ok 8 ∷ []); slept = [] })
    ≡ (raise node_exception, record { outcomes = ok 8 ∷ []; slept = 10 ∷ 20 ∷ [] })
unfolding is_any_of
retry_gives_up_example =
    retry_gives_up frozen node_run (ssh_client_exception ∷ timeouts) (ok 8 ∷ []) (λ s. omega arith)
      (refl, (refl, (refl, tt))) (λ e. cc) refl

retry-IsPermitted_example :
    IsPermitted node_run
      (retry frozen sleep_scripted node_run scripted
        (record { outcomes = fails_then timeouts []; slept = [] })).0
retry-IsPermitted_example =
    retry-IsPermitted frozen sleep_scripted node_run scripted
      (record { outcomes = fails_then timeouts []; slept = [] }) (λ e. cc)

-- The state is the clock alone: each call fails and takes five seconds, and sleep is a bit late.
abbrev slow : Exec ℕ ℕ
slow t = (raise ssh_client_exception, t + 5000000)

abbrev sleep_late : ℕ → ℕ → ℕ
sleep_late n t = t + n * 1000000 + 70

retry_time_example :
    (retry (λ t. t) sleep_late node_run slow 100).1 ≤ 100 + (600 + 1 + 40) * 1000000 + 70 + 5000000
retry_time_example =
    retry_time (λ t. t) sleep_late node_run slow 5000000 40 70 (λ s. omega arith)
      (λ n s. omega arith) (omega arith) 100

-- The generator draws the middle of the range.
abbrev draw_middle : ℕ → Exec (Unit {0}) ℕ
draw_middle b s = (ok (b / 2), s)

abbrev one_failure : Script ℕ
one_failure = record { outcomes = raise ssh_client_exception ∷ ok 7 ∷ []; slept = [] }

retry-IsReturned_example :
    IsReturned
      (λ s. 0)
      sleep_scripted
      node_run
      scripted
      (retry (λ s. 0) sleep_scripted node_run scripted one_failure)
retry-IsReturned_example = retry-IsReturned (λ s. 0) sleep_scripted node_run scripted one_failure
