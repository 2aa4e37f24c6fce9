-- ===== src/Sysbench/Schedule.antt =====
-- The threads that `run` runs, in their order.
use xbench_community.Prelude.{
  ℕ, ◌/◌, ◌<◌, List, [], ◌∷◌, ◌++◌, range_from, ◌≡◌, ap, ◌∙◌, sym, arith,
}
use mathlib.Core.List.{append-nil, append_assoc}
use xbench_community.Exec.{ok}
use xbench_community.Sysbench.Runs.{
  Runner, per_driver, run_each, one_repeat, continued, repeats_from, finally_clause, run,
}

-- What calls that return do to the state, and what they return.
pub record Steps (S Row Frame : Type 0) : Type 0 where
  pub slept : ℕ → S → S
  pub workload_hook : S → S
  pub thread_hook : S → S
  pub called : ℕ → ℕ → S → S
  pub rows : ℕ → ℕ → S → List Row
  pub saved : ℕ → List Row → S → S
  pub frame : ℕ → List Row → S → Frame

-- A runner whose calls all return, as told by the steps.
pub record Succeeds {S Row Frame : Type 0} (runner : Runner S Row Frame) (y : Steps S Row Frame)
    : Type 0 where
  pub some_driver : 0 < runner.num_drivers
  pub sleeps : (d : ℕ) (s : S) → runner.sleep d s ≡ (ok tt, y.slept d s)
  pub workload_hooks : (s : S) → runner.pre_workload_run s ≡ (ok tt, y.workload_hook s)
  pub thread_hooks : (s : S) → runner.pre_thread_run s ≡ (ok tt, y.thread_hook s)
  pub runs : (t r : ℕ) (s : S) → runner.thread t r s ≡ (ok (y.rows t r s), y.called t r s)
  pub saves :
      (r : ℕ) (l : List Row) (s : S)
      → runner.save_one_repeat r l s ≡ (ok (y.frame r l s), y.saved r l s)

module _ {S Row Frame : Type 0} (runner : Runner S Row Frame) (y : Steps S Row Frame) where
  -- The state in which a thread is called.
  abbrev pub ready_for_thread : S → S
  ready_for_thread s = y.thread_hook (y.slept 30 s)

  -- The threads of a repeat, one after the other, shared among the drivers: all their rows, and the
  -- state.
  abbrev pub each_done : ℕ → List ℕ → S → List Row × S
  each_done r [] s = ([], s)
  each_done r (t ∷ threads) s =
      let u = ready_for_thread s in
      let later = each_done r threads (y.called (t / runner.num_drivers) r u) in
      (y.rows (t / runner.num_drivers) r u ++ later.0, later.1)

  -- A repeat: its frame, and the state.
  abbrev pub repeat_done : List ℕ → ℕ → S → Frame × S
  repeat_done threads r s =
      let done = each_done r threads (y.workload_hook s) in
      (y.frame r done.0 done.1, y.saved r done.0 done.1)

  -- The repeats, one after the other: a frame for each, and the state.
  abbrev pub repeats_done : List ℕ → List ℕ → S → List Frame × S
  repeats_done threads [] s = ([], s)
  repeats_done threads (r ∷ rs) s =
      let done = repeat_done threads r s in
      let later = repeats_done threads rs done.1 in (done.0 ∷ later.0, later.1)

  module _ (h : Succeeds runner y) where
    per_driver_lem : (t : ℕ) → per_driver runner t ≡ ok (t / runner.num_drivers)
    unfolding per_driver
    per_driver_lem t = ground (arith, h.some_driver)

    run_each_lem :
        (r : ℕ) (threads : List ℕ) (acc : List Row) (s : S)
        → run_each runner r threads acc s
          ≡ (ok (acc ++ (each_done r threads s).0), (each_done r threads s).1)
    unfolding run_each
    run_each_lem r [] acc s = ap (λ l. (ok l, s)) (sym (append-nil acc))
    run_each_lem r (t ∷ threads) acc s =
        rw (h.sleeps, h.thread_hooks, per_driver_lem t, h.runs)
          (run_each_lem r threads (acc ++ y.rows (t / runner.num_drivers) r (ready_for_thread s))
              (y.called (t / runner.num_drivers) r (ready_for_thread s))
            ∙ ap (λ l. (ok l, (each_done r (t ∷ threads) s).1))
                (append_assoc acc (y.rows (t / runner.num_drivers) r (ready_for_thread s))
                  (each_done r threads
                    (y.called (t / runner.num_drivers) r (ready_for_thread s))).0))

    one_repeat_lem :
        (threads : List ℕ) (r : ℕ) (s : S)
        → one_repeat runner threads r s
          ≡ (ok (repeat_done threads r s).0, (repeat_done threads r s).1)
    unfolding one_repeat
    one_repeat_lem threads r s =
        rw (h.workload_hooks, run_each_lem)
          (h.saves r (each_done r threads (y.workload_hook s)).0
            (each_done r threads (y.workload_hook s)).1)

    repeats_from_lem :
        (threads rs : List ℕ) (frames : List Frame) (s : S)
        → repeats_from runner threads rs frames s
          ≡ (ok tt, frames ++ (repeats_done threads rs s).0, (repeats_done threads rs s).1)
    unfolding repeats_from continued
    repeats_from_lem threads [] frames s = ap (λ l. (ok tt, l, s)) (sym (append-nil frames))
    repeats_from_lem threads (r ∷ rs) frames s =
        ap (continued runner (repeats_from runner threads rs) frames) (one_repeat_lem threads r s)
        ∙ (repeats_from_lem threads rs (frames ++ (repeat_done threads r s).0 ∷ [])
              (repeat_done threads r s).1
            ∙ ap (λ l. (ok tt, l, (repeats_done threads (r ∷ rs) s).1))
                (append_assoc frames ((repeat_done threads r s).0 ∷ [])
                  (repeats_done threads rs (repeat_done threads r s).1).0))

-- If there is a driver and every call returns, whatever it does to the state, run has in each repeat
-- from 1 to repeats the hook of the workload, and then for each entry of threads, in their order, a
-- pause, the hook of the thread, and the thread with the entry divided by the number of drivers;
-- each repeat is saved with the rows of all its threads in this order, and at the end the summary
-- is saved, with one frame for each repeat.
pub run_lem :
    {S Row Frame : Type 0} (runner : Runner S Row Frame) (y : Steps S Row Frame) (threads : List ℕ)
    (repeats : ℕ) (s : S)
    → Succeeds runner y
    → run runner threads repeats s
      ≡ runner.save_summary
          (repeats_done runner y threads (range_from 1 repeats) s).0
          (repeats_done runner y threads (range_from 1 repeats) s).1
unfolding run finally_clause
run_lem runner y threads repeats s h =
    ap (finally_clause runner) (repeats_from_lem runner y h threads (range_from 1 repeats) [] s)
