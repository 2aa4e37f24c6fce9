-- ===== src/Sysbench/Parse.antt =====
-- What `parse_output` and `run_thread` return.
use xbench_community.Prelude.{
  ℕ, ◌<◌, String, Bool, true, false, List, [], ◌∷◌, map, All, if◌then◌else◌, ltb, ltb→lt, ◌≡◌, ◌≢◌,
  refl, ap, ◌∙◌, sym,
}
use mathlib.Core.Path.{subst}
use xbench_community.Exn.{Exn, sysbench_fatal_exception, sysbench_output_parse_exception}
use xbench_community.Exec.{Result, ok, raise, Exec, ◌>>=?◌, and_then}
use xbench_community.Retry.Returns.{IsReturned, retry-IsReturned}
use xbench_community.Sysbench.{
  Line, fatal_line, Output, no_output, read_line, read_lines, parse_output,
}
use xbench_community.Sysbench.Runs.{
  HostOutput, parse_hosts, run_thread_once, run_thread, run_policy,
}

-- A first step that returned.
bind_ok :
    {A B : Type 0} (r : Result A) (f : A → Result B) (b : B)
    → (r >>=? f) ≡ ok b
    → (a : A) × (r ≡ ok a) × (f a ≡ ok b)
bind_ok (ok a) f b h = (a, refl, h)
bind_ok (raise e) f b h = absurd (raise_ok e h)
  where
    raise_ok : (e : Exn) → raise e ≡ ok b → ⊥
    raise_ok e h = cc

read_line-fatal : (o o' : Output) (l : Line) → read_line o l ≡ ok o' → l ≢ fatal_line
unfolding read_line
read_line-fatal o o' l h e = raise_ok (ap (read_line o) (sym e) ∙ h)
  where
    raise_ok : Path (Result Output) (raise sysbench_fatal_exception) (ok o') → ⊥
    raise_ok h = cc

read_lines-fatal :
    (line_of : String → Line) (o o' : Output) (ls : List String)
    → read_lines o (map line_of ls) ≡ ok o'
    → All (λ l. line_of l ≢ fatal_line) ls
unfolding read_lines
read_lines-fatal line_of o o' [] h = tt
read_lines-fatal line_of o o' (l ∷ ls) h =
    let (mid, first, rest) = bind_ok (read_line o (line_of l)) _ o' h in
    (read_line-fatal o mid (line_of l) first, read_lines-fatal line_of mid o' ls rest)

-- If parse_output returns, the throughput is above zero and no line reports a fatal error.
parse_output-ok :
    (line_of : String → Line) (lines : List String) (o : Output)
    → parse_output line_of lines ≡ ok o
    → (0 < o.tps) × All (λ l. line_of l ≢ fatal_line) lines
unfolding parse_output
parse_output-ok line_of lines o h =
    let (o', read, decided) = bind_ok (read_lines no_output (map line_of lines)) _ o h in
    let (same, above) = positive o' (ltb 0 o'.tps) (ltb→lt 0 o'.tps) decided in
    (subst (λ x. 0 < x.tps) same above, read_lines-fatal line_of no_output o' lines read)
  where
    positive :
        (o' : Output) (b : Bool)
        → (b ≡ true → 0 < o'.tps)
        → (if b then ok o' else raise sysbench_output_parse_exception) ≡ ok o
        → (o' ≡ o) × (0 < o'.tps)
    positive o' true above h = (cc, above refl)
    positive o' false above h = absurd (raise_ok h)
      where
        raise_ok : Path (Result Output) (raise sysbench_output_parse_exception) (ok o) → ⊥
        raise_ok h = cc

-- A first action that returned.
and_then-ok :
    {S A B : Type 0} (k : A → Exec S B) (r : Result A × S) (b : B) (s' : S)
    → and_then k r ≡ (ok b, s')
    → (a : A) × (t : S) × (r ≡ (ok a, t)) × (k a t ≡ (ok b, s'))
and_then-ok k (ok a, t) b s' h = (a, t, refl, h)
and_then-ok {S = S} {B = B} k (raise e, t) b s' h = absurd (raise_ok h)
  where
    raise_ok : Path (Result B × S) (raise e, t) (ok b, s') → ⊥
    raise_ok h = cc

module _ {S : Type 0} (line_of : String → Line) (kill : Exec S (Unit {0}))
    (sysbench : ℕ → Exec S (List HostOutput)) (save_output : HostOutput → Exec S (Unit {0})) where
  -- The results of the drivers, in their order: each is what the driver's output parses to, and its
  -- throughput is above zero.
  abbrev pub AreParsed : List HostOutput → List Output → Type 0
  AreParsed [] [] = Unit
  AreParsed [] (o ∷ rows) = ⊥
  AreParsed (host ∷ hosts) [] = ⊥
  AreParsed (host ∷ hosts) (o ∷ rows) =
      (parse_output line_of host.stdout ≡ ok o) × (0 < o.tps) × AreParsed hosts rows

  parse_hosts-ok :
      (hosts : List HostOutput) (rows : List Output) (s s' : S)
      → parse_hosts line_of kill sysbench save_output hosts s ≡ (ok rows, s')
      → AreParsed hosts rows
  unfolding parse_hosts
  parse_hosts-ok [] rows s s' h = subst (AreParsed []) (first_ok h) tt
    where
      first_ok : Path (Result (List Output) × S) (ok [], s) (ok rows, s') → [] ≡ rows
      first_ok h = cc
  parse_hosts-ok (host ∷ hosts) rows s s' h =
      let (_, t, _, h1) = and_then-ok _ (save_output host s) rows s' h in
      let (o, t1, parsed, h2) = and_then-ok _ (parse_output line_of host.stdout, t) rows s' h1 in
      let (os, t2, more, h3) =
        and_then-ok _ (parse_hosts line_of kill sysbench save_output hosts t1) rows s' h2 in
      let (above, _) = parse_output-ok line_of host.stdout o (ap (λ x. x.0) parsed) in
      subst (AreParsed (host ∷ hosts)) (first_ok o os t2 h3)
        (ap (λ x. x.0) parsed, above, parse_hosts-ok hosts os t1 t2 more)
    where
      first_ok :
          (o : Output) (os : List Output) (t : S)
          → Path (Result (List Output) × S) (ok (o ∷ os), t) (ok rows, s')
          → o ∷ os ≡ rows
      first_ok o os t h = cc

-- If run_thread returns, its last round stopped sysbench on the drivers and then called it, and both
-- returned; parsing these outputs directly after that gave the results and the final state; there
-- is one result for each output, in their order: what this output parses to, with a throughput
-- above zero.
pub run_thread-ok :
    {S : Type 0} (line_of : String → Line) (kill : Exec S (Unit {0}))
    (sysbench : ℕ → Exec S (List HostOutput)) (save_output : HostOutput → Exec S (Unit {0}))
    (now : S → ℕ) (sleep : ℕ → S → S) (delays : List ℕ) (t : ℕ) (rows : List Output) (s s' : S)
    → run_thread line_of kill sysbench save_output now sleep delays t s ≡ (ok rows, s')
    → (v u u' : S) × (hosts : List HostOutput) × (kill v ≡ (ok tt, u))
      × (sysbench t u ≡ (ok hosts, u'))
      × (parse_hosts line_of kill sysbench save_output hosts u' ≡ (ok rows, s'))
      × AreParsed line_of kill sysbench save_output hosts rows
unfolding run_thread run_thread_once
run_thread-ok line_of kill sysbench save_output now sleep delays t rows s s' h =
    let (v, returned) =
      subst
        (IsReturned now sleep (run_policy delays)
          (run_thread_once line_of kill sysbench save_output t))
        h
        (retry-IsReturned now sleep (run_policy delays)
          (run_thread_once line_of kill sysbench save_output t) s) in
    let (hosts, u', ran, parsed) =
      and_then-ok _ (and_then (λ _. sysbench t) (kill v)) rows s' returned in
    let (_, u, killed, called) = and_then-ok _ (kill v) hosts u' ran in
    (
      v,
      u,
      u',
      hosts,
      killed,
      called,
      parsed,
      parse_hosts-ok line_of kill sysbench save_output hosts rows u' s' parsed,
    )
