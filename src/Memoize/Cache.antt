-- ===== src/Memoize/Cache.antt =====
-- What a call of the decorated function leaves in the cache, and what it returns.
use xbench_community.Prelude.{
  String, Bool, true, false, Option, none, some, [], ◌∷◌, ◌≡◌, ◌≢◌, refl, Dict, lookup, insert,
  if◌then◌else◌, lookup-insert, str_eq, str_eq_iff, arith, ◌∙◌,
}
use xbench_community.Exec.{Result, ok, raise, ◌>>=?◌}
use xbench_community.Exn.{key_error}
use xbench_community.Cluster.{is_in}
use xbench_community.Memoize.{Numbers, Metrics, Entry, previous, measure, measure_all, memoized}

module _ {N : Type 0} (numbers : Numbers N) (metrics : Metrics) where
  -- Each metric stands in the result with what was measured for it.
  abbrev pub IsMeasured : N → Dict N → Dict N → Dict N → Type 0
  IsMeasured sec prev curr d =
      (k : String) (v : N)
      → lookup k curr ≡ some v
      → (x : N) × (lookup k d ≡ some x) × (measure numbers metrics sec prev k v ≡ ok x)

  -- Every outcome of the loop.
  abbrev LoopOutcome : N → Dict N → Dict N → Result (Dict N) → Type 0
  LoopOutcome sec prev curr (ok d) = IsMeasured sec prev curr d
  LoopOutcome sec prev curr (raise e) = Unit

  -- One more metric in front.
  one_metric :
      (sec : N) (prev curr : Dict N) (j : String) (w x : N) (d : Dict N)
      → measure numbers metrics sec prev j w ≡ ok x
      → IsMeasured sec prev curr d
      → IsMeasured sec prev ((j, w) ∷ curr) ((j, x) ∷ d)
  unfolding lookup
  one_metric sec prev curr j w x d q h k v g = by_key (str_eq j k) refl g
    where
      same : j ≡ k → Path (Option N) (some w) (some v) → measure numbers metrics sec prev k v ≡ ok x
      same e f = cc

      by_key :
          (b : Bool)
          → str_eq j k ≡ b
          → (if b then some w else lookup k curr) ≡ some v
          → (y : N) × ((if b then some x else lookup k d) ≡ some y)
            × (measure numbers metrics sec prev k v ≡ ok y)
      by_key true e f = (x, refl, same ((str_eq_iff j k).0 e) f)
      by_key false e f = h k v f

  measure_all-LoopOutcome :
      (sec : N) (prev curr : Dict N)
      → LoopOutcome sec prev curr (measure_all numbers metrics sec prev curr)
  unfolding measure_all lookup
  measure_all-LoopOutcome sec prev [] = nothing
    where
      nothing : IsMeasured sec prev [] []
      nothing k v h = absurd (none_some h)
        where
          none_some : Path (Option N) none (some v) → ⊥
          none_some h = cc
  measure_all-LoopOutcome sec prev ((j, w) ∷ curr) =
      by_first (measure numbers metrics sec prev j w) refl
        (measure_all numbers metrics sec prev curr) (measure_all-LoopOutcome sec prev curr)
    where
      by_first :
          (r : Result N)
          → measure numbers metrics sec prev j w ≡ r
          → (rest : Result (Dict N)) → LoopOutcome sec prev curr rest
          → LoopOutcome sec prev
              ((j, w) ∷ curr)
              (r >>=? λ first. rest >>=? λ rest. ok ((j, first) ∷ rest))
      by_first (raise e) q rest h = tt
      by_first (ok x) q (raise e) h = tt
      by_first (ok x) q (ok d) h = λ k v g. one_metric sec prev curr j w x d q h k v g

  -- The value that the result has for a metric: the difference to the value before, the
  -- difference by the time that has passed, or the value itself.
  abbrev pub IsMeasure : N → Dict N → String → N → N → Type 0
  IsMeasure sec prev k v x =
      (is_in k metrics.cumsum_metrics ≡ true
        → (p : N) × (lookup k prev ≡ some p) × (x ≡ numbers.minus v p))
      × (is_in k metrics.cumsum_metrics ≡ false
          → is_in k metrics.rate_metrics ≡ true
          → (p : N) × (lookup k prev ≡ some p)
            × (numbers.per_second (numbers.minus v p) sec ≡ ok x))
      × (is_in k metrics.cumsum_metrics ≡ false → is_in k metrics.rate_metrics ≡ false → x ≡ v)

  not_both : {b : Bool} → b ≡ true → b ≡ false → ⊥
  not_both p q = cc

  with_previous :
      (k : String) (prev : Dict N) (f : N → Result N) (x : N)
      → (previous numbers metrics k prev >>=? f) ≡ ok x
      → (p : N) × (lookup k prev ≡ some p) × (f p ≡ ok x)
  unfolding previous
  with_previous k prev f x h = by_entry (lookup k prev) refl h
    where
      raise_ok : Path (Result N) (raise key_error) (ok x) → ⊥
      raise_ok g = cc

      by_entry :
          (o : Option N)
          → lookup k prev ≡ o
          → ((elim o as (λ _. Result N) [ none ↦ raise key_error | some v ↦ ok v ]) >>=? f) ≡ ok x
          → (p : N) × (lookup k prev ≡ some p) × (f p ≡ ok x)
      by_entry none e g = absurd (raise_ok g)
      by_entry (some p) e g = (p, e, g)

  measure-IsMeasure :
      (sec : N) (prev : Dict N) (k : String) (v x : N)
      → measure numbers metrics sec prev k v ≡ ok x
      → IsMeasure sec prev k v x
  unfolding measure
  measure-IsMeasure sec prev k v x h =
      by_lists (is_in k metrics.cumsum_metrics) (is_in k metrics.rate_metrics) refl refl h
    where
      difference : (p : N) → ok (numbers.minus v p) ≡ ok x → x ≡ numbers.minus v p
      difference p g = cc

      itself : Path (Result N) (ok v) (ok x) → x ≡ v
      itself g = cc

      by_lists :
          (c r : Bool)
          → is_in k metrics.cumsum_metrics ≡ c
          → is_in k metrics.rate_metrics ≡ r
          → (if c
              then (previous numbers metrics k prev >>=? λ p. ok (numbers.minus v p))
              else if r
              then (previous numbers metrics k prev >>=? λ p.
                  numbers.per_second (numbers.minus v p) sec)
              else ok v)
            ≡ ok x
          → IsMeasure sec prev k v x
      by_lists true r e f g = (
        (λ _.
            let (p, at_key, same) = with_previous k prev (λ p. ok (numbers.minus v p)) x g in
            (p, at_key, difference p same)),
        (λ no. absurd (not_both e no)),
        (λ no. absurd (not_both e no)),
      )
      by_lists false true e f g = (
        (λ yes. absurd (not_both yes e)),
        (λ _ _. with_previous k prev (λ p. numbers.per_second (numbers.minus v p) sec) x g),
        (λ _ no. absurd (not_both f no)),
      )
      by_lists false false e f g =
          ((λ yes. absurd (not_both yes e)), (λ _ yes. absurd (not_both yes f)), (λ _ _. itself g))

  -- What a call leaves: if it raises, the cache as it was. Else the monitor's entry is the present
  -- values, those of the other monitors are what they were, and the result is empty if the monitor
  -- was new; if it was not, each metric but one named timestamp has its difference to the entry
  -- before, its rate, or its value.
  abbrev pub CallOutcome :
      N
      → String
      → Dict N
      → Dict (Entry N)
      → Option (Entry N)
      → Result (Dict N) × Dict (Entry N)
      → Type 0
  CallOutcome now inst curr cache before (raise e, after) = after ≡ cache
  CallOutcome now inst curr cache before (ok d, after) =
      ((j : String)
        → lookup j after ≡ (
            if str_eq inst j
            then some (record { timestamp = now; return_dict = curr })
            else lookup j cache))
      × elim before as (λ _. Type 0) [
        | none ↦ d ≡ []
        | some e ↦
            (k : String) (v : N)
            → k ≢ "timestamp"
            → lookup k curr ≡ some v
            → (x : N) × (lookup k d ≡ some x)
              × IsMeasure (numbers.minus now e.timestamp) e.return_dict k v x
      ]

  stamped :
      (sec now : N) (prev curr d : Dict N)
      → IsMeasured sec prev curr d
      → (k : String) (v : N) → k ≢ "timestamp"
      → lookup k curr ≡ some v
      → (x : N) × (lookup k (insert "timestamp" now d) ≡ some x) × IsMeasure sec prev k v x
  stamped sec now prev curr d h k v other g =
      let (x, e, m) = h k v g in
      (
        x,
        lookup-insert "timestamp" k now d ∙ (rw (not_same other) e),
        measure-IsMeasure sec prev k v x m,
      )
    where
      not_same : k ≢ "timestamp" → str_eq "timestamp" k ≡ false
      not_same o = ground (arith, str_eq_iff "timestamp" k, o)

  -- After a call, the cache has the present values for the monitor, and what it had for the
  -- others; if the call raises, it is as it was. What is returned for a monitor that was there has,
  -- for each metric but one named timestamp, the difference, rate or value against the entry
  -- before: the present value less the one before for a cumulated metric, that by the seconds
  -- between the calls for a rate, and the value itself for any other. For a new monitor it is
  -- empty.
  pub memoized-CallOutcome :
      (now : N) (inst : String) (curr : Dict N) (cache : Dict (Entry N))
      → CallOutcome now inst curr cache
          (lookup inst cache)
          (memoized numbers metrics now inst curr cache)
  unfolding memoized
  memoized-CallOutcome now inst curr cache = by_entry (lookup inst cache)
    where
      updated : Dict (Entry N)
      updated = insert inst (record { timestamp = now; return_dict = curr }) cache

      by_values :
          (e : Entry N) (r : Result (Dict N))
          → LoopOutcome (numbers.minus now e.timestamp) e.return_dict curr r
          → CallOutcome now inst curr cache (some e) (elim r [
            | raise x ↦ (raise x, cache)
            | ok d ↦ (ok (insert "timestamp" now d), updated)
          ])
      by_values e (raise x) h = refl
      by_values e (ok d) h = (
        (λ j. lookup-insert inst j (record { timestamp = now; return_dict = curr }) cache),
        stamped (numbers.minus now e.timestamp) now e.return_dict curr d h,
      )

      by_entry :
          (o : Option (Entry N))
          → CallOutcome now inst curr cache o (elim o [
            | none ↦ (ok [], updated)
            | some e ↦
                elim (measure_all numbers metrics
                  (numbers.minus now e.timestamp)
                  e.return_dict
                  curr) [
                    | raise x ↦ (raise x, cache)
                    | ok d ↦ (ok (insert "timestamp" now d), updated)
                  ]
          ])
      by_entry none =
          ((λ j. lookup-insert inst j (record { timestamp = now; return_dict = curr }) cache), refl)
      by_entry (some e) =
          by_values e
            (measure_all numbers metrics (numbers.minus now e.timestamp) e.return_dict curr)
            (measure_all-LoopOutcome (numbers.minus now e.timestamp) e.return_dict curr)
