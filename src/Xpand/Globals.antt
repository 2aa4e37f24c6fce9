-- ===== src/Xpand/Globals.antt =====
-- The statements that `set_globals` sends.
use xbench_community.Prelude.{
  ℕ, ◌-◌, ◌*◌, Bool, true, false, List, [], ◌∷◌, ◌++◌, map, Dict, String, keys, any, str_eq, ◌≡◌,
  refl, ap, ◌∙◌, sym, if◌then◌else◌, ◌||◌, arith,
}
use xbench_community.Exec.{ok, Exec, pure, ◌>>=◌, and_then}
use xbench_community.Xpand.{XpandDb, Statement, set_global, set_slices, set_each, set_globals}

abbrev pub has_slices : Dict String → Bool
has_slices globals = any (λ k. str_eq k "hash_dist_min_slices") (keys globals)

abbrev pub settings : Dict String → List Statement
settings globals = map (λ (p : String × String). set_global p.0 p.1) globals

-- The states that a list of statements leads through.
abbrev pub run_all : {S : Type 0} → (Statement → S → S) → List Statement → S → S
run_all step [] s = s
run_all step (x ∷ xs) s = run_all step xs (step x s)

run_all-append :
    {S : Type 0} (step : Statement → S → S) (xs ys : List Statement) (s : S)
    → run_all step (xs ++ ys) s ≡ run_all step ys (run_all step xs s)
run_all-append step [] ys s = refl
run_all-append step (x ∷ xs) ys s = run_all-append step xs ys (step x s)

module _ {S : Type 0} (db : XpandDb S) (step : Statement → S → S)
    (executes : (x : Statement) (s : S) → db.execute x s ≡ (ok tt, step x s)) where
  set_each_lem :
      (globals : Dict String) (adjusted : Bool) (s : S)
      → set_each db globals adjusted s
        ≡ (ok (adjusted || has_slices globals), run_all step (settings globals) s)
  unfolding set_each
  set_each_lem [] adjusted s = ground arith
  set_each_lem ((k, v) ∷ globals) adjusted s =
      ap
        (λ r.
          and_then
            (λ _. set_each db globals (if str_eq k "hash_dist_min_slices" then true else adjusted))
            r)
        (executes (set_global k v) s)
      ∙ (set_each_lem globals _ (step (set_global k v) s)
          ∙ ap (λ b. (ok b, run_all step (settings globals) (step (set_global k v) s)))
              (flag (str_eq k "hash_dist_min_slices") adjusted (has_slices globals)))
    where
      flag :
          (now before rest : Bool)
          → ((if now then true else before) || rest) ≡ (before || (now || rest))
      flag now before rest = ground arith

-- If every statement succeeds and nproc is read, set_globals sends a statement for each configured
-- variable in the order of the configuration and then, exactly if hash_dist_min_slices is not
-- among them, one that sets it to the processors of all nodes, less one processor for each node.
pub set_globals_lem :
    {S : Type 0} (db : XpandDb S) (step : Statement → S → S) (globals : Dict String)
    (nproc : Exec S ℕ) (n num_nodes : ℕ) (s : S)
    → ((x : Statement) (t : S) → db.execute x t ≡ (ok tt, step x t))
    → ((t : S) → nproc t ≡ (ok n, t))
    → set_globals db globals nproc num_nodes s ≡ (
      ok tt,
      run_all step
          (settings globals
            ++ (if has_slices globals then [] else set_slices (n * num_nodes - num_nodes) ∷ []))
          s,
    )
unfolding set_globals
set_globals_lem {S = S} db step globals nproc n num_nodes s executes reads =
    ap (λ r. and_then after r) (set_each_lem db step executes globals false s)
    ∙ last_statement (has_slices globals) (run_all step (settings globals) s)
    ∙ sym (ap (λ t. (ok tt, t)) (run_all-append step (settings globals) _ s))
  where
    after : Bool → Exec S (Unit {0})
    after adjusted =
        if adjusted
        then pure tt
        else (nproc >>= λ n. db.execute (set_slices (n * num_nodes - num_nodes)))

    last_statement :
        (b : Bool) (t : S)
        → after b t
          ≡ (ok tt, run_all step (if b then [] else set_slices (n * num_nodes - num_nodes) ∷ []) t)
    last_statement true t = refl
    last_statement false t =
        ap (λ r. and_then (λ k. db.execute (set_slices (k * num_nodes - num_nodes))) r) (reads t)
        ∙ executes (set_slices (n * num_nodes - num_nodes)) t
