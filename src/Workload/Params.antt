-- ===== src/Workload/Params.antt =====
-- The parameters that a runner gets.
use xbench_community.Prelude.{
  String, Bool, true, false, Option, none, some, ◌≡◌, refl, str_eq, ap, ◌∙◌, if◌then◌else◌,
}
use xbench_community.Config.{Value, str, Entries, end, entry, get, union}
use xbench_community.Config.Keys.{IsUnique, or_else, get-put, get-union}
use xbench_community.Workload.{Workload, get_all_params}

-- What stands for a key in the four places that the object fills itself.
abbrev pub own : String → Workload → Option Value
own k w =
    if str_eq "backend" k
    then some w.backend
    else if str_eq "workload_name" k
    then some (str w.workload_name)
    else if str_eq "artifact_dir" k
    then some (str w.artifact_dir)
    else none

module _ (k : String) (w : Workload) where
  -- The three fields are put one after the other behind the configuration and the target.
  base : Entries
  base = union w.workload_conf w.bt

  get-own :
      get k (
        union
          (union
            (union base (entry "artifact_dir" (str w.artifact_dir) end))
            (entry "workload_name" (str w.workload_name) end))
          (entry "backend" w.backend end))
      ≡ or_else (own k w) (get k base)
  unfolding union
  get-own =
      get-put "backend" k w.backend _
      ∙ (ap (λ r. if str_eq "backend" k then some w.backend else r)
            (get-put "workload_name" k (str w.workload_name) _
              ∙ ap (λ r. if str_eq "workload_name" k then some (str w.workload_name) else r)
                  (get-put "artifact_dir" k (str w.artifact_dir) base))
          ∙ by_tests (str_eq "backend" k) (str_eq "workload_name" k) (str_eq "artifact_dir" k)
              (get k base))
    where
      by_tests :
          (p q r : Bool) (o : Option Value)
          → (if p
              then some w.backend
              else if q
              then some (str w.workload_name)
              else if r
              then some (str w.artifact_dir)
              else o)
            ≡ or_else
                (if p
                  then some w.backend
                  else if q
                  then some (str w.workload_name)
                  else if r
                  then some (str w.artifact_dir)
                  else none)
                o
      by_tests true q r o = refl
      by_tests false true r o = refl
      by_tests false false true o = refl
      by_tests false false false o = refl

  -- Where no key stands twice in the backend's target and in the command line's parameters, a
  -- parameter of the runner is the one of the command line if there is one, else the field of the
  -- object if it is named backend, workload_name or artifact_dir, else what the backend's
  -- target has, and else what the workload's configuration has.
  pub get_all_params_lem :
      IsUnique w.bt
      → IsUnique w.extra_impl_params
      → get k (get_all_params w)
        ≡ or_else
            (get k w.extra_impl_params)
            (or_else (own k w) (or_else (get k w.bt) (get k w.workload_conf)))
  unfolding get_all_params base
  get_all_params_lem b u =
      get-union k _ w.extra_impl_params u
      ∙ ap (λ r. or_else (get k w.extra_impl_params) r)
          (get-own ∙ ap (λ r. or_else (own k w) r) (get-union k w.workload_conf w.bt b))
