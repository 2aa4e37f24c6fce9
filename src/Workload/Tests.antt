-- ===== src/Workload/Tests.antt =====
-- A workload whose bench is given on the command line too.
use xbench_community.Prelude.{none, [], ◌≡◌, refl}
use xbench_community.Config.{str, entry, end, get, null}
use xbench_community.Config.Keys.{or_else}
use xbench_community.Workload.{Workload, get_all_params}
use xbench_community.Workload.Params.{own, get_all_params_lem}

abbrev nightly : Workload
nightly = record {
  cluster_name = "c";
  benchmark_name = "sysbench";
  workload_name = "itest";
  artifact_dir = "/tmp";
  tag = none;
  workload_conf = entry "bench" (str "oltp") end;
  extra_impl_params = entry "bench" (str "tpcc") end;
  bt = entry "host" (str "h") end;
  database = "db";
  envs = [];
  backend = null;
  backend_env = "aws";
}

get_all_params_example :
    get "bench" (get_all_params nightly)
    ≡ or_else (get "bench" nightly.extra_impl_params) (
        or_else
          (own "bench" nightly)
          (or_else (get "bench" nightly.bt) (get "bench" nightly.workload_conf)))
unfolding get
get_all_params_example = get_all_params_lem "bench" nightly (refl, tt, tt) (refl, tt, tt)
