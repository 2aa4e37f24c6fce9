-- ===== src/Workload.antt =====
-- xbench/workload_running.py: a benchmark on a cluster that is there. The runner of the benchmark,
-- the backend, the drivers, Grafana and the local files are the record Bench; the class of the
-- runner is found by name, which may fail.
mod Params
mod Tests
use xbench_community.Prelude.{
  String, Bool, true, false, Option, none, some, List, [], ◌∷◌, str_eq, concat, is_text,
  if◌then◌else◌,
}
use xbench_community.Exn.{
  Exn, is_any_of, name_error, os_error, benchmark_exception, xbench_exception,
}
use xbench_community.Exec.{
  Result, ok, raise, Exec, pure, throw, lift, ◌>>=◌, ◌>>◌, try_except, convert, for_each,
}
use xbench_community.Config.{Value, str, Entries, end, entry, get, union}
use xbench_community.Config.YamlConfig.{subscript}
use xbench_community.Provisioning.{Environment}

-- The fields of the object, with those of its cluster that are read. `backend` stands for the
-- object among the parameters.
pub record Workload : Type 0 where
  pub cluster_name : String
  pub benchmark_name : String
  pub workload_name : String
  pub artifact_dir : String
  pub tag : Option String
  pub workload_conf : Entries
  pub extra_impl_params : Entries
  pub bt : Entries
  pub database : String
  pub envs : List Environment
  pub backend : Value
  pub backend_env : String

-- The runner's methods get the name of its class and its parameters.
pub record Bench (S : Type 0) : Type 0 where
  pub load_cloud : String → Exec S Entries
  pub find_class : Option Value → Exec S String
  pub clean_database : Exec S (Unit {0})
  pub prepare : String → Entries → Exec S (Unit {0})
  pub data_check : String → Entries → Exec S (Unit {0})
  pub run : String → Entries → Exec S (Unit {0})
  pub setup : String → Entries → Exec S (Unit {0})
  pub get_scale_string : String → Entries → Exec S String
  pub get_backup_type : String
  pub db_connect : Exec S (Unit {0})
  pub print_db_size : String → Exec S (Unit {0})
  pub backup : String → String → Value → String → Exec S (Unit {0})
  pub restore : String → String → Value → String → Exec S (Unit {0})
  pub now : Exec S String
  pub utc_now : Exec S String
  pub mkdir : String → Exec S (Unit {0})
  pub write : String → String → Exec S (Unit {0})
  pub append : String → String → Exec S (Unit {0})
  pub save_yaml : String → Entries → Exec S (Unit {0})
  pub path_join : String → String → String
  pub grafana_servers : List String
  pub create_snapshot : String → String → String → Exec S (List String)
  pub text_of : Option Value → String

-- `if self.tag:`
unfoldable pub tag_part : Option String → String
unfolding concat
tag_part none = ""
tag_part (some t) = if is_text t then concat ("_" ∷ t ∷ []) else ""

-- `_get_all_params`
unfoldable pub get_all_params : Workload → Entries
get_all_params w =
    union
      (union
        (union (union (union w.workload_conf w.bt) (entry "artifact_dir" (str w.artifact_dir) end))
          (entry "workload_name" (str w.workload_name) end))
        (entry "backend" w.backend end))
      w.extra_impl_params

module _ {S : Type 0} (b : Bench S) where
  unfoldable pub save_timestamp : String → Exec S String
  save_timestamp file_name = b.utc_now >>= λ now_str. b.write file_name now_str >> pure now_str

  unfoldable pub save_snapshot_urls : List String → String → Exec S (Unit {0})
  unfolding for_each concat
  save_snapshot_urls urls file_name =
      for_each urls (λ url. b.append file_name (concat (url ∷ "\n" ∷ [])))

  unfoldable pub save_tag : Workload → String → Exec S (Unit {0})
  unfolding concat
  save_tag w file_name =
      let named = concat (w.benchmark_name ∷ "_" ∷ w.workload_name ∷ []) in
      b.write file_name (elim w.tag [ none ↦ named | some t ↦ if is_text t then t else named ])

  unfoldable pub prepare : Workload → Exec S (Unit {0})
  unfolding get_all_params
  prepare w = do
    b.clean_database
    klass ← b.find_class (get "klass" w.workload_conf)
    b.prepare klass (get_all_params w)
    b.data_check klass (get_all_params w)
    b.db_connect
    b.print_db_size w.database

  -- The object with the directory of this run.
  unfoldable pub with_run_dir : Workload → String → Workload
  unfolding tag_part concat
  with_run_dir w stamp = record w {
    artifact_dir = concat (
        w.artifact_dir
        ∷ "/"
        ∷ w.cluster_name
        ∷ "/"
        ∷ stamp
        ∷ "_"
        ∷ w.benchmark_name
        ∷ tag_part w.tag
        ∷ []);
  }

  unfoldable pub save_snapshots : Workload → String → String → Exec S (Unit {0})
  unfolding for_each save_snapshot_urls
  save_snapshots w time_from time_to = for_each b.grafana_servers (λ grafana.
      b.create_snapshot grafana time_from time_to >>= λ snapshot_urls.
      save_snapshot_urls snapshot_urls (b.path_join w.artifact_dir "snapshot_url"))

  -- The `try` block of `run` once the directory is chosen.
  unfoldable pub run_in : Workload → Exec S String
  unfolding save_timestamp save_tag save_snapshots get_all_params
  run_in w = do
    b.mkdir w.artifact_dir
    klass ← b.find_class (get "klass" w.workload_conf)
    time_from ← save_timestamp (b.path_join w.artifact_dir "start")
    save_tag w (b.path_join w.artifact_dir "tag")
    b.save_yaml (b.path_join w.artifact_dir "workload.yaml") w.workload_conf
    b.run klass (get_all_params w)
    time_to ← save_timestamp (b.path_join w.artifact_dir "stop")
    save_snapshots w time_from time_to
    pure w.artifact_dir

  unfoldable pub run : Workload → Exec S String
  unfolding with_run_dir run_in
  run w =
      try_except (b.now >>= λ stamp. run_in (with_run_dir w stamp))
        (λ e. convert (λ x. is_any_of x (os_error ∷ benchmark_exception ∷ [])) xbench_exception e)

  -- `_backup_restore_dest`
  unfoldable pub backup_restore_dest : Workload → Exec S String
  unfolding get_all_params tag_part concat
  backup_restore_dest w = do
    klass ← b.find_class (get "klass" w.workload_conf)
    scale_string ← b.get_scale_string klass (get_all_params w)
    pure (
        concat (
          b.get_backup_type
          ∷ "/"
          ∷ w.benchmark_name
          ∷ "_"
          ∷ b.text_of (get "bench" w.workload_conf)
          ∷ "_"
          ∷ scale_string
          ∷ tag_part w.tag
          ∷ []))

  -- The body of the loop over the environments.
  unfoldable pub cloud_args_of : String → Environment → Option Value → Exec S (Option Value)
  cloud_args_of env_name env found =
      if str_eq env.name env_name
      then (b.load_cloud env.cloud >>= λ cloud.
          lift (subscript env.region cloud) >>= λ args. pure (some args))
      else pure found

  -- The loop: the settings of the last environment that is the backend's; none where cloud_args
  -- has not been assigned.
  unfoldable pub find_cloud_args : String → List Environment → Option Value → Exec S (Option Value)
  unfolding cloud_args_of
  find_cloud_args env_name [] found = pure found
  find_cloud_args env_name (env ∷ envs) found =
      cloud_args_of env_name env found >>= λ found'. find_cloud_args env_name envs found'

  -- Reading a variable that has not been assigned raises UnboundLocalError, a NameError.
  unfoldable pub assigned : Option Value → Result Value
  assigned none = raise name_error
  assigned (some v) = ok v

  unfoldable pub backup : Workload → String → Exec S (Unit {0})
  unfolding find_cloud_args assigned backup_restore_dest
  backup w target = do
    cloud_args ← find_cloud_args w.backend_env w.envs none
    backup_dest ← backup_restore_dest w
    args ← lift (assigned cloud_args)
    b.backup w.database backup_dest args target

  unfoldable pub restore : Workload → String → Exec S (Unit {0})
  unfolding find_cloud_args assigned backup_restore_dest get_all_params
  restore w target = do
    cloud_args ← find_cloud_args w.backend_env w.envs none
    restore_dest ← backup_restore_dest w
    args ← lift (assigned cloud_args)
    b.restore w.database restore_dest args target
    klass ← b.find_class (get "klass" w.workload_conf)
    b.data_check klass (get_all_params w)
    b.setup klass (get_all_params w)
