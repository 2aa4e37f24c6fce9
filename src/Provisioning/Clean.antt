-- ===== src/Provisioning/Clean.antt =====
-- xbench/deprovisioning.py: `DeProvisioning.clean`. The cluster has been loaded before; the
-- metrics server and the classes that clean their nodes are parameters.
use xbench_community.Prelude.{
  String, Bool, true, Option, some, none, List, [], ◌∷◌, values, str_eq, if◌then◌else◌, ◌||◌, ltb,
  length, ◌≡◌, refl, ap, sym,
}
use mathlib.Core.Path.{subst}
use xbench_community.Exn.{Exn, attribute_error}
use xbench_community.Exec.{Result, ok, raise, Exec, pure, lift, ◌>>=◌, ◌>>◌, for_each, and_then}
use xbench_community.Config.{Entries, dict, get}
use xbench_community.Cluster.{Node, Instance, VirtualStorage}
use xbench_community.Provisioning.Allocate.{save_cluster-written, save_cluster-fails}
use xbench_community.Provisioning.{Environment, ClusterFile, World, Writer, on_cloud, save_cluster}

-- What `clean` asks of the outside, for a cloud and the settings of its region.
pub record Teardown (W : Type 0) : Type 0 where
  pub load_cloud : String → Exec W Entries
  pub deregister_cluster : Entries → Exec W (Unit {0})
  pub is_persistent : String → Bool
  pub clean_instances : List Instance → Exec W (Unit {0})
  pub terminate_instances : String → Entries → List Node → Exec W (Unit {0})
  pub terminate_storage : String → Entries → List VirtualStorage → Exec W (Unit {0})
  pub write : Writer W

-- The nodes of an environment that were provisioned.
unfoldable pub nodes_to_terminate : String → List Node → List Node
nodes_to_terminate env [] = []
nodes_to_terminate env (n ∷ nodes) =
    let rest = nodes_to_terminate env nodes in
    if str_eq n.vm.env env then (if n.vm.provisioned then n ∷ rest else rest) else rest

unfoldable pub instances_to_clean : String → List Instance → List Instance
instances_to_clean env [] = []
instances_to_clean env (i ∷ instances) =
    let rest = instances_to_clean env instances in
    if str_eq i.env env || str_eq env "*" then i ∷ rest else rest

-- `cloud_config.get(env.region)`, used as a dictionary
unfoldable pub region_of : String → Entries → Result Entries
region_of region cloud_config = elim (get region cloud_config) [
  | none ↦ raise attribute_error
  | some (dict d) ↦ ok d
  | some _ ↦ raise attribute_error
]

module _ {W : Type 0} (t : Teardown W) (dry_run : Bool) (cluster : ClusterFile)
    (groups : List Instance) where
  -- The body of the loop over the environments.
  unfoldable pub clean_env : Environment → Exec W (Unit {0})
  unfolding nodes_to_terminate instances_to_clean region_of
  clean_env env = do
    cloud_config ← t.load_cloud env.cloud
    region_config ← lift (region_of env.region cloud_config)
    t.deregister_cluster region_config
    (if t.is_persistent env.cloud
        then (if dry_run then pure tt else t.clean_instances (instances_to_clean env.name groups))
        else pure tt)
    (if dry_run
        then pure tt
        else ((if ltb 0 (length (nodes_to_terminate env.name (values cluster.members)))
              then t.terminate_instances env.cloud region_config
                  (nodes_to_terminate env.name (values cluster.members))
              else pure tt)
            >> t.terminate_storage env.cloud region_config cluster.shared_storage))

  unfoldable pub remove_cluster_yaml : Exec (World W) (Unit {0})
  remove_cluster_yaml w = (ok tt, record w { cluster_file = none })

  -- The copy of the file in the artifact directory is not modelled; the file itself is saved again.
  unfoldable pub clean : Exec (World W) (Unit {0})
  unfolding clean_env remove_cluster_yaml on_cloud for_each save_cluster
  clean =
      save_cluster t.write cluster
      >> (on_cloud (for_each cluster.envs clean_env) >> remove_cluster_yaml)

-- If the cluster is saved at the start, the file is gone exactly if clean returns; if an exception
-- is raised then, the file still names the cluster with all its members, so that clean can be tried
-- again. If saving fails, its exception is raised, the file is as the saving left it, and nothing
-- else was done.
pub clean-file :
    {W : Type 0} (t : Teardown W) (dry_run : Bool) (cluster : ClusterFile) (groups : List Instance)
    (w : World W)
    → (t.write cluster w.cloud ≡ none
        → ((clean t dry_run cluster groups w).0 ≡ ok tt
            → (clean t dry_run cluster groups w).1.cluster_file ≡ none)
          × ((e : Exn)
              → (clean t dry_run cluster groups w).0 ≡ raise e
              → (clean t dry_run cluster groups w).1.cluster_file ≡ some (ok cluster)))
      × ((e : Exn) (left : Option (Result ClusterFile))
          → t.write cluster w.cloud ≡ some (e, left)
          → clean t dry_run cluster groups w ≡ (raise e, record w { cluster_file = left }))
unfolding clean remove_cluster_yaml on_cloud save_cluster
clean-file {W = W} t dry_run cluster groups w = (
  (λ h.
      subst Outcome (sym (ap (and_then after) (save_cluster-written t.write cluster w h)))
        (by_loop (for_each cluster.envs (clean_env t dry_run cluster groups) w.cloud))),
  (λ e left h. ap (and_then after) (save_cluster-fails t.write cluster w e left h)),
)
  where
    after : Unit {0} → Exec (World W) (Unit {0})
    after _ =
        on_cloud (for_each cluster.envs (clean_env t dry_run cluster groups))
        >> remove_cluster_yaml t dry_run cluster groups

    Outcome : Result (Unit {0}) × World W → Type 0
    Outcome r =
        (r.0 ≡ ok tt → r.1.cluster_file ≡ none)
        × ((e : Exn) → r.0 ≡ raise e → r.1.cluster_file ≡ some (ok cluster))

    finished : Result (Unit {0}) × W → Result (Unit {0}) × World W
    finished r =
        and_then (λ _. remove_cluster_yaml t dry_run cluster groups)
          (r.0, record w { cluster_file = some (ok cluster); cloud = r.1 })

    by_loop : (r : Result (Unit {0}) × W) → Outcome (finished r)
    by_loop (ok a, c) = ((λ h. refl), (λ e h. absurd (ok_raise e h)))
      where
        ok_raise : (e : Exn) → Path (Result (Unit {0})) (ok tt) (raise e) → ⊥
        ok_raise e h = cc
    by_loop (raise x, c) = ((λ h. absurd (raise_ok h)), (λ e h. refl))
      where
        raise_ok : Path (Result (Unit {0})) (raise x) (ok tt) → ⊥
        raise_ok h = cc

-- In a dry run the clouds are only asked for their settings, and the metrics server forgets the
-- cluster: whatever terminating and cleaning did, the outcome would be the same.
clean-dry_run :
    {W : Type 0} (t : Teardown W) (terminate : String → Entries → List Node → Exec W (Unit {0}))
    (storage : String → Entries → List VirtualStorage → Exec W (Unit {0}))
    (wipe : List Instance → Exec W (Unit {0})) (cluster : ClusterFile) (groups : List Instance)
    (w : World W)
    → clean t true cluster groups w
      ≡ clean
          (record t {
            terminate_instances = terminate;
            terminate_storage = storage;
            clean_instances = wipe;
          })
          true
          cluster
          groups
          w
unfolding clean clean_env
clean-dry_run t terminate storage wipe cluster groups w = refl
