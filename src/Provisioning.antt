-- ===== src/Provisioning.antt =====
-- xbench/provisioning.py: what a cluster is built from, the names of its instances, and the
-- allocation of its machines. The clouds are an interface; the saved cluster file is a part of the
-- state, and xbench/deprovisioning.py ends with its removal.
pub mod Naming
pub mod Allocate
pub mod Raises
pub mod Clean
mod Tests
use Prim.Native.String.{◌++◌ as str_append}
use Prim.Native.Char.{Char}
use xbench_community.Prelude.{
  ℕ, zero, suc, ◌+◌, String, Bool, true, false, Option, some, none, List, [], ◌∷◌, ◌++◌, str_eq,
  if◌then◌else◌, any, Dict, lookup, insert, split_on, join, not, ◌&&◌, ◌||◌, length, ltb,
}
use xbench_community.Exn.{
  Exn, is_any_of, xbench_exception, type_error, cloud_exception, node_exception, attribute_error,
  yaml_config_exception, xbench_config_exception, cluster_exception,
}
use xbench_community.Exec.{
  Result, ok, raise, Exec, pure, throw, lift, ◌>>=◌, ◌>>◌, ◌>>=?◌, try_except, for_each,
}
use xbench_community.Config.{
  Value, null, bool, num, str, list, dict, Items, Entries, end, entry, get, put, union, extender,
  simple_dict_items,
}
use xbench_community.Config.YamlConfig.{YamlConfig, get_key, is_truthy}
use xbench_community.Cluster.{
  VirtualStorage, VirtualMachine, Node, ClusterState, allocated, failed, remove_numbers,
}

pub record Environment : Type 0 where
  pub name : String
  pub cloud : String
  pub cloud_klass : Value
  pub region : String

pub record EnvironmentComponents : Type 0 where
  pub env : Environment
  pub region_config : Entries
  pub components : Dict Entries
  pub shared_storage : List VirtualStorage

-- The parts of a `Cluster` that provisioning and deprovisioning read and write.
pub record ClusterFile : Type 0 where
  pub envs : List Environment
  pub members : Dict Node
  pub topo_map : Dict String
  pub state : ClusterState
  pub shared_storage : List VirtualStorage

-- `self.extra_impl_params.get(k, {})`; what is no dictionary cannot be looped over as one.
unfoldable pub extra_of : String → Entries → Result Entries
extra_of k extra = elim (get k extra) [
  | none ↦ ok end
  | some (dict d) ↦ ok d
  | some _ ↦ raise type_error
]

-- `a | b` where `b` is what get_key returned
unfoldable pub union_value : Entries → Value → Result Entries
union_value a (dict b) = ok (union a b)
union_value a _ = raise type_error

-- The loop body of `build_envs` for a component `k` of the implementation.
unfoldable pub component_params :
    YamlConfig → String → Entries → String → Entries → String → Result Entries
unfolding extra_of union_value
component_params impl_yaml impl common cluster_name extra k =
    get_key impl_yaml (some impl) (some k) true >>=? λ v. union_value common v >>=? λ this.
    extra_of k extra >>=? λ e.
    ok (extender (union this (entry "cluster_name" (str cluster_name) end)) e)

-- The loop over `impl_params.items()`: only dictionaries are components.
unfoldable pub add_components :
    YamlConfig
    → String
    → Entries
    → String
    → Entries
    → Entries
    → Dict Entries
    → Result (Dict Entries)
unfolding component_params
add_components impl_yaml impl common cluster_name extra end acc = ok acc
add_components impl_yaml impl common cluster_name extra (entry k (dict d) params) acc =
    component_params impl_yaml impl common cluster_name extra k >>=? λ this.
    add_components impl_yaml impl common cluster_name extra params (insert k this acc)
add_components impl_yaml impl common cluster_name extra (entry k v params) acc =
    add_components impl_yaml impl common cluster_name extra params acc

unfoldable pub get_component_params : String → List EnvironmentComponents → Result Entries
unfolding is_truthy
get_component_params name [] = raise xbench_exception
get_component_params name (env ∷ envs) =
    let rest = get_component_params name envs in
    elim (lookup name env.components) [
      | none ↦ rest
      | some d ↦ if is_truthy (some (dict d)) then ok d else rest
    ]

-- The names of the instances of a component: `digits` writes a number in decimal.
unfoldable pub instance_names : (ℕ → String) → String → ℕ → List String
instance_names digits component zero = []
instance_names digits component (suc n) =
    instance_names digits component n ++ str_append component (str_append "-" (digits n)) ∷ []

-- `",".join(names)`
unfoldable pub joined : List String → String
joined [] = ""
joined (first ∷ rest) = join "," first rest

-- The loop of `configure` over the nodes of the tree in level order: the new names of the nodes,
-- and component_hash. `count` gives `int(component_params.get("count"))`.
unfoldable pub name_components :
    (ℕ → String)
    → (String → Result ℕ)
    → Dict String
    → List String
    → Result (List String × Dict String)
unfolding instance_names joined
name_components digits count component_hash [] = ok ([], component_hash)
name_components digits count component_hash (component ∷ nodes) =
    elim (lookup component component_hash) [
      | some name ↦ name_components digits count component_hash nodes >>=? λ r. ok (name ∷ r.0, r.1)
      | none ↦ count component >>=? λ n.
          name_components digits count
            (insert component (joined (instance_names digits component n)) component_hash) nodes
          >>=? λ r. ok (joined (instance_names digits component n) ∷ r.0, r.1)
    ]

-- How writing the cluster file ends: none if all of it is written, and else the exception, with the
-- file as it is left, which may be cut off.
abbrev pub Writer : Type 0 → Type 0
Writer W = ClusterFile → W → Option (Exn × Option (Result ClusterFile))

-- The clouds and the cluster file, as `allocate` and `clean` use them.
-- `launch_instances` may return None.
pub record Fleet (W : Type 0) : Type 0 where
  pub is_running : EnvironmentComponents → Exec W Bool
  pub launch_storage : EnvironmentComponents → List VirtualStorage → Exec W (List VirtualStorage)
  pub launch : EnvironmentComponents → List Entries → Exec W (Option (List (Option Node)))
  pub launch_ephemeral : EnvironmentComponents → List Entries → Exec W (List (Option Node))
  pub write : Writer W

-- The cluster file, beside the clouds and the rest of the outside: nothing if it is missing, and
-- else the cluster that PyYAML and dacite make of it, or what they, or a Node's constructor, raise.
pub record World (W : Type 0) : Type 0 where
  pub cluster_file : Option (Result ClusterFile)
  pub cloud : W

unfoldable pub on_cloud : {W A : Type 0} → Exec W A → Exec (World W) A
on_cloud m w = let (r, c) = m w.cloud in (r, record w { cloud = c })

abbrev pub load_failures : List Exn
load_failures = yaml_config_exception ∷ xbench_config_exception ∷ cluster_exception ∷ []

-- `load_from_config`, which tells a missing file by ClusterException
unfoldable pub load_from_config : Option (Result ClusterFile) → Result ClusterFile
load_from_config none = raise cluster_exception
load_from_config (some r) = r

unfoldable pub load_cluster : {W : Type 0} → Exec (World W) ClusterFile
unfolding load_from_config
load_cluster w = elim (load_from_config w.cluster_file) [
  | ok c ↦ (ok c, w)
  | raise e ↦ (if is_any_of e load_failures then raise xbench_exception else raise e, w)
]

-- Without an archive.
unfoldable pub save_cluster : {W : Type 0} → Writer W → ClusterFile → Exec (World W) (Unit {0})
save_cluster write c w = elim (write c w.cloud) [
  | none ↦ (ok tt, record w { cluster_file = some (ok c) })
  | some (e, left) ↦ (raise e, record w { cluster_file = left })
]

-- `component_params.get("key_file", None) is None`
unfoldable pub has_key_file : Entries → Bool
has_key_file d = elim (get "key_file" d) [ none ↦ false | some null ↦ false | some _ ↦ true ]

abbrev or_empty : Option Value → Value
or_empty none = str ""
or_empty (some v) = v

-- What the loop over topo_map sets in the parameters of a component for one instance.
unfoldable pub instance_params :
    (Char → Bool) → EnvironmentComponents → String → String → Entries → Entries
unfolding has_key_file
instance_params isdigit env_c component impl_name d =
    let named =
      put "name" (str impl_name)
        (put "role" (str (remove_numbers isdigit component)) (put "env" (str env_c.env.name) d)) in
    if has_key_file named
    then named
    else put "key_file" (or_empty (get "key_file" env_c.region_config)) named

-- The instances of one component: those to launch, and those to fake.
unfoldable pub split_instances :
    (Char → Bool)
    → EnvironmentComponents
    → String
    → Entries
    → List String
    → List Entries × List Entries
unfolding instance_params is_truthy
split_instances isdigit env_c component d [] = ([], [])
split_instances isdigit env_c component d (impl_name ∷ names) =
    let (launched, faked) = split_instances isdigit env_c component d names in
    let params = instance_params isdigit env_c component impl_name d in
    if is_truthy (get "provisioned" params)
    then (params ∷ launched, faked)
    else (launched, params ∷ faked)

-- The loop over topo_map: a component without parameters is in another environment.
unfoldable pub plan_instances :
    (Char → Bool) → EnvironmentComponents → Dict String → List Entries × List Entries
unfolding split_instances is_truthy
plan_instances isdigit env_c [] = ([], [])
plan_instances isdigit env_c ((component, impl_names) ∷ topo_map) =
    let (launched, faked) = plan_instances isdigit env_c topo_map in
    elim (lookup component env_c.components) [
      | none ↦ (launched, faked)
      | some d ↦
          if is_truthy (some (dict d))
          then (let (first, more) = split_on b',' impl_names in
              let (l, f) = split_instances isdigit env_c component d (first ∷ more) in
              (l ++ launched, f ++ faked))
          else (launched, faked)
    ]

-- The loop over the nodes: the cluster with those that are there, and allocate_failed.
unfoldable pub add_nodes : ClusterFile → Bool → List (Option Node) → ClusterFile × Bool
add_nodes cluster allocate_failed [] = (cluster, allocate_failed)
add_nodes cluster allocate_failed (none ∷ nodes) = add_nodes cluster true nodes
add_nodes cluster allocate_failed (some n ∷ nodes) =
    add_nodes (record cluster { members = insert n.vm.name n cluster.members; state = allocated })
      allocate_failed nodes

-- The end of the loop body: the file is saved in both cases.
unfoldable pub save_nodes :
    {W : Type 0} → Writer W → ClusterFile → List (Option Node) → Exec (World W) ClusterFile
unfolding add_nodes save_cluster
save_nodes write cluster nodes =
    let (cluster', allocate_failed) = add_nodes cluster false nodes in
    if allocate_failed
    then save_cluster write (record cluster' { state = failed }) >> throw xbench_exception
    else save_cluster write cluster' >> pure cluster'

module _ {W : Type 0} (fleet : Fleet W) (isdigit : Char → Bool) where
  unfoldable pub launch_planned :
      EnvironmentComponents → List Entries × List Entries → Exec (World W) (List (Option Node))
  unfolding on_cloud
  launch_planned env_c (to_launch, to_fake) = do
    nodes ←
        (if ltb 0 (length to_launch)
          then on_cloud (fleet.launch env_c to_launch)
          else pure (some []))
    ephemeral_nodes ←
        (if ltb 0 (length to_fake)
          then on_cloud (fleet.launch_ephemeral env_c to_fake)
          else pure [])
    elim nodes [ none ↦ throw type_error | some l ↦ pure (l ++ ephemeral_nodes) ]

  -- `is_running` is asked once for each cloud.
  unfoldable pub check_not_running :
      EnvironmentComponents → List String → Exec (World W) (List String)
  unfolding on_cloud
  check_not_running env_c provisioned_clouds =
      if any (λ c. str_eq c env_c.env.cloud) provisioned_clouds
      then pure provisioned_clouds
      else (on_cloud (fleet.is_running env_c) >>= λ running.
          if running
          then throw xbench_exception
          else pure (provisioned_clouds ++ env_c.env.cloud ∷ []))

  -- The body of the loop over the environments.
  unfoldable pub allocate_env :
      EnvironmentComponents → List String → ClusterFile → Exec (World W) (List String × ClusterFile)
  unfolding check_not_running plan_instances launch_planned save_nodes on_cloud
  allocate_env env_c provisioned_clouds cluster = do
    clouds ← check_not_running env_c provisioned_clouds
    storage ← on_cloud (fleet.launch_storage env_c env_c.shared_storage)
    nodes ← launch_planned env_c (plan_instances isdigit env_c cluster.topo_map)
    cluster' ←
        save_nodes fleet.write
          (record cluster { envs = cluster.envs ++ env_c.env ∷ []; shared_storage = storage }) nodes
    pure (clouds, cluster')

  unfoldable pub allocate_envs :
      List EnvironmentComponents → List String → ClusterFile → Exec (World W) (Unit {0})
  unfolding allocate_env
  allocate_envs [] provisioned_clouds cluster = pure tt
  allocate_envs (env_c ∷ envs) provisioned_clouds cluster =
      allocate_env env_c provisioned_clouds cluster >>= λ r. allocate_envs envs r.0 r.1

  unfoldable pub allocate : List EnvironmentComponents → Exec (World W) (Unit {0})
  unfolding allocate_envs load_cluster
  allocate envs = do
    cluster ← load_cluster
    try_except (allocate_envs envs [] cluster) (λ e.
        if is_any_of e (cloud_exception ∷ node_exception ∷ [])
        then throw xbench_exception
        else throw e)
