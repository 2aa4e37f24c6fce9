-- ===== src/Cluster.antt =====
-- compute/cluster.py: what a cluster holds, and how its members are grouped. The tree of the
-- topology is anytree's: `levels` is what LevelOrderGroupIter yields for it, the root's level
-- first. `klass` names a Python class, and `clustered` reads the attribute of that name.
pub mod Unique
pub mod Groups
mod Tests
use xbench_community.Prelude.{
  ℕ, zero, suc, String, Bool, true, false, Option, some, none, List, [], ◌∷◌, ◌++◌, map, any, Dict,
  lookup, insert, str_eq, split_on, without_char, if◌then◌else◌, ◌||◌, ◌&&◌, ◌==◌, leb,
}
use Prim.Native.Char.{Char, code}
use xbench_community.Exn.{
  Exn, attribute_error, index_error, cluster_exception, file_not_found_error,
}
use xbench_community.Exec.{Result, ok, raise, ◌>>=?◌}

-- cloud/virtual_storage.py
pub record VirtualStorage : Type 0 where
  pub size : ℕ
  pub type : Option String
  pub device : String
  pub zone : String
  pub name : String
  pub id : String
  pub num_ephemeral : ℕ

-- cloud/virtual_network.py
pub record VirtualNetwork : Type 0 where
  pub cloud_type : String
  pub private_ip : String
  pub public_ip : String

-- cloud/virtual_machine.py, without the fields that no modelled operation reads
pub record VirtualMachine : Type 0 where
  pub env : String
  pub name : String
  pub role : String
  pub klass : String
  pub zone : String
  pub os_type : String
  pub managed : Bool
  pub provisioned : Bool
  pub storage : Option VirtualStorage
  pub storage_list : List VirtualStorage
  pub network : VirtualNetwork
  pub id : Option String

-- compute/node.py: the state of a `Node` is its virtual machine.
pub record Node : Type 0 where
  pub vm : VirtualMachine

unfoldable pub get_client_iface : VirtualNetwork → String
get_client_iface n = if str_eq n.cloud_type "private_cloud" then n.public_ip else n.private_ip

unfoldable pub get_all_storage : VirtualMachine → List VirtualStorage
get_all_storage vm = vm.storage_list ++ elim vm.storage [ none ↦ [] | some s ↦ s ∷ [] ]

pub data ClusterState : Type 0 where
  ready down failed allocated not_ready : ClusterState

-- A node of the tree, with the name of its parent.
pub record TreeNode : Type 0 where
  pub name : String
  pub parent : String

-- `x.name in used`
abbrev pub is_in : String → List String → Bool
is_in x used = any (λ y. str_eq y x) used

-- `unique_nodes`, with the names seen so far
unfoldable pub unique_from : List String → List TreeNode → List TreeNode
unique_from used [] = []
unique_from used (x ∷ nodes) =
    let fresh = x ∷ unique_from (x.name ∷ used) nodes in
    let rest = unique_from used nodes in if is_in x.name used then rest else fresh

unfoldable pub unique_nodes : List TreeNode → List TreeNode
unfolding unique_from
unique_nodes nodes = unique_from [] nodes

abbrev pub tail : {A : Type 0} → List A → List A
tail [] = []
tail (x ∷ xs) = xs

unfoldable pub level_order_group_cluster_members : List (List TreeNode) → List (List TreeNode)
unfolding unique_nodes
level_order_group_cluster_members levels = tail (map unique_nodes levels)

-- `name.split(",")`
unfoldable pub instance_names : TreeNode → List String
instance_names g = let (first, rest) = split_on b',' g.name in first ∷ rest

abbrev pub flat_map : {A B : Type 0} → (A → List B) → List A → List B
flat_map f [] = []
flat_map f (x ∷ xs) = f x ++ flat_map f xs

unfoldable pub get_all_driver_nodes : Dict Node → List (List TreeNode) → Result (List (Option Node))
unfolding instance_names level_order_group_cluster_members
get_all_driver_nodes members levels = elim (level_order_group_cluster_members levels) [
  | [] ↦ raise index_error
  | drivers ∷ _ ↦ ok (map (λ d. lookup d members) (flat_map instance_names drivers))
]

-- `xs[-1]`
abbrev pub last : {A : Type 0} → List A → Option A
last [] = none
last (x ∷ []) = some x
last (x ∷ y ∷ xs) = last (y ∷ xs)

unfoldable pub get_backend_nodes : Dict Node → List (List TreeNode) → Result (List (Option Node))
unfolding instance_names level_order_group_cluster_members
get_backend_nodes members levels = elim (last (level_order_group_cluster_members levels)) [
  | none ↦ raise index_error
  | some [] ↦ raise index_error
  | some (backends ∷ _) ↦ ok (map (λ b. lookup b members) (instance_names backends))
]

-- `find_node_by_name`: the first of the nodes that anytree's `findall` gives
unfoldable pub find_node_by_name : List TreeNode → String → Result TreeNode
find_node_by_name [] name = raise cluster_exception
find_node_by_name (x ∷ nodes) name =
    let rest = find_node_by_name nodes name in if str_eq x.name name then ok x else rest

-- `remove_numbers`; `isdigit` is that of Python's `str`.
unfoldable pub remove_numbers : (Char → Bool) → String → String
remove_numbers isdigit String.[] = ""
remove_numbers isdigit (String.◌∷◌ c s) =
    let rest = remove_numbers isdigit s in
    if isdigit c || (code c == b'_') then rest else String.◌∷◌ c rest

-- A node of a class that is not clustered, or the nodes of one that is.
pub data Nodes : Type 0 where
  one : Node → Nodes
  many : List Node → Nodes

pub record Instance : Type 0 where
  pub klass : String
  pub nodes : Nodes
  pub name : String
  pub env : String

-- Each name that a group of the tree stands for, with the group's name, in level order.
unfoldable pub placed_names : List (List TreeNode) → List (String × String)
unfolding instance_names level_order_group_cluster_members
placed_names levels =
    flat_map (flat_map (λ g. map (λ m. (m, g.name)) (instance_names g)))
      (level_order_group_cluster_members levels)

module _ (members : Dict Node) (clustered : String → Result Bool) where
  -- `node_instances[label]["nodes"].append(node)`
  unfoldable pub append_node : String → Node → Instance → Dict Instance → Result (Dict Instance)
  append_node label node i acc = elim i.nodes [
    | one _ ↦ raise attribute_error
    | many l ↦ ok (insert label (record i { nodes = many (l ++ node ∷ []) }) acc)
  ]

  unfoldable pub add_clustered : Node → String → Dict Instance → Result (Dict Instance)
  unfolding append_node
  add_clustered node group acc = elim (lookup node.vm.role acc) [
    | none ↦ ok (
        insert node.vm.role
          (record {
            klass = node.vm.klass;
            nodes = many (node ∷ []);
            name = group;
            env = node.vm.env;
          })
          acc)
    | some i ↦ append_node node.vm.role node i acc
  ]

  -- The body of the innermost loop of `group_nodes_by_name`, for the name `m` in the group.
  unfoldable pub add_instance : Dict Instance → String × String → Result (Dict Instance)
  unfolding add_clustered
  add_instance acc (m, group) = elim (lookup m members) [
    | none ↦ raise attribute_error
    | some node ↦ clustered node.vm.klass >>=? λ c.
        if c
        then add_clustered node group acc
        else ok (
            insert m
              (record { klass = node.vm.klass; nodes = one node; name = group; env = node.vm.env })
              acc)
  ]

  unfoldable pub add_instances : Dict Instance → List (String × String) → Result (Dict Instance)
  add_instances acc [] = ok acc
  add_instances acc (p ∷ ps) = add_instance acc p >>=? λ acc'. add_instances acc' ps

  unfoldable pub group_nodes_by_name : List (List TreeNode) → Result (Dict Instance)
  group_nodes_by_name levels = add_instances [] (placed_names levels)
