-- ===== src/Provisioning/Allocate.antt =====
-- What `allocate` saves.
use xbench_community.Prelude.{
  String, Bool, true, false, Option, some, none, List, [], ◌∷◌, lookup, insert, lookup-insert,
  str_eq, if◌then◌else◌, ◌≡◌, refl, ap, ◌∙◌, sym, Bool-cases, inl, inr,
}
use xbench_community.Exn.{Exn, xbench_exception}
use xbench_community.Exec.{Result, ok, raise, pure, throw, and_then}
use xbench_community.Cluster.{Node, allocated, failed}
use xbench_community.Provisioning.{ClusterFile, World, Writer, save_cluster, add_nodes, save_nodes}

-- Whether a node is missing.
abbrev pub has_missing : List (Option Node) → Bool
has_missing [] = false
has_missing (none ∷ nodes) = true
has_missing (some n ∷ nodes) = has_missing nodes

-- The last node of a name, and else what stood under the name before.
abbrev pub member_of : String → List (Option Node) → Option Node → Option Node
member_of name [] old = old
member_of name (none ∷ nodes) old = member_of name nodes old
member_of name (some n ∷ nodes) old =
    member_of name nodes (if str_eq n.vm.name name then some n else old)

-- The cluster with one more node.
abbrev with_node : Node → ClusterFile → ClusterFile
with_node n cluster = record cluster {
  members = insert n.vm.name n cluster.members;
  state = allocated;
}

add_nodes-member :
    (name : String) (cluster : ClusterFile) (b : Bool) (nodes : List (Option Node))
    → lookup name (add_nodes cluster b nodes).0.members
      ≡ member_of name nodes (lookup name cluster.members)
unfolding add_nodes
add_nodes-member name cluster b [] = refl
add_nodes-member name cluster b (none ∷ nodes) = add_nodes-member name cluster true nodes
add_nodes-member name cluster b (some n ∷ nodes) =
    add_nodes-member name (with_node n cluster) b nodes
    ∙ ap (member_of name nodes) (lookup-insert n.vm.name name n cluster.members)

add_nodes-true :
    (cluster : ClusterFile) (nodes : List (Option Node)) → (add_nodes cluster true nodes).1 ≡ true
unfolding add_nodes
add_nodes-true cluster [] = refl
add_nodes-true cluster (none ∷ nodes) = add_nodes-true cluster nodes
add_nodes-true cluster (some n ∷ nodes) = add_nodes-true (with_node n cluster) nodes

add_nodes-missing :
    (cluster : ClusterFile) (nodes : List (Option Node))
    → (add_nodes cluster false nodes).1 ≡ has_missing nodes
unfolding add_nodes
add_nodes-missing cluster [] = refl
add_nodes-missing cluster (none ∷ nodes) = add_nodes-true cluster nodes
add_nodes-missing cluster (some n ∷ nodes) = add_nodes-missing (with_node n cluster) nodes

module _ {W : Type 0} (write : Writer W) (c : ClusterFile) (w : World W) where
  pub save_cluster-written :
      write c w.cloud ≡ none
      → save_cluster write c w ≡ (ok tt, record w { cluster_file = some (ok c) })
  unfolding save_cluster
  save_cluster-written h = rw (h, save_cluster) refl

  pub save_cluster-fails :
      (e : Exn) (left : Option (Result ClusterFile))
      → write c w.cloud ≡ some (e, left)
      → save_cluster write c w ≡ (raise e, record w { cluster_file = left })
  unfolding save_cluster
  save_cluster-fails e left h = rw (h, save_cluster) refl

-- Whatever nodes a launch returns, the cluster that is to be saved holds every one of them under its
-- name, and its state is failed if one is missing. If writing the file succeeds, it holds that
-- cluster, XbenchException is raised if a node is missing, and the cluster is returned if none
-- is; if writing fails, its exception is raised, and the file is as the writing left it.
pub save_nodes_lem :
    {W : Type 0} (write : Writer W) (cluster : ClusterFile) (nodes : List (Option Node))
    (w : World W)
    → (saved : ClusterFile) × ((name : String)
        → lookup name saved.members ≡ member_of name nodes (lookup name cluster.members))
      × (has_missing nodes ≡ true → saved.state ≡ failed)
      × (write saved w.cloud ≡ none
          → save_nodes write cluster nodes w ≡ (
            if has_missing nodes then raise xbench_exception else ok saved,
            record w { cluster_file = some (ok saved) },
          ))
      × ((e : Exn) (left : Option (Result ClusterFile))
          → write saved w.cloud ≡ some (e, left)
          → save_nodes write cluster nodes w ≡ (raise e, record w { cluster_file = left }))
unfolding save_nodes
save_nodes_lem write cluster nodes w = elim (Bool-cases (has_missing nodes)) [
  | inl missing ↦ (
    record (add_nodes cluster false nodes).0 { state = failed },
    (λ name. add_nodes-member name cluster false nodes),
    (λ _. refl),
    (λ h.
        rw (add_nodes-missing, missing)
          (ap (and_then (λ _. throw xbench_exception)) (
            save_cluster-written write (record (add_nodes cluster false nodes).0 { state = failed })
              w h))),
    (λ e left h.
        rw (add_nodes-missing, missing)
          (ap (and_then (λ _. throw xbench_exception)) (
            save_cluster-fails write (record (add_nodes cluster false nodes).0 { state = failed }) w
              e left h))),
  )
  | inr complete ↦ (
    (add_nodes cluster false nodes).0,
    (λ name. add_nodes-member name cluster false nodes),
    (λ h. absurd (true_false (sym h ∙ complete))),
    (λ h.
        rw (add_nodes-missing, complete)
          (ap (and_then (λ _. pure (add_nodes cluster false nodes).0))
            (save_cluster-written write (add_nodes cluster false nodes).0 w h))),
    (λ e left h.
        rw (add_nodes-missing, complete)
          (ap (and_then (λ _. pure (add_nodes cluster false nodes).0))
            (save_cluster-fails write (add_nodes cluster false nodes).0 w e left h))),
  )
]
  where
    true_false : true ≡ false → ⊥
    true_false h = cc
