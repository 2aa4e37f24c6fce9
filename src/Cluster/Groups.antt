-- ===== src/Cluster/Groups.antt =====
-- `group_nodes_by_name` where every class is clustered: one entry for each role, with the nodes of
-- that role in the order of the tree.
use xbench_community.Prelude.{
  String, Bool, true, Option, some, none, List, [], ◌∷◌, ◌++◌, Dict, lookup, insert, str_eq,
  str_eq_iff, if◌then◌else◌, ◌≡◌, refl, arith, ◌∙◌, sym, Bool-cases, inl, inr, lookup-insert, ap,
}
use mathlib.Core.Path.{subst}
use mathlib.Core.List.{append-nil, append_assoc}
use xbench_community.Exec.{Result, ok, ◌>>=?◌}
use xbench_community.Cluster.{
  Node, one, many, Instance, append_node, add_clustered, add_instance, add_instances,
  group_nodes_by_name, placed_names, TreeNode,
}

-- A node with the name of the group that it was found in.
abbrev pub Placed : Type 0
Placed = Node × String

-- The nodes of one role.
abbrev pub of_role : String → List Placed → List Placed
of_role role [] = []
of_role role ((n, g) ∷ ps) =
    if str_eq n.vm.role role then (n, g) ∷ of_role role ps else of_role role ps

abbrev pub nodes_of : List Placed → List Node
nodes_of [] = []
nodes_of ((n, g) ∷ ps) = n ∷ nodes_of ps

-- The entry of a role: class, name and environment of its first node, and all its nodes.
abbrev pub entry_of : List Placed → Option Instance
entry_of [] = none
entry_of ((n, g) ∷ ps) =
    some (record { klass = n.vm.klass; nodes = many (n ∷ nodes_of ps); name = g; env = n.vm.env })

of_role-append :
    (role : String) (xs ys : List Placed)
    → of_role role (xs ++ ys) ≡ of_role role xs ++ of_role role ys
of_role-append role [] ys = refl
of_role-append role ((n, g) ∷ xs) ys = ground (arith, of_role-append role xs ys)

nodes_of-append : (xs ys : List Placed) → nodes_of (xs ++ ys) ≡ nodes_of xs ++ nodes_of ys
nodes_of-append [] ys = refl
nodes_of-append ((n, g) ∷ xs) ys = ap (λ l. n ∷ l) (nodes_of-append xs ys)

-- The dictionary has the entries of the nodes that were placed so far.
abbrev pub Represents : Dict Instance → List Placed → Type 0
Represents acc placed = (role : String) → lookup role acc ≡ entry_of (of_role role placed)

module _ (members : Dict Node) (clustered : String → Result Bool) where
  -- The names stand for these nodes, and the classes of all of them are clustered.
  abbrev pub AreClustered : List (String × String) → List Placed → Type 0
  AreClustered [] [] = Unit
  AreClustered ((m, g) ∷ ps) ((n, g') ∷ ns) =
      (lookup m members ≡ some n) × (g ≡ g') × (clustered n.vm.klass ≡ ok true) × AreClustered ps ns
  AreClustered _ _ = ⊥

  -- The dictionary after one more node, and its entry for the role of that node.
  grown :
      (n : Node) (g : String) (acc : Dict Instance) (i : Instance) (placed : List Placed)
      → Represents acc placed
      → entry_of (of_role n.vm.role placed ++ (n, g) ∷ []) ≡ some i
      → Represents (insert n.vm.role i acc) (placed ++ (n, g) ∷ [])
  grown n g acc i placed h e role = elim (Bool-cases (str_eq n.vm.role role)) [
    | inl same ↦
        rw (lookup-insert, of_role-append, same)
          (sym (
            subst (λ r. entry_of (of_role r placed ++ (n, g) ∷ []) ≡ some i)
              ((str_eq_iff n.vm.role role).0 same) e))
    | inr other ↦ rw (lookup-insert, of_role-append, other) (rw append-nil (h role))
  ]

  add_clustered_lem :
      (n : Node) (g : String) (acc : Dict Instance) (placed : List Placed)
      → Represents acc placed
      → (acc' : Dict Instance) × (add_clustered members clustered n g acc ≡ ok acc')
        × Represents acc' (placed ++ (n, g) ∷ [])
  unfolding add_clustered append_node
  add_clustered_lem n g acc placed h = by_role (of_role n.vm.role placed) refl
    where
      by_role :
          (l : List Placed)
          → of_role n.vm.role placed ≡ l
          → (acc' : Dict Instance) × (add_clustered members clustered n g acc ≡ ok acc')
            × Represents acc' (placed ++ (n, g) ∷ [])
      by_role [] e = (
        insert n.vm.role
            (record { klass = n.vm.klass; nodes = many (n ∷ []); name = g; env = n.vm.env }) acc,
        rw (h n.vm.role ∙ ap entry_of e, add_clustered),
        grown n g acc _ placed h (rw e),
      )
      by_role ((n', g') ∷ ps) e = (
        insert n.vm.role
            (record {
              klass = n'.vm.klass;
              nodes = many (n' ∷ nodes_of ps ++ n ∷ []);
              name = g';
              env = n'.vm.env;
            })
            acc,
        rw (h n.vm.role ∙ ap entry_of e, add_clustered),
        grown n g acc _ placed h (rw e (rw nodes_of-append)),
      )

  add_instance_lem :
      (m g g' : String) (n : Node) (acc : Dict Instance)
      → lookup m members ≡ some n
      → g ≡ g'
      → clustered n.vm.klass ≡ ok true
      → add_instance members clustered acc (m, g) ≡ add_clustered members clustered n g' acc
  unfolding add_instance
  add_instance_lem m g g' n acc found same is_clustered =
      rw (found, add_instance)
        (ap (λ r. r >>=? λ c. if c then add_clustered members clustered n g acc else other)
            is_clustered
          ∙ ap (λ x. add_clustered members clustered n x acc) same)
    where
      other : Result (Dict Instance)
      other =
          ok (insert m (record { klass = n.vm.klass; nodes = one n; name = g; env = n.vm.env }) acc)

  add_instances_lem :
      (ps : List (String × String)) (ns : List Placed) (acc : Dict Instance) (placed : List Placed)
      → AreClustered ps ns
      → Represents acc placed
      → (d : Dict Instance) × (add_instances members clustered acc ps ≡ ok d)
        × Represents d (placed ++ ns)
  unfolding add_instances
  add_instances_lem [] [] acc placed a h =
      (acc, refl, subst (λ l. Represents acc l) (sym (append-nil placed)) h)
  add_instances_lem [] (n ∷ ns) acc placed a h = elim a [ ]
  add_instances_lem (p ∷ ps) [] acc placed a h = elim a [ ]
  add_instances_lem ((m, g) ∷ ps) ((n, g') ∷ ns) acc placed (found, same, is_clustered, a) h =
      let (acc', added, h') = add_clustered_lem n g' acc placed h in
      let (d, more, h'') = add_instances_lem ps ns acc' (placed ++ (n, g') ∷ []) a h' in
      (
        d,
        ap (λ r. r >>=? λ q. add_instances members clustered q ps)
              (add_instance_lem m g g' n acc found same is_clustered ∙ added)
            ∙ more,
        subst (λ l. Represents d l) (append_assoc placed ((n, g') ∷ []) ns) h'',
      )

-- If the names in the tree are members and the class of each is clustered, group_nodes_by_name
-- returns a dictionary with an entry for a role exactly if there is a node of that role; the entry
-- holds all nodes of the role in the order of the tree, and the class, the group's name and the
-- environment of the first of them.
pub group_nodes_by_name_lem :
    (members : Dict Node) (clustered : String → Result Bool) (levels : List (List TreeNode))
    (ns : List Placed)
    → AreClustered members clustered (placed_names levels) ns
    → (d : Dict Instance) × (group_nodes_by_name members clustered levels ≡ ok d)
      × ((role : String) → lookup role d ≡ entry_of (of_role role ns))
unfolding group_nodes_by_name lookup
group_nodes_by_name_lem members clustered levels ns a =
    add_instances_lem members clustered (placed_names levels) ns [] [] a (λ role. refl)
