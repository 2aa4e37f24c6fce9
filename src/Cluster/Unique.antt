-- ===== src/Cluster/Unique.antt =====
-- `unique_nodes` keeps one node of each name.
use mathlib.Core.Path.{subst}
use xbench_community.Prelude.{
  String, Bool, true, false, List, [], ◌∷◌, map, str_eq, str_eq_iff, ◌≡◌, arith, ◌||◌, refl,
  Bool-cases, inl, inr,
}
use xbench_community.Cluster.{TreeNode, is_in, unique_from, unique_nodes}

abbrev pub names : List TreeNode → List String
names nodes = map (λ (x : TreeNode). x.name) nodes

-- No name stands twice, and none stands in `used`.
abbrev pub IsDistinct : List String → List String → Type 0
IsDistinct used [] = Unit
IsDistinct used (x ∷ xs) = (is_in x used ≡ false) × IsDistinct (x ∷ used) xs

unique_from-IsDistinct :
    (used : List String) (nodes : List TreeNode) → IsDistinct used (names (unique_from used nodes))
unfolding unique_from
unique_from-IsDistinct used [] = tt
unique_from-IsDistinct used (x ∷ nodes) = elim (Bool-cases (is_in x.name used)) [
  | inl seen ↦ rw seen (unique_from-IsDistinct used nodes)
  | inr new ↦ rw new (new, unique_from-IsDistinct (x.name ∷ used) nodes)
]

is_in-of_eq :
    (x y : String) (used : List String)
    → str_eq x y ≡ true
    → is_in x used ≡ true
    → is_in y used ≡ true
is_in-of_eq x y used same h = subst (λ z. is_in z used ≡ true) ((str_eq_iff x y).0 same) h

-- Boolean steps of the induction: a name that was seen, and one that is new.
or_seen :
    (used same kept all : Bool)
    → (same ≡ true → used ≡ true)
    → (used || kept) ≡ (used || all)
    → (used || kept) ≡ (used || (same || all))
or_seen used same kept all seen ih = ground arith

or_new :
    (used same kept all : Bool)
    → ((same || used) || kept) ≡ ((same || used) || all)
    → (used || (same || kept)) ≡ (used || (same || all))
or_new used same kept all ih = ground arith

is_in-unique_from :
    (name : String) (used : List String) (nodes : List TreeNode)
    → (is_in name used || is_in name (names (unique_from used nodes)))
      ≡ (is_in name used || is_in name (names nodes))
unfolding unique_from
is_in-unique_from name used [] = refl
is_in-unique_from name used (x ∷ nodes) = elim (Bool-cases (is_in x.name used)) [
  | inl seen ↦ rw seen (
      or_seen (is_in name used) (str_eq x.name name) (is_in name (names (unique_from used nodes)))
        (is_in name (names nodes)) (λ same. is_in-of_eq x.name name used same seen)
        (is_in-unique_from name used nodes))
  | inr new ↦ rw new (
      or_new (is_in name used) (str_eq x.name name)
        (is_in name (names (unique_from (x.name ∷ used) nodes))) (is_in name (names nodes))
        (is_in-unique_from name (x.name ∷ used) nodes))
]

-- `unique_nodes` leaves no two nodes of one name, and every name that was there is still there,
-- and no other.
pub unique_nodes_lem :
    (nodes : List TreeNode)
    → IsDistinct [] (names (unique_nodes nodes))
      × ((name : String) → is_in name (names (unique_nodes nodes)) ≡ is_in name (names nodes))
unfolding unique_nodes
unique_nodes_lem nodes = (unique_from-IsDistinct [] nodes, λ name. is_in-unique_from name [] nodes)
