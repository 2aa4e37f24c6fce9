-- ===== src/Provisioning/Naming.antt =====
-- The names that `configure` gives the nodes of the tree.
use xbench_community.Prelude.{ℕ, String, some, List, map, Dict, lookup, if◌then◌else◌, ◌≡◌, All}
use xbench_community.Exec.{Result, ok}
use xbench_community.Cluster.{is_in}
use xbench_community.Provisioning.{instance_names, joined}

module _ (digits : ℕ → String) (count : String → Result ℕ) (n : String → ℕ) where
  -- The name of a component: the names of its instances, with commas.
  abbrev pub group_name : String → String
  group_name c = joined (instance_names digits c (n c))

  -- The table has names of this form only.
  abbrev pub HasGroupNames : Dict String → Type 0
  HasGroupNames d = (c v : String) → lookup c d ≡ some v → v ≡ group_name c

  -- What the loop does from a table on.
  abbrev pub IsNamed : Dict String → List String → Result (List String × Dict String) → Type 0
  IsNamed old cs r =
      (new : Dict String) × (r ≡ ok (map group_name cs, new))
      × ((c : String) → lookup c new ≡ (if is_in c cs then some (group_name c) else lookup c old))

  -- The components of a list have counts.
  abbrev pub AreCounted : List String → Type 0
  AreCounted cs = All (λ c. count c ≡ ok (n c)) cs
