-- ===== src/Provisioning/Raises.antt =====
-- Which exceptions leave `allocate`.
use Prim.Native.Char.{Char}
use xbench_community.Prelude.{
  true, false, Option, some, none, List, [], ◌∷◌, if◌then◌else◌, ◌≡◌, ◌≢◌, ◌⊎◌,
}
use xbench_community.Exn.{Exn, is_any_of, xbench_exception, cloud_exception, node_exception}
use xbench_community.Exec.{Result, ok, raise, Exec, throw, RaisesOnly}
use xbench_community.Config.{Entries}
use xbench_community.Cluster.{VirtualStorage}
use xbench_community.Provisioning.{
  EnvironmentComponents, ClusterFile, Fleet, World, Writer, load_failures,
}

-- The failures that `allocate` is prepared for.
abbrev pub IsFleetFailure : Exn → Type 0
IsFleetFailure e = is_any_of e (cloud_exception ∷ node_exception ∷ []) ≡ true

pub record FailsAsFleet {W : Type 0} (fleet : Fleet W) : Type 0 where
  pub running :
      (e : EnvironmentComponents) (c : W) → RaisesOnly IsFleetFailure (fleet.is_running e c).0
  pub storage :
      (e : EnvironmentComponents) (l : List VirtualStorage) (c : W)
      → RaisesOnly IsFleetFailure (fleet.launch_storage e l c).0
  pub launched :
      (e : EnvironmentComponents) (l : List Entries) (c : W)
      → RaisesOnly IsFleetFailure (fleet.launch e l c).0
  pub some_list :
      (e : EnvironmentComponents) (l : List Entries) (c : W) → (fleet.launch e l c).0 ≢ ok none
  pub faked :
      (e : EnvironmentComponents) (l : List Entries) (c : W)
      → RaisesOnly IsFleetFailure (fleet.launch_ephemeral e l c).0

-- Writing the cluster file raises this, for some cluster and some state of the outside.
abbrev pub IsWriteFailure : {W : Type 0} → Writer W → Exn → Type 0
IsWriteFailure {W = W} write e =
    (c : ClusterFile) × (u : W) × (left : Option (Result ClusterFile)) × (write c u
      ≡ some (e, left))

-- Reading the cluster file raises this, and `load_cluster` does not convert it.
abbrev pub IsLoadFailure : {W : Type 0} → World W → Exn → Type 0
IsLoadFailure w e = (w.cluster_file ≡ some (raise e)) × (is_any_of e load_failures ≡ false)

-- What may leave the `try` block.
IsCaught : {W : Type 0} → Writer W → Exn → Type 0
IsCaught write e = IsFleetFailure e ⊎ ((e ≡ xbench_exception) ⊎ IsWriteFailure write e)

-- The `except` clause.
converted : {W : Type 0} → Exn → Exec (World W) (Unit {0})
converted e =
    if is_any_of e (cloud_exception ∷ node_exception ∷ []) then throw xbench_exception else throw e

-- What `allocate` raises.
abbrev pub IsAllocateFailure : {W : Type 0} → Writer W → World W → Exn → Type 0
IsAllocateFailure write w e = (e ≡ xbench_exception) ⊎ (IsLoadFailure w e ⊎ IsWriteFailure write e)
