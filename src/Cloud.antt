-- ===== src/Cloud.antt =====
-- cloud/abstract_cloud.py, with cloud/storage_factory.py and compute/run_parallel.py: how machines
-- and volumes are launched and terminated. What the classes of a provider do is a parameter, the
-- record `Provider`; an item of `run_parallel` is a dictionary, a node or anything else, as the
-- code tells them apart.
pub mod Parallel
pub mod Launch
mod Tests
use xbench_community.Prelude.{
  ℕ, String, Bool, true, false, Option, some, none, List, [], ◌∷◌, str_eq, if◌then◌else◌, any,
  length, ltb, map,
}
use xbench_community.Exn.{Exn, is_a, cloud_exception, node_exception, not_implemented_error}
use xbench_community.Exec.{Result, ok, raise, Exec, pure, throw, lift, ◌>>=◌, ◌>>◌, try_except}
use xbench_community.Yum.{new_yum}
use xbench_community.Config.{Entries}
use xbench_community.Cluster.{VirtualStorage, VirtualMachine, Node}

pub data Cli : Type 0 where
  gcp_cli aws_cli sproutsys_cli other_cli : Cli

pub data StorageClass : Type 0 where
  gcp_nas_storage gcp_storage aws_nvme aws_ebs aws_s3 colo_nvme : StorageClass

abbrev ebs_types : List String
ebs_types = "io1" ∷ "io2" ∷ "gp2" ∷ "gp3" ∷ "st1" ∷ "sc1" ∷ "standard" ∷ []

abbrev type_is : String → VirtualStorage → Bool
type_is t vs = elim vs.type [ none ↦ false | some u ↦ str_eq u t ]

unfoldable pub create_storage : Cli → VirtualStorage → Result StorageClass
create_storage gcp_cli vs = if type_is "filestore" vs then ok gcp_nas_storage else ok gcp_storage
create_storage aws_cli vs =
    if type_is "ephemeral" vs
    then ok aws_nvme
    else if any (λ t. type_is t vs) ebs_types
    then ok aws_ebs
    else if type_is "s3" vs
    then ok aws_s3
    else raise cloud_exception
create_storage sproutsys_cli vs =
    if type_is "ephemeral" vs then ok colo_nvme else raise cloud_exception
create_storage other_cli vs = raise cloud_exception

-- What the compute and storage classes of a provider do. `is_shared` is a property of a volume.
pub record Provider (S : Type 0) : Type 0 where
  pub cli : Cli
  -- none for a cloud without a command line
  pub describe_instances_by_tag : Option (Exec S (List String))
  pub create_machine : Entries → Exec S VirtualMachine
  pub destroy_machine : VirtualMachine → Exec S (Unit {0})
  pub start_machine : VirtualMachine → Exec S VirtualMachine
  pub stop_machine : VirtualMachine → Exec S (Unit {0})
  pub create_volume : StorageClass → VirtualStorage → Exec S VirtualStorage
  pub attach_volume : StorageClass → VirtualStorage → VirtualMachine → Exec S (Unit {0})
  pub destroy_volume : StorageClass → VirtualStorage → Exec S (Unit {0})
  pub is_shared : VirtualStorage → Bool

-- An item that `run_parallel` hands to a thread.
pub data Item : Type 0 where
  params_item : Entries → Item
  node_item : Node → Item
  storage_item : VirtualStorage → Item

-- What `executor.submit` passes on of `*args`: only the last case does.
unfoldable pub submitted : {A : Type 0} → Item → A → Option A
submitted (params_item d) args = none
submitted (node_item n) args = none
submitted (storage_item s) args = some args

-- The threads, one after the other here; each has an outcome, and none stops the others.
unfoldable pub run_threads :
    {S R : Type 0} → List Item → (Item → Exec S R) → S → List (Result R) × S
run_threads [] fn s = ([], s)
run_threads (i ∷ instances) fn s =
    let (r, s') = fn i s in let (rs, s'') = run_threads instances fn s' in (r ∷ rs, s'')

-- The loop over the finished futures: `future.result()` raises what the thread raised.
unfoldable pub results_of : {R : Type 0} → List (Result R) → Result (List R)
results_of [] = ok []
results_of (ok r ∷ rs) =
    let rest = results_of rs in elim rest [ ok l ↦ ok (r ∷ l) | raise e ↦ raise e ]
results_of (raise e ∷ rs) = raise e

-- `as_completed` gives the futures in the order in which they finish.
unfoldable pub run_parallel :
    {S R A : Type 0}
    → (List (Result R) → List (Result R))
    → List Item
    → (Item → Option A → Exec S R)
    → A
    → Exec S (List R)
unfolding run_threads results_of submitted
run_parallel as_completed instances fn args s =
    let (rs, s') = run_threads instances (λ i. fn i (submitted i args)) s in
    (results_of (as_completed rs), s')

-- `Node(vm)`: only a machine that is managed gets the clients, and a machine that has been created
-- has a network.
unfoldable pub node_of : VirtualMachine → Result Node
node_of vm =
    if vm.managed
    then elim (new_yum vm.os_type) [
      | raise e ↦ if is_a e not_implemented_error then raise node_exception else raise e
      | ok y ↦ ok (record { vm = vm })
    ]
    else ok (record { vm = vm })

module _ {S : Type 0} (p : Provider S) where
  unfoldable pub is_running : Exec S Bool
  is_running = elim p.describe_instances_by_tag [
    | none ↦ pure false
    | some describe ↦ describe >>= λ instances. pure (ltb 0 (length instances))
  ]

  -- The `try` block of `launch_storage`, for storage that is given.
  unfoldable pub create_and_attach :
      Option VirtualMachine → VirtualStorage → Exec S (Option VirtualStorage)
  unfolding create_storage
  create_and_attach attach_to_vm storage_params = do
    gs ← lift (create_storage p.cli storage_params)
    virtual_storage ← p.create_volume gs storage_params
    elim attach_to_vm [
      | none ↦ pure (some virtual_storage)
      | some vm ↦ p.attach_volume gs virtual_storage vm >> pure (some virtual_storage)
    ]

  -- `except CloudException`: the exception is logged, and None returned.
  unfoldable pub none_on_cloud_exception : {A : Type 0} → Exn → Exec S (Option A)
  none_on_cloud_exception e = if is_a e cloud_exception then pure none else throw e

  unfoldable pub launch_storage :
      Option VirtualMachine → VirtualStorage → Exec S (Option VirtualStorage)
  unfolding create_and_attach none_on_cloud_exception
  launch_storage attach_to_vm storage_params =
      try_except (create_and_attach attach_to_vm storage_params) none_on_cloud_exception

  unfoldable pub detach_storage : VirtualStorage → Bool → Exec S (Option VirtualStorage)
  unfolding create_storage
  detach_storage storage terminate_storage = do
    gs ← lift (create_storage p.cli storage)
    if terminate_storage
        then (if p.is_shared storage
            then pure (some storage)
            else p.destroy_volume gs storage >> pure (some storage))
        else pure (some storage)

  unfoldable pub terminate_storage : VirtualStorage → Exec S (Option VirtualStorage)
  unfolding create_storage
  terminate_storage storage = do
    gs ← lift (create_storage p.cli storage)
    p.destroy_volume gs storage >> pure (some storage)

  -- `_process_storage_instances`
  unfoldable pub process_storage_instances :
      (VirtualStorage → Exec S (Option VirtualStorage))
      → List VirtualStorage
      → Exec S (List VirtualStorage)
  process_storage_instances fn [] = pure []
  process_storage_instances fn (s ∷ storage_list) = fn s >>= λ ps.
      process_storage_instances fn storage_list >>= λ rest.
      pure (elim ps [ none ↦ s | some v ↦ v ] ∷ rest)

  -- The part of `_process_storage` for `vm.storage`: None stays in the machine if `fn` fails.
  unfoldable pub process_single :
      (VirtualStorage → Exec S (Option VirtualStorage))
      → Option VirtualStorage
      → Exec S (Option VirtualStorage)
  process_single fn none = pure none
  process_single fn (some s) = fn s

  -- `_process_storage`, with the machine as it leaves it
  unfoldable pub process_storage :
      (VirtualStorage → Exec S (Option VirtualStorage)) → VirtualMachine → Exec S VirtualMachine
  unfolding process_storage_instances process_single
  process_storage fn vm = do
    single ← process_single fn vm.storage
    volumes ← process_storage_instances fn vm.storage_list
    pure (record vm { storage = single; storage_list = volumes })

  unfoldable pub create_instance : Entries → Exec S (Option Node)
  unfolding process_storage launch_storage node_of
  create_instance instance_params = do
    vm ← p.create_machine instance_params
    vm' ← process_storage (launch_storage (some vm)) vm
    node ← lift (node_of vm')
    pure (some node)

  unfoldable pub launch_instance : Entries → Exec S (Option Node)
  unfolding create_instance none_on_cloud_exception
  launch_instance instance_params =
      try_except (create_instance instance_params) none_on_cloud_exception

  unfoldable pub terminate_instance : Node → Bool → Exec S (Option Node)
  unfolding process_storage detach_storage
  terminate_instance instance with_storage = do
    p.destroy_machine instance.vm
    vm ← process_storage (λ s. detach_storage s with_storage) instance.vm
    pure none

  -- Threads get the items of one kind only; the other cases do not occur.
  unfoldable pub launch_item : Item → Exec S (Option Node)
  unfolding launch_instance
  launch_item (params_item d) = launch_instance d
  launch_item _ = pure none

  unfoldable pub terminate_item : Item → Option Bool → Exec S (Option Node)
  unfolding terminate_instance
  terminate_item (node_item n) arg = terminate_instance n (elim arg [ none ↦ false | some b ↦ b ])
  terminate_item _ arg = pure none

  module _ (as_completed : List (Result (Option Node)) → List (Result (Option Node))) where
    unfoldable pub launch_instances : List Entries → Exec S (List (Option Node))
    unfolding run_parallel launch_item
    launch_instances instances =
        run_parallel as_completed (map params_item instances) (λ i arg. launch_item i) tt

    unfoldable pub terminate_instances : List Node → Bool → Exec S (List (Option Node))
    unfolding run_parallel terminate_item
    terminate_instances instances terminate_storage =
        run_parallel as_completed (map node_item instances) terminate_item terminate_storage

  unfoldable pub launch_storage_instances : List VirtualStorage → Exec S (List VirtualStorage)
  unfolding process_storage_instances launch_storage
  launch_storage_instances storage_list =
      process_storage_instances (launch_storage none) storage_list

  unfoldable pub terminate_storage_instances : List VirtualStorage → Exec S (List VirtualStorage)
  unfolding process_storage_instances terminate_storage
  terminate_storage_instances storage_list =
      process_storage_instances terminate_storage storage_list

  unfoldable pub start_instance : Node → Exec S Node
  start_instance instance = p.start_machine instance.vm >>= λ vm. pure (record { vm = vm })

  unfoldable pub stop_instance : Node → Exec S (Unit {0})
  stop_instance instance = p.stop_machine instance.vm
