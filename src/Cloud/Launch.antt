-- ===== src/Cloud/Launch.antt =====
-- Launching machines: a failure of the cloud leaves None in place of the node, and no exception. An
-- operating system that is not known does raise one.
use xbench_community.Prelude.{
  ℕ, true, ◌⊎◌, Option, some, none, List, [], ◌∷◌, ◌≡◌, refl, arith, length,
}
use xbench_community.Exn.{Exn, is_a, cloud_exception, node_exception}
use xbench_community.Yum.{Yum}
use xbench_community.Exec.{Result, ok, raise, Exec, pure, lift, ◌>>◌, and_then, handle}
use xbench_community.Config.{Entries}
use xbench_community.Cluster.{VirtualStorage, VirtualMachine}
use xbench_community.Cloud.{
  Provider, StorageClass, Cli, gcp_cli, aws_cli, sproutsys_cli, other_cli, create_storage,
  create_and_attach, none_on_cloud_exception, launch_storage, process_storage_instances,
}

-- Every exception is a CloudException.
abbrev pub IsCloudFailure {ℓ} : {A : Type ℓ} → Result A → Type 0
IsCloudFailure (ok a) = Unit
IsCloudFailure (raise e) = is_a e cloud_exception ≡ true

abbrev pub IsOk {ℓ} : {A : Type ℓ} → Result A → Type 0
IsOk (ok a) = Unit
IsOk (raise e) = ⊥

-- The provider fails with CloudException only.
pub record FailsAsCloud {S : Type 0} (p : Provider S) : Type 0 where
  pub machine : (d : Entries) (s : S) → IsCloudFailure (p.create_machine d s).0
  pub volume :
      (c : StorageClass) (v : VirtualStorage) (s : S) → IsCloudFailure (p.create_volume c v s).0
  pub attach :
      (c : StorageClass) (v : VirtualStorage) (vm : VirtualMachine) (s : S)
      → IsCloudFailure (p.attach_volume c v vm s).0

bind-IsCloudFailure :
    {S A B : Type 0} (k : A → Exec S B) (r : Result A × S)
    → IsCloudFailure r.0
    → ((a : A) (t : S) → IsCloudFailure (k a t).0)
    → IsCloudFailure (and_then k r).0
bind-IsCloudFailure k (ok a, s) h rest = rest a s
bind-IsCloudFailure k (raise e, s) h rest = h

bind-IsOk :
    {S A B : Type 0} (k : A → Exec S B) (r : Result A × S)
    → IsOk r.0
    → ((a : A) (t : S) → IsOk (k a t).0)
    → IsOk (and_then k r).0
bind-IsOk k (ok a, s) h rest = rest a s
bind-IsOk k (raise e, s) h rest = absurd h

create_storage-IsCloudFailure : (c : Cli) (v : VirtualStorage) → IsCloudFailure (create_storage c v)
unfolding create_storage is_a
create_storage-IsCloudFailure gcp_cli v = ground arith
create_storage-IsCloudFailure aws_cli v = ground arith
create_storage-IsCloudFailure sproutsys_cli v = ground arith
create_storage-IsCloudFailure other_cli v = refl

-- What may leave `create_instance`.
IsLaunchFailure : Exn → Type 0
IsLaunchFailure e = (is_a e cloud_exception ≡ true) ⊎ (e ≡ node_exception)

module _ {S : Type 0} (p : Provider S) where
  caught :
      {A : Type 0} (r : Result (Option A) × S)
      → IsCloudFailure r.0
      → IsOk (handle (none_on_cloud_exception p) r).0
  unfolding none_on_cloud_exception
  caught (ok a, s) h = tt
  caught (raise e, s) h = rw h tt

  module _ (f : FailsAsCloud p) where
    create_and_attach-IsCloudFailure :
        (vm : Option VirtualMachine) (v : VirtualStorage) (s : S)
        → IsCloudFailure (create_and_attach p vm v s).0
    unfolding create_and_attach
    create_and_attach-IsCloudFailure vm v s =
        bind-IsCloudFailure _ (lift (create_storage p.cli v) s)
          (create_storage-IsCloudFailure p.cli v)
          (λ gs t.
            bind-IsCloudFailure _ (p.create_volume gs v t) (f.volume gs v t)
              (λ made u. attached gs made u vm))
      where
        attached :
            (gs : StorageClass) (made : VirtualStorage) (u : S) (o : Option VirtualMachine)
            → IsCloudFailure
                ((elim o as (λ _. Exec S (Option VirtualStorage)) [
                  | none ↦ pure (some made)
                  | some m ↦ p.attach_volume gs made m >> pure (some made)
                ])
                  u).0
        attached gs made u none = tt
        attached gs made u (some m) =
            bind-IsCloudFailure _ (p.attach_volume gs made m u) (f.attach gs made m u) (λ a t. tt)

    launch_storage-IsOk :
        (vm : Option VirtualMachine) (v : VirtualStorage) (s : S) → IsOk (launch_storage p vm v s).0
    unfolding launch_storage
    launch_storage-IsOk vm v s =
        caught (create_and_attach p vm v s) (create_and_attach-IsCloudFailure vm v s)

    pub process_storage_instances-IsOk :
        (vm : Option VirtualMachine) (l : List VirtualStorage) (s : S)
        → IsOk (process_storage_instances p (launch_storage p vm) l s).0
    unfolding process_storage_instances
    process_storage_instances-IsOk vm [] s = tt
    process_storage_instances-IsOk vm (v ∷ l) s =
        bind-IsOk _ (launch_storage p vm v s) (launch_storage-IsOk vm v s) (λ ps t.
          bind-IsOk _ (process_storage_instances p (launch_storage p vm) l t)
            (process_storage_instances-IsOk vm l t) (λ rest u. tt))

-- Every outcome: a result for each instance that was asked for, or the exception.
abbrev pub LaunchOutcome : {R : Type 0} → ℕ → Result (List R) → Type 0
LaunchOutcome n (ok nodes) = length nodes ≡ n
LaunchOutcome n (raise e) = e ≡ node_exception
