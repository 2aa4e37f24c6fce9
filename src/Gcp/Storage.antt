-- ===== src/Gcp/Storage.antt =====
-- cloud/gcp/gcp_storage.py: one disk. The object's volume comes back as the result.
use xbench_community.Prelude.{
  ℕ, String, Option, none, some, [], ◌∷◌, concat, contains, is_text, if◌then◌else◌,
}
use xbench_community.Exn.{is_a, cloud_cli_exception, gcp_storage_exception, cloud_storage_exception}
use xbench_community.Exec.{Result, ok, raise, Exec, pure, throw, lift, ◌>>=◌, ◌>>=?◌}
use xbench_community.Config.{Value}
use xbench_community.Cluster.{VirtualMachine, VirtualStorage}
use xbench_community.Cli.{Reply, printed, failed, Programs, run_cli}
use xbench_community.Aws.{Python, get_in, first_in}
use xbench_community.Gcp.{GcpCli, gcp_cli, run_gcp, run_json}

pub record GcpStorage : Type 0 where
  pub cli : GcpCli
  pub vs : VirtualStorage
  pub vm_name : Option String

-- The name of the disk
unfoldable pub instance_name : GcpStorage → String
unfolding concat
instance_name g = concat (
    g.cli.cluster_name
    ∷ "-"
    ∷ elim g.vm_name [ none ↦ "" | some n ↦ concat (n ∷ "-" ∷ []) ]
    ∷ g.vs.name
    ∷ [])

module _ {S : Type 0} (programs : Programs S) (python : Python) where
  -- `volume_spec[0].get("id")`, which is the volume's identifier
  unfoldable pub update_vs : GcpStorage → Value → Result VirtualStorage
  unfolding first_in get_in
  update_vs g volume_spec = first_in volume_spec >>=? λ first. get_in "id" first >>=? λ id.
      ok (record g.vs { id = elim id [ none ↦ "None" | some v ↦ python.text_of (some v) ] })

  unfoldable pub create : (ℕ → String) → GcpStorage → Exec S VirtualStorage
  unfolding update_vs instance_name concat
  create digits g =
      run_json programs python g.cli (
        concat (
          "compute disks create "
          ∷ instance_name g
          ∷ " --type="
          ∷ elim g.vs.type [ none ↦ "None" | some t ↦ t ]
          ∷ " --size="
          ∷ digits g.vs.size
          ∷ " --zone="
          ∷ g.vs.zone
          ∷ " --labels=tags="
          ∷ g.cli.cluster_name
          ∷ []))
      >>= λ volume_spec. lift (update_vs g volume_spec)

  unfoldable pub described : Reply → Exec S Value
  described (printed out) = lift (python.json_loads out)
  described (failed message) =
      if contains "HTTPError 404" message
      then throw gcp_storage_exception
      else throw cloud_cli_exception

  unfoldable pub describe : GcpStorage → Exec S Value
  unfolding described instance_name concat
  describe g =
      run_cli programs (gcp_cli g.cli) (
        concat (
          "compute disks describe "
          ∷ (if is_text g.vs.id then g.vs.id else instance_name g)
          ∷ " --zone="
          ∷ g.vs.zone
          ∷ []))
      >>= described

  -- `create_safely` of cloud/abstract_storage.py: GcpStorageException is a CloudStorageException.
  unfoldable pub created_unless : (ℕ → String) → GcpStorage → Result Value → Exec S VirtualStorage
  unfolding create update_vs
  created_unless digits g (ok volume_spec) = lift (update_vs g volume_spec)
  created_unless digits g (raise x) =
      if is_a x cloud_storage_exception then create digits g else throw x

  unfoldable pub create_safely : (ℕ → String) → GcpStorage → Exec S VirtualStorage
  unfolding describe created_unless
  create_safely digits g s = let (r, t) = describe g s in created_unless digits g r t

  -- The `else` of the `try` in `destroy`; the volume comes back without its identifier.
  unfoldable pub delete_described : GcpStorage → Result Value → Exec S (Option VirtualStorage)
  unfolding concat
  delete_described g (raise x) = if is_a x gcp_storage_exception then pure none else throw x
  delete_described g (ok v) =
      run_gcp programs python g.cli
        (concat ("compute disks delete " ∷ g.vs.id ∷ " --zone=" ∷ g.vs.zone ∷ " --quiet" ∷ []))
      >>= λ out. pure (some (record g.vs { id = "" }))

  unfoldable pub destroy : GcpStorage → Exec S (Option VirtualStorage)
  unfolding describe delete_described
  destroy g s = let (r, t) = describe g s in delete_described g r t

  unfoldable pub attach_storage : GcpStorage → VirtualMachine → Exec S VirtualStorage
  unfolding concat
  attach_storage g vm =
      run_gcp programs python g.cli (
        concat (
          "compute instances attach-disk "
          ∷ elim vm.id [ none ↦ "None" | some i ↦ i ]
          ∷ " --disk="
          ∷ g.vs.id
          ∷ " --zone="
          ∷ vm.zone
          ∷ " --device-name="
          ∷ g.vs.device
          ∷ []))
      >>= λ out. pure (record g.vs { device = concat ("/dev/" ∷ g.vs.device ∷ []) })

  unfoldable pub detach_storage : GcpStorage → VirtualMachine → Exec S (Unit {0})
  unfolding instance_name concat
  detach_storage g vm =
      run_gcp programs python g.cli (
        concat (
          "compute instances detach-disk "
          ∷ elim vm.id [ none ↦ "None" | some i ↦ i ]
          ∷ " --disk="
          ∷ instance_name g
          ∷ " --zone="
          ∷ vm.zone
          ∷ []))
      >>= λ out. pure tt
