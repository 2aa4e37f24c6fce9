-- ===== src/Aws/Storage.antt =====
-- cloud/aws/aws_ebs.py and cloud/aws/aws_nvme.py, with cloud/abstract_storage.py: the volumes. The
-- object's volume comes back as the result.
use xbench_community.Prelude.{
  ℕ, String, Bool, true, false, Option, none, some, List, [], ◌∷◌, concat, contains, str_eq,
  range_from, map, join, if◌then◌else◌, any,
}
use xbench_community.Exn.{is_a, type_error, cloud_storage_exception, cloud_cli_exception}
use xbench_community.Exec.{Result, ok, raise, Exec, pure, throw, lift, ◌>>=◌, ◌>>◌, ◌>>=?◌}
use xbench_community.Config
use xbench_community.Config.{Value, bool, num, str, list, nil, cons, Entries, get}
use xbench_community.Cluster.{VirtualMachine, VirtualStorage}
use xbench_community.Cli.{Reply, printed, failed, Programs, run_cli}
use xbench_community.Aws.{
  AwsCli, Python, get_in, first_in, abstract_cli, run_aws, run_json, delete_volume,
}

pub record AwsEbs : Type 0 where
  pub cli : AwsCli
  pub vs : VirtualStorage
  pub iops : String
  pub tag : String
  pub is_nitro_type : Bool

pub data StorageState : Type 0 where
  ready in_use deleted : StorageState

unfoldable pub state_name : StorageState → String
state_name ready = "volume-available"
state_name in_use = "volume-in-use"
state_name deleted = "volume-deleted"

-- `"%s" % self.vs.type`
abbrev type_text : VirtualStorage → String
type_text vs = elim vs.type [ none ↦ "None" | some t ↦ t ]

module _ {S : Type 0} (programs : Programs S) (python : Python) where
  unfoldable pub wait_for_storage : AwsEbs → StorageState → Exec S (Unit {0})
  unfolding run_aws state_name concat
  wait_for_storage e event =
      run_aws programs python e.cli
        (concat ("ec2 wait " ∷ state_name event ∷ " --volume-ids " ∷ e.vs.id ∷ []))
      >>= λ out. pure tt

  unfoldable pub create_command : (ℕ → String) → AwsEbs → String
  unfolding concat
  create_command digits e = concat (
      "ec2 create-volume --volume-type "
      ∷ type_text e.vs
      ∷ " --no-encrypted --availability-zone "
      ∷ e.vs.zone
      ∷ " --size "
      ∷ digits e.vs.size
      ∷ " --tag-specifications 'ResourceType=volume,Tags=[{Key=Name,Value="
      ∷ e.tag
      ∷ "}]' --no-multi-attach-enabled "
      ∷ (if any (λ t. str_eq t (type_text e.vs)) ("io1" ∷ "io2" ∷ [])
          then concat (" --iops " ∷ e.iops ∷ [])
          else "")
      ∷ [])

  -- The volume gets its identifier, which `volume_id` refuses if there is none.
  unfoldable pub with_volume : AwsEbs → Option Value → Exec S VirtualStorage
  unfolding wait_for_storage
  with_volume e none = throw cloud_storage_exception
  with_volume e (some v) =
      let vs = record e.vs { id = python.text_of (some v) } in
      wait_for_storage (record e { vs = vs }) ready >> pure vs

  unfoldable pub create : (ℕ → String) → AwsEbs → Exec S VirtualStorage
  unfolding create_command run_json get_in with_volume
  create digits e = do
    volume_spec ← run_json programs python e.cli (create_command digits e)
    id ← lift (get_in "VolumeId" volume_spec)
    with_volume e id

  -- The answer, or the exception that its message stands for.
  unfoldable pub described : Reply → Exec S Value
  described (printed out) = lift (python.json_loads out)
  described (failed message) =
      if contains "InvalidVolume.NotFound" message
      then throw cloud_storage_exception
      else throw cloud_cli_exception

  unfoldable pub describe : AwsEbs → Exec S Value
  unfolding described abstract_cli concat
  describe e =
      if str_eq e.vs.id ""
      then throw cloud_storage_exception
      else (run_cli programs (abstract_cli e.cli)
            (concat ("ec2 describe-volumes --volume-id " ∷ e.vs.id ∷ []))
          >>= described)

  -- `create_safely`: the volume is created if it cannot be described.
  unfoldable pub created_unless : (ℕ → String) → AwsEbs → Result Value → Exec S VirtualStorage
  unfolding create
  created_unless digits e (ok volume_spec) = pure e.vs
  created_unless digits e (raise x) =
      if is_a x cloud_storage_exception then create digits e else throw x

  unfoldable pub create_safely : (ℕ → String) → AwsEbs → Exec S VirtualStorage
  unfolding describe created_unless
  create_safely digits e s = let (r, t) = describe e s in created_unless digits e r t

  -- The `else` of the `try` in `destroy`
  unfoldable pub delete_described : AwsEbs → Result Value → Exec S (Unit {0})
  unfolding delete_volume
  delete_described e (ok volume_spec) = delete_volume programs python e.cli (some (str e.vs.id))
  delete_described e (raise x) = if is_a x cloud_storage_exception then pure tt else throw x

  unfoldable pub destroy : AwsEbs → Exec S (Unit {0})
  unfolding describe delete_described
  destroy e s = let (r, t) = describe e s in delete_described e r t

  -- The two checks construct an exception and do not raise it.
  unfoldable pub attach_storage : AwsEbs → VirtualMachine → Exec S VirtualStorage
  unfolding run_aws wait_for_storage concat
  attach_storage e vm = do
    out ← run_aws programs python e.cli (
        concat (
          "ec2 attach-volume --volume-id "
          ∷ e.vs.id
          ∷ " --instance-id "
          ∷ elim vm.id [ none ↦ "None" | some i ↦ i ]
          ∷ " --device "
          ∷ e.vs.device
          ∷ []))
    wait_for_storage e in_use
    pure (if e.is_nitro_type then record e.vs { device = "/dev/nvme1n1" } else e.vs)

  unfoldable pub detach_storage : AwsEbs → Exec S (Unit {0})
  unfolding run_aws concat
  detach_storage e =
      run_aws programs python e.cli (concat ("ec2 detach-volume --volume-id " ∷ e.vs.id ∷ []))
      >>= λ out. pure tt

-- AwsNvme, whose volumes are part of the instance. `count` is `num_ephemeral` before.
pub record AwsNvme : Type 0 where
  pub vs : VirtualStorage
  pub instance_type_info : Entries

unfoldable pub is_nitro_type : AwsNvme → Bool
is_nitro_type n = elim (get "nvme_support" n.instance_type_info) [
  | some (str s) ↦ str_eq s "required"
  | _ ↦ false
]

-- `local_nvme_disks[0].get("Count")`, a number
unfoldable pub disk_count : Value → Result ℕ
unfolding first_in get_in
disk_count disks = first_in disks >>=? λ disk.
    get_in "Count" disk >>=? λ count. elim count [ some (num n) ↦ ok n | _ ↦ raise type_error ]

unfoldable pub num_local_volumes : AwsNvme → Result ℕ
unfolding disk_count
num_local_volumes n = elim (get "local_nvme" n.instance_type_info) [
  | some (bool true) ↦ elim (get "local_nvme_disks" n.instance_type_info) [
    | none ↦ ok 0
    | some Config.null ↦ ok 0
    | some disks ↦ disk_count disks
  ]
  | _ ↦ ok n.vs.num_ephemeral
]

-- The devices, from the one behind the root volume on Nitro.
unfoldable pub device_names : (ℕ → String) → Bool → ℕ → List String
unfolding concat
device_names digits nitro count =
    map (λ i. concat ("/dev/nvme" ∷ digits i ∷ "n1" ∷ []))
      (range_from (if nitro then 1 else 0) count)

unfoldable pub device_of : String → List String → String
device_of device [] = device
device_of device (first ∷ rest) = join "," first rest

unfoldable pub create_nvme : (ℕ → String) → AwsNvme → Result VirtualStorage
unfolding num_local_volumes device_names device_of is_nitro_type
create_nvme digits n = num_local_volumes n >>=? λ count. ok (record n.vs {
  num_ephemeral = count;
  device = device_of n.vs.device (device_names digits (is_nitro_type n) count);
})
