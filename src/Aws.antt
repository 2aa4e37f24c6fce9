-- ===== src/Aws.antt =====
-- cloud/aws/aws_cli.py: the commands of AWS. What jq makes of the answers is json text, which
-- Python's json module turns into values.
pub mod Ec2
pub mod Storage
pub mod Databases
pub mod Aurora
pub mod Endpoints
mod Tests
use xbench_community.Prelude.{
  ℕ, String, Bool, true, ◌++◌, Option, none, some, List, [], ◌∷◌, map, concat, contains, has_char,
  if◌then◌else◌, str_eq,
}
use xbench_community.Exn.{
  Exn, type_error, index_error, key_error, attribute_error, aws_cli_exception, cloud_cli_exception,
}
use xbench_community.Exec.{
  Result, ok, raise, Exec, pure, throw, lift, ◌>>=◌, ◌>>◌, ◌>>=?◌, for_each,
}
use xbench_community.Config.{
  Value, null, bool, num, str, list, dict, Items, nil, cons, Entries, end, entry, get,
}
use xbench_community.Cli.{
  Reply, printed, failed, Programs, AbstractCli, SecurityRecord, run_within, printed_by, run_cli,
  run_subprocess, run,
}

pub record AwsCli : Type 0 where
  pub cluster_name : String
  pub aws_region : String
  pub aws_access_key_id : String
  pub aws_secret_access_key : String
  pub security_group : String
  pub placement_group : Option String
  pub region_config : Entries

unfoldable pub base_command : AwsCli → String
unfolding concat
base_command c = concat (
    "export AWS_ACCESS_KEY_ID=" ∷ c.aws_access_key_id ∷ " && export AWS_SECRET_ACCESS_KEY="
    ∷ c.aws_secret_access_key
    ∷ " && export AWS_MAX_ATTEMPTS=10 && export AWS_RETRY_MODE=adaptive && aws --region "
    ∷ c.aws_region ∷ " --output json " ∷ [])

unfoldable pub abstract_cli : AwsCli → AbstractCli
unfolding base_command
abstract_cli c = record {
  cluster_name = c.cluster_name;
  base_command = base_command c;
  check_stderr = true;
}

-- `d.get(key)` of what json gave
unfoldable pub get_in : String → Value → Result (Option Value)
get_in key (dict d) = ok (get key d)
get_in key _ = raise attribute_error

-- `v[key]`, where `v` may be None
unfoldable pub index_in : String → Option Value → Result Value
index_in key (some (dict d)) = elim (get key d) [ none ↦ raise key_error | some v ↦ ok v ]
index_in key _ = raise type_error

-- `v[0]`
unfoldable pub first_in : Value → Result Value
first_in (list nil) = raise index_error
first_in (list (cons v vs)) = ok v
first_in (dict d) = raise key_error
first_in _ = raise type_error

-- `for x in v`, for what the commands answer with
unfoldable pub values_in : Items → List Value
values_in nil = []
values_in (cons v vs) = v ∷ values_in vs

unfoldable pub items_in : Value → Result (List Value)
unfolding values_in
items_in (list l) = ok (values_in l)
items_in _ = raise type_error

-- The json module, the text that an f-string has for a value, and the value's number.
pub record Python : Type 0 where
  pub json_loads : String → Result Value
  pub text_of : Option Value → String

module _ {S : Type 0} (programs : Programs S) (python : Python) where
  unfoldable pub run_aws : AwsCli → String → Exec S String
  unfolding abstract_cli
  run_aws c cmd = run programs (abstract_cli c) cmd

  -- The program's version, within 30 seconds.
  unfoldable pub version_text : AwsCli → Exec S String
  unfolding abstract_cli
  version_text c = run_within programs 30 (abstract_cli c) "--version" >>= printed_by programs

  -- A text without the version is refused; else the program is asked once more.
  unfoldable pub check_cli_version : AwsCli → Exec S String
  unfolding version_text
  check_cli_version c = version_text c >>= λ out.
      if contains "aws-cli/2." out then version_text c else throw aws_cli_exception

  unfoldable pub run_json : AwsCli → String → Exec S Value
  unfolding run_aws
  run_json c cmd = run_aws c cmd >>= λ out. lift (python.json_loads out)

  unfoldable pub describe_availability_zones : AwsCli → Exec S Value
  unfolding run_json concat
  describe_availability_zones c = run_json c (
      concat (
        "ec2 describe-availability-zones --region " ∷ c.aws_region
        ∷ "  | jq '.AvailabilityZones[] | {zoneName: .ZoneName, zoneId: .ZoneId}' | jq -s" ∷ []))

  unfoldable pub describe_instances_by_tag : AwsCli → Exec S Value
  unfolding run_json concat
  describe_instances_by_tag c = run_json c (
      concat (
        "ec2 describe-instances --output json --filters Name=tag:Name,Values=" ∷ c.cluster_name
        ∷ "* Name=instance-state-name,Values=pending,running  | jq "
        ∷ " '.Reservations[].Instances[] | {id: .InstanceId, private_ip:"
        ∷ " .PrivateIpAddress, public_ip: .PublicIpAddress, name: .Tags[].Value}' |" ∷ " jq -s"
        ∷ []))

  unfoldable pub describe_volumes_by_tag : AwsCli → Exec S Value
  unfolding run_json concat
  describe_volumes_by_tag c = run_json c (
      concat (
        "ec2 describe-volumes --output json --filters Name=tag:Name,Values=" ∷ c.cluster_name
        ∷ "*  |" ∷ " jq  '.Volumes[] | {id: .VolumeId, name: .Tags[].Value}' | jq -s" ∷ []))

  -- The reply is kept, since a caller reads the message of a failure.
  unfoldable pub wait_reply : AwsCli → Option Value → String → Exec S Reply
  unfolding abstract_cli concat
  wait_reply c instance_id wait_for_status = run_cli programs (abstract_cli c) (
      concat ("ec2 wait " ∷ wait_for_status ∷ " --instance-ids " ∷ python.text_of instance_id ∷ []))

  unfoldable pub wait_for_instance : AwsCli → Option Value → String → Exec S (Unit {0})
  unfolding run_aws concat
  wait_for_instance c instance_id wait_for_status =
      run_aws c (
        concat
          ("ec2 wait " ∷ wait_for_status ∷ " --instance-ids " ∷ python.text_of instance_id ∷ []))
      >>= λ out. pure tt

  unfoldable pub wait_for_instances : AwsCli → List Value → String → Exec S (Unit {0})
  unfolding wait_for_instance get_in for_each
  wait_for_instances c instances instance_status =
      for_each instances
        (λ instance. lift (get_in "id" instance) >>= λ id. wait_for_instance c id instance_status)

  unfoldable pub terminate_instance : AwsCli → Option Value → Exec S (Unit {0})
  unfolding run_aws concat
  terminate_instance c instance_id =
      run_aws c
        (concat ("ec2 terminate-instances --instance-ids " ∷ python.text_of instance_id ∷ []))
      >>= λ out. pure tt

  unfoldable pub terminate_instances : AwsCli → List Value → Exec S (Unit {0})
  unfolding terminate_instance get_in for_each
  terminate_instances c instances =
      for_each instances (λ instance. lift (get_in "id" instance) >>= λ id. terminate_instance c id)

  unfoldable pub delete_volume : AwsCli → Option Value → Exec S (Unit {0})
  unfolding run_aws concat
  delete_volume c volume_id =
      run_aws c (concat ("ec2 delete-volume --volume-id " ∷ python.text_of volume_id ∷ []))
      >>= λ out. pure tt

  unfoldable pub delete_volumes : AwsCli → List Value → Exec S (Unit {0})
  unfolding delete_volume get_in for_each
  delete_volumes c volumes =
      for_each volumes (λ volume. lift (get_in "id" volume) >>= λ id. delete_volume c id)

  -- A message that names an unknown type becomes an AwsCliException.
  unfoldable pub type_printed : Reply → Exec S String
  type_printed (printed out) = pure out
  type_printed (failed message) =
      if contains "InvalidInstanceType" message
      then throw aws_cli_exception
      else throw cloud_cli_exception

  unfoldable pub describe_instance_type : AwsCli → String → Exec S Value
  unfolding abstract_cli type_printed first_in concat
  describe_instance_type c instance_type = do
    reply ← run_cli programs (abstract_cli c) (
        concat (
          "ec2 describe-instance-types --region " ∷ c.aws_region ∷ " --instance-types "
          ∷ instance_type ∷ " | jq"
          ∷ " '.InstanceTypes[] | {instance_type: .InstanceType, hypervisor:"
          ∷ " .Hypervisor, nvme_support: .EbsInfo.NvmeSupport, ebs_baseline_iops:"
          ∷ " .EbsInfo.EbsOptimizedInfo.BaselineIops,ebs_baseline_throughput:"
          ∷ " .EbsInfo.EbsOptimizedInfo.BaselineThroughputInMBps, local_nvme:"
          ∷ " .InstanceStorageSupported, local_nvme_disks:"
          ∷ " .InstanceStorageInfo.Disks}'  | jq -s" ∷ []))
    out ← type_printed reply
    lift (python.json_loads out >>=? first_in)

  -- `__post_init__` on what json gave: a network is a text, or missing.
  unfoldable pub completed_cidr : Option Value → Result (Option Value)
  unfolding concat
  completed_cidr (some (str s)) =
      ok (some (str (if has_char 47 s then s else concat (s ∷ "/32" ∷ []))))
  completed_cidr _ = raise type_error

  -- What stands in the SecurityRecord of a network: the ports, the network and the description.
  unfoldable pub rule_values : Value → Value → Result (List (Option Value))
  unfolding get_in completed_cidr
  rule_values a r = get_in "from" a >>=? λ from. get_in "to" a >>=? λ to.
      get_in "CidrIp" r >>=? λ cidr. get_in "Description" r >>=? λ desc.
      completed_cidr cidr >>=? λ network. ok (from ∷ to ∷ network ∷ desc ∷ [])

  unfoldable pub access_of : Value → List Value → Result (List (List (Option Value)))
  unfolding rule_values
  access_of a [] = ok []
  access_of a (r ∷ rs) = rule_values a r >>=? λ first. access_of a rs >>=? λ rest. ok (first ∷ rest)

  unfoldable pub access_list : List Value → Result (List (List (Option Value)))
  unfolding access_of index_in items_in get_in
  access_list [] = ok []
  access_list (a ∷ info) = get_in "ip_ranges" a >>=? λ ranges. elim ranges [
    | none ↦ raise type_error
    | some l ↦ items_in l >>=? λ rs.
        access_of a rs >>=? λ first. access_list info >>=? λ rest. ok (first ++ rest)
  ]

  unfoldable pub list_security_access : AwsCli → Exec S (List (List (Option Value)))
  unfolding run_json items_in access_list concat
  list_security_access c =
      run_json c (
        concat (
          "ec2 describe-security-groups  --no-paginate --group-ids" ∷ " " ∷ c.security_group
          ∷ " |  jq  '.SecurityGroups[].IpPermissions[]  |"
          ∷ " {from: .FromPort, to: .ToPort, ip_ranges: .IpRanges }' | jq -s" ∷ []))
      >>= λ info. lift (items_in info >>=? access_list)

  -- The rule in the words of the command; `digits` prints a port.
  unfoldable pub permission : (ℕ → String) → SecurityRecord → String
  unfolding concat
  permission digits rec = concat (
      " --ip-permissions"
      ∷ " \"IpProtocol=tcp,FromPort="
      ∷ digits rec.port_from
      ∷ ",ToPort="
      ∷ digits rec.port_to
      ∷ ",IpRanges=[{CidrIp="
      ∷ rec.cidr
      ∷ "}]\" "
      ∷ [])

  unfoldable pub authorize_access : (ℕ → String) → AwsCli → SecurityRecord → Exec S (Unit {0})
  unfolding run_aws permission concat
  authorize_access digits c rec =
      run_aws c (
        concat (
          "ec2 authorize-security-group-ingress --group-id"
          ∷ " "
          ∷ c.security_group
          ∷ permission digits rec
          ∷ []))
      >>= λ out. pure tt

  unfoldable pub revoke_access : (ℕ → String) → AwsCli → SecurityRecord → Exec S (Unit {0})
  unfolding run_aws permission concat
  revoke_access digits c rec =
      run_aws c (
        concat (
          "ec2 revoke-security-group-ingress --group-id"
          ∷ " "
          ∷ c.security_group
          ∷ permission digits rec
          ∷ []))
      >>= λ out. pure tt
