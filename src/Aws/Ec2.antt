-- ===== src/Aws/Ec2.antt =====
-- cloud/aws/aws_ec2.py: one instance. The object's machine comes back beside the result.
use xbench_community.Prelude.{
  String, Bool, Option, none, some, [], ◌∷◌, concat, contains, words, unwords, starts_with,
  if◌then◌else◌, is_text,
}
use xbench_community.Exn.{
  is_a, key_error, aws_cli_exception, aws_ec2_exception, cloud_cli_exception,
}
use xbench_community.Exec.{
  Result, ok, raise, Exec, pure, throw, lift, ◌>>=◌, ◌>>◌, ◌>>=?◌, try_except, convert,
}
use xbench_community.Config.{Value, str, list, nil, get}
use xbench_community.Cluster.{VirtualNetwork}
use xbench_community.Hosts.{Machine}
use xbench_community.Cli.{Reply, printed, failed, Programs, run_cli}
use xbench_community.Aws.{
  AwsCli, Python, get_in, index_in, first_in, abstract_cli, run_aws, run_json, wait_reply,
  terminate_instance,
}

pub record AwsEc2 : Type 0 where
  pub cli : AwsCli
  pub machine : Machine
  pub arch : String
  pub placement_group : Option String
  pub tag : String

-- `__init__`: the group is the command line's, if it is asked for.
unfoldable pub new_aws_ec2 : AwsCli → Machine → String → Bool → AwsEc2
unfolding concat
new_aws_ec2 cli machine arch use_placement_group = record {
  cli = cli;
  machine = record machine { cloud = "aws"; cluster_name = cli.cluster_name };
  arch = arch;
  placement_group = if use_placement_group then cli.placement_group else none;
  tag = concat (cli.cluster_name ∷ "-" ∷ machine.vm.name ∷ []);
}

unfoldable pub instance_id : AwsEc2 → Result String
instance_id e = elim e.machine.vm.id [ none ↦ raise aws_ec2_exception | some i ↦ ok i ]

unfoldable pub aws_managed : AwsEc2 → Result Bool
unfolding instance_id starts_with
aws_managed e = instance_id e >>=? λ i. ok (starts_with "i-" i)

-- What `create` reads from the region's settings: the subnet, the image, the user of ssh, the
-- security group and the key.
pub record Settings : Type 0 where
  pub subnet_id : Value
  pub image_id : Value
  pub ssh_user : Value
  pub security_group : Option Value
  pub key_name : Option Value
  pub key_file : Option Value

unfoldable pub settings_of : AwsEc2 → Result Settings
unfolding index_in
settings_of e =
    let config = e.cli.region_config in
    index_in e.machine.vm.zone (get "zones" config) >>=? λ subnet_id.
    index_in e.machine.vm.os_type (get "images" config) >>=? λ images.
    index_in e.arch (some images) >>=? λ image. index_in "image_id" (some image) >>=? λ image_id.
    index_in "ssh_user" (some image) >>=? λ ssh_user. ok (record {
      subnet_id = subnet_id;
      image_id = image_id;
      ssh_user = ssh_user;
      security_group = get "security_group" config;
      key_name = get "key_name" config;
      key_file =
          if is_text e.machine.key_file
          then some (str e.machine.key_file)
          else get "key_file" config;
    })

-- `except KeyError`
unfoldable pub configured : AwsEc2 → Result Settings
unfolding settings_of
configured e = elim (settings_of e) [
  | ok c ↦ ok c
  | raise x ↦ if is_a x key_error then raise aws_ec2_exception else raise x
]

unfoldable pub placement_clause : AwsEc2 → String
unfolding concat
placement_clause e = elim e.placement_group [
  | none ↦ ""
  | some g ↦ if is_text g then concat ("--placement GroupName=" ∷ g ∷ []) else ""
]

module _ {S : Type 0} (programs : Programs S) (python : Python) where
  unfoldable pub run_command : AwsEc2 → Settings → String
  unfolding placement_clause words unwords concat
  run_command e c = unwords (
      words (
        concat (
          "ec2 run-instances --output json --count 1 --instance-type "
          ∷ e.machine.instance_type
          ∷ " --image-id "
          ∷ python.text_of (some c.image_id)
          ∷ " --key-name "
          ∷ python.text_of c.key_name
          ∷ " --subnet-id "
          ∷ python.text_of (some c.subnet_id)
          ∷ " "
          ∷ placement_clause e
          ∷ " --security-group-ids "
          ∷ python.text_of c.security_group
          ∷ " --block-device-mappings DeviceName=/dev/sda1,Ebs={DeleteOnTermination=true}"
          ∷ " --tag-specifications 'ResourceType=instance,Tags=[{Key=Name,Value="
          ∷ e.tag
          ∷ "}]' | jq '.Instances[] | {id: .InstanceId}' | jq -s"
          ∷ [])))

  -- The handler constructs an exception and does not raise it, so each reply is as good as any.
  unfoldable pub wait_for_instance : AwsEc2 → String → Exec S (Unit {0})
  unfolding instance_id
  wait_for_instance e wait_for_status = lift (instance_id e) >>= λ i.
      wait_reply programs python e.cli (some (str i)) wait_for_status >>= λ reply. pure tt

  -- The first of the instances that json gave, `instances[0]` unless there is none.
  unfoldable pub first_described : Value → Result Value
  unfolding first_in
  first_described (list nil) = raise aws_ec2_exception
  first_described v = first_in v

  -- The answer, or the exception that its message stands for.
  unfoldable pub described : Reply → Exec S Value
  unfolding first_described
  described (printed out) = lift (python.json_loads out >>=? first_described)
  described (failed message) =
      if contains "InvalidInstanceID.NotFound" message
      then throw aws_ec2_exception
      else throw aws_cli_exception

  unfoldable pub describe : AwsEc2 → Exec S Value
  unfolding instance_id described abstract_cli concat
  describe e = lift (instance_id e) >>= λ i.
      run_cli programs (abstract_cli e.cli) (
        concat (
          "ec2 describe-instances --output json --instance-ids " ∷ i
          ∷ " | jq  '.Reservations[].Instances[] | {id: .InstanceId, private_ip:"
          ∷ " .PrivateIpAddress, public_ip: .PublicIpAddress, name: .Tags[].Value}' |" ∷ " jq -s"
          ∷ []))
      >>= described

  -- `instance.get(key, "")`
  unfoldable pub address : String → Value → Result String
  unfolding get_in
  address key v =
      get_in key v >>=? λ found. ok (elim found [ none ↦ "" | some a ↦ python.text_of (some a) ])

  -- The network that the description of the instance has.
  unfoldable pub network_of : Value → Result VirtualNetwork
  unfolding address
  network_of v = address "public_ip" v >>=? λ public_ip. address "private_ip" v >>=? λ private_ip.
      ok (record { cloud_type = "public_cloud"; private_ip = private_ip; public_ip = public_ip })

  -- The machine with the identifier and the settings that the run has given it.
  unfoldable pub with_id : AwsEc2 → Settings → Option Value → AwsEc2
  with_id e c id = record e {
    machine = record e.machine {
      vm = record e.machine.vm {
        id = elim id [ none ↦ none | some v ↦ some (python.text_of (some v)) ];
      };
      ssh_user = python.text_of (some c.ssh_user);
      key_file = python.text_of c.key_file;
    };
  }

  -- `json.loads(stdout)[0]` of the run
  unfoldable pub run_instances : AwsEc2 → Settings → Exec S Value
  unfolding run_json first_in run_command
  run_instances e c =
      run_json programs python e.cli (run_command e c) >>= λ answer. lift (first_in answer)

  -- The second `try` block of `create`.
  unfoldable pub launch : AwsEc2 → Settings → Exec S Machine
  unfolding run_instances wait_for_instance describe network_of with_id get_in
  launch e c = do
    instance ← run_instances e c
    id ← lift (get_in "id" instance)
    wait_for_instance (with_id e c id) "instance-running"
    description ← describe (with_id e c id)
    network ← lift (network_of description)
    let launched = (with_id e c id).machine
    pure (record launched { vm = record launched.vm { network = network } })

  unfoldable pub create : AwsEc2 → Exec S Machine
  unfolding configured launch
  create e = lift (configured e) >>= λ c.
      try_except (launch e c) (λ x. convert (λ y. is_a y cloud_cli_exception) aws_ec2_exception x)

  -- The `else` of the `try`: what follows only if the instance was described.
  unfoldable pub terminate_described : AwsEc2 → Result Value → Exec S (Unit {0})
  unfolding instance_id wait_for_instance
  terminate_described e (raise x) = if is_a x aws_ec2_exception then pure tt else throw x
  terminate_described e (ok v) = lift (instance_id e) >>= λ i.
      terminate_instance programs python e.cli (some (str i))
      >> wait_for_instance e "instance-terminated"

  unfoldable pub destroy : AwsEc2 → Exec S (Unit {0})
  unfolding aws_managed describe terminate_described
  destroy e = lift (aws_managed e) >>= λ managed.
      if managed then (λ s. let (r, t) = describe e s in terminate_described e r t) else pure tt

  -- `ec2 <what> --instance-ids <id>` on an instance that AWS manages, and what follows it.
  unfoldable pub if_managed : {A : Type 0} → AwsEc2 → String → A → Exec S A → Exec S A
  unfolding aws_managed instance_id concat
  if_managed e what unmanaged rest = lift (aws_managed e) >>= λ managed.
      if managed
      then (lift (instance_id e) >>= λ i.
          run_aws programs python e.cli (concat ("ec2 " ∷ what ∷ " --instance-ids " ∷ i ∷ []))
          >>= λ out. rest)
      else pure unmanaged

  unfoldable pub reboot : AwsEc2 → Bool → Exec S (Unit {0})
  unfolding if_managed wait_for_instance
  reboot e wait =
      if_managed e "reboot-instances" tt
        (if wait then wait_for_instance e "instance-running" else pure tt)

  unfoldable pub stop : AwsEc2 → Exec S (Unit {0})
  unfolding if_managed wait_for_instance
  stop e = if_managed e "stop-instances" tt (wait_for_instance e "instance-stopped")

  -- The machine with its new addresses; the other fields of the network are the defaults again.
  unfoldable pub start : AwsEc2 → Exec S (Option Machine)
  unfolding if_managed wait_for_instance describe network_of
  start e = if_managed e "start-instances" none (
      wait_for_instance e "instance-running"
      >> (describe e >>= λ description. lift (network_of description) >>= λ network.
          pure (some (record e.machine { vm = record e.machine.vm { network = network } }))))
