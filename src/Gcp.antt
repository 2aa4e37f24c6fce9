-- ===== src/Gcp.antt =====
-- cloud/gcp/gcp_cli.py: the commands of GCP.
pub mod Compute
pub mod Storage
use xbench_community.Prelude.{
  ℕ, String, Bool, true, false, Option, none, some, List, [], ◌∷◌, concat, contains, is_text, join,
  split_on, if◌then◌else◌, ◌++◌, has_char, str_eq,
}
use xbench_community.Exn.{
  Exn, is_a, key_error, type_error, attribute_error, cloud_cli_exception, gcp_cloud_exception,
  gcp_cli_exception, gcp_storage_exception,
}
use xbench_community.Exec.{
  Result, ok, raise, Exec, pure, throw, lift, ◌>>=◌, ◌>>◌, ◌>>=?◌, try_except, convert, for_each,
}
use xbench_community.Config
use xbench_community.Config.{Value, str, list, dict, Entries, get}
use xbench_community.Cluster.{VirtualMachine, VirtualNetwork, VirtualStorage}
use xbench_community.Hosts.{Machine}
use xbench_community.Cli.{Reply, printed, failed, Programs, AbstractCli, run_cli, run}
use xbench_community.Aws.{Python, get_in, index_in, first_in}

pub record GcpCli : Type 0 where
  pub cluster_name : String
  pub service_account_file : String
  pub gcp_project_id : String
  pub network : String
  pub region_config : Entries

-- `get_base_command`, with `_check_stderr` as `__init__` leaves it
unfoldable pub gcp_cli : GcpCli → AbstractCli
unfolding concat
gcp_cli c = record {
  cluster_name = c.cluster_name;
  base_command = concat ("gcloud --project=" ∷ c.gcp_project_id ∷ " --format=json " ∷ []);
  check_stderr = false;
}

-- `a.replace("_", "-")`
unfoldable pub format_arg : String → String
unfolding split_on join
format_arg a = let (first, rest) = split_on 95 a in join "-" first rest

pub record GcpCompute : Type 0 where
  pub cli : GcpCli
  pub machine : Machine
  pub arch : String
  pub pub_file : String

-- None, also where yaml has a null
unfoldable pub given : Option Value → Option Value
given none = none
given (some Config.null) = none
given (some v) = some v

module _ {S : Type 0} (programs : Programs S) (python : Python) where
  unfoldable pub run_gcp : GcpCli → String → Exec S String
  unfolding gcp_cli
  run_gcp c cmd = run programs (gcp_cli c) cmd

  unfoldable pub run_json : GcpCli → String → Exec S Value
  unfolding run_gcp
  run_json c cmd = run_gcp c cmd >>= λ out. lift (python.json_loads out)

  -- `--name=value `, for a value that is not None
  unfoldable pub render_arg : String → Option Value → String
  unfolding format_arg concat
  render_arg name none = ""
  render_arg name (some v) =
      concat ("--" ∷ format_arg name ∷ "=" ∷ python.text_of (some v) ∷ " " ∷ [])

  -- The command of `GcpCli.create`, for one tag
  unfoldable pub create_command : GcpCompute → String → Entries → String → String
  unfolding format_arg render_arg given concat
  create_command g pub_file image tag = concat (
      "compute instances create "
      ∷ format_arg (concat (g.machine.cluster_name ∷ "-" ∷ g.machine.vm.name ∷ []))
      ∷ " --zone "
      ∷ g.machine.vm.zone
      ∷ " --machine-type="
      ∷ g.machine.instance_type
      ∷ " --boot-disk-type=pd-ssd --network "
      ∷ g.cli.network
      ∷ " "
      ∷ (if is_text pub_file
          then concat ("--metadata-from-file ssh-keys=" ∷ pub_file ∷ " " ∷ [])
          else "")
      ∷ render_arg "image_family" (given (get "image_family" image))
      ∷ render_arg "image_project" (given (get "image_project" image))
      ∷ render_arg "image_id" (given (get "image_id" image))
      ∷ "--tags="
      ∷ format_arg tag
      ∷ " "
      ∷ [])

  -- An image needs a family or an identifier.
  unfoldable pub check_image : Entries → Result (Unit {0})
  unfolding given
  check_image image = elim (given (get "image_family" image)) [
    | some v ↦ ok tt
    | none ↦ elim (given (get "image_id" image)) [ some v ↦ ok tt | none ↦ raise gcp_cli_exception ]
  ]

  -- `os.path.exists` is a question to the state.
  unfoldable pub cli_create : (String → S → Bool) → GcpCompute → String → Entries → Exec S Value
  unfolding check_image create_command run_json
  cli_create exists g pub_file image = lift (check_image image) >>= λ u s.
      (if is_text pub_file
          then (if exists pub_file s
              then run_json g.cli (create_command g pub_file image g.cli.cluster_name)
              else throw gcp_cli_exception)
          else run_json g.cli (create_command g pub_file image g.cli.cluster_name))
        s

  -- A status other than 0 has raised before `ignore_error` is looked at.
  unfoldable pub terminate_instance : GcpCli → Option Value → Option Value → Exec S (Unit {0})
  unfolding run_gcp concat
  terminate_instance c id zone =
      run_gcp c (
        concat (
          "compute instances delete "
          ∷ python.text_of id
          ∷ " --zone "
          ∷ python.text_of zone
          ∷ " --delete-disks=all --quiet"
          ∷ []))
      >>= λ out. pure tt

  unfoldable pub terminate_instances : GcpCli → List Value → Exec S (Unit {0})
  unfolding for_each get_in terminate_instance
  terminate_instances c instances = for_each instances (λ instance.
      lift (get_in "id" instance) >>= λ id.
      lift (get_in "zone" instance) >>= λ zone. terminate_instance c id zone)

  unfoldable pub delete_volume : GcpCli → Option Value → Option Value → Exec S (Unit {0})
  unfolding run_gcp concat
  delete_volume c id zone =
      run_gcp c (
        concat (
          "compute disks delete "
          ∷ python.text_of id
          ∷ " --zone="
          ∷ python.text_of zone
          ∷ " --quiet"
          ∷ []))
      >>= λ out. pure tt

  unfoldable pub delete_volumes : GcpCli → List Value → Exec S (Unit {0})
  unfolding for_each get_in delete_volume
  delete_volumes c volumes = for_each volumes (λ volume. lift (get_in "id" volume) >>= λ id.
      lift (get_in "zone" volume) >>= λ zone. delete_volume c id zone)

  unfoldable pub describe_instances_by_tag : GcpCli → Bool → Exec S Value
  unfolding run_json concat
  describe_instances_by_tag c is_short = run_json c (
      concat (
        "compute instances list --filter=\"tags:"
        ∷ c.cluster_name
        ∷ "\" "
        ∷ (if is_short
            then " | jq '.[] | {id: .id, name: .name, tags: .tags, private_ip: .networkInterfaces[].networkIP, public_ip: .networkInterfaces[].accessConfigs[].natIP, zone: .zone}' -r | jq -s"
            else "")
        ∷ []))

  unfoldable pub describe_volumes_by_tag : GcpCli → Exec S Value
  unfolding run_json concat
  describe_volumes_by_tag c = run_json c (
      concat (
        "compute disks list --filter=\"tags:" ∷ c.cluster_name
        ∷ "\" | jq '.[] | {id: .id, zone: .zone}' -r | jq -s" ∷ []))
