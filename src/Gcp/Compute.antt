-- ===== src/Gcp/Compute.antt =====
-- cloud/gcp/gcp_compute.py: one instance. The object's machine comes back as the result.
use xbench_community.Prelude.{
  String, Bool, none, some, [], ◌∷◌, concat, contains, is_text, if◌then◌else◌,
}
use xbench_community.Exn.{
  is_a, key_error, type_error, cloud_cli_exception, gcp_cloud_exception, gcp_cli_exception,
}
use xbench_community.Exec.{
  Result, ok, raise, Exec, pure, throw, lift, ◌>>=◌, ◌>>◌, ◌>>=?◌, try_except, convert,
}
use xbench_community.Config.{Value, str, dict, Entries, get}
use xbench_community.Cluster.{VirtualNetwork}
use xbench_community.Hosts.{Machine}
use xbench_community.Cli.{Reply, printed, failed, Programs, run_cli}
use xbench_community.Aws.{Python, get_in, index_in, first_in}
use xbench_community.Gcp.{GcpCompute, gcp_cli, run_gcp, cli_create, terminate_instance}

unfoldable pub instance_id : GcpCompute → Result String
instance_id g = elim g.machine.vm.id [ none ↦ raise gcp_cloud_exception | some i ↦ ok i ]

module _ {S : Type 0} (programs : Programs S) (python : Python) where
  -- `config.get("images", None)[os_type][arch]`, where a missing key is a GcpCloudException
  unfoldable pub image_of : GcpCompute → Result Value
  unfolding index_in
  image_of g =
      let found = index_in g.machine.vm.os_type (get "images" g.cli.region_config) >>=? λ images.
      index_in g.arch (some images) in
      elim found [
        | ok v ↦ ok v
        | raise x ↦ if is_a x key_error then raise gcp_cloud_exception else raise x
      ]

  unfoldable pub setting_or : String → String → Entries → String
  setting_or given key config =
      if is_text given
      then given
      else elim (get key config) [ none ↦ "" | some v ↦ python.text_of (some v) ]

  -- The addresses of the first interface.
  unfoldable pub network_of : Value → Result VirtualNetwork
  unfolding get_in first_in
  network_of v = get_in "networkInterfaces" v >>=? λ interfaces. elim interfaces [
    | none ↦ raise type_error
    | some l ↦ first_in l >>=? λ interface. get_in "accessConfigs" interface >>=? λ configs.
        elim configs [
          | none ↦ raise type_error
          | some m ↦ first_in m >>=? λ access. get_in "natIP" access >>=? λ public_ip.
              get_in "networkIP" interface >>=? λ private_ip. ok (record {
                cloud_type = "public_cloud";
                private_ip = python.text_of private_ip;
                public_ip = python.text_of public_ip;
              })
        ]
  ]

  -- The second `try` block of `create`, for an image that is a dictionary.
  unfoldable pub launch : (String → S → Bool) → GcpCompute → Entries → Exec S Machine
  unfolding setting_or index_in cli_create first_in get_in network_of
  launch exists g image = do
    let config = g.cli.region_config
    let key_file = setting_or g.machine.key_file "key_file" config
    let pub_file = setting_or g.pub_file "pub_file" config
    ssh_user ← lift (index_in "ssh_user" (some (dict image)))
    instances ← cli_create programs python exists g pub_file image
    instance ← lift (first_in instances)
    id ← lift (get_in "id" instance)
    network ← lift (network_of instance)
    pure (record g.machine {
      vm = record g.machine.vm {
        id = elim id [ none ↦ none | some v ↦ some (python.text_of (some v)) ];
        network = network;
      };
      key_file = key_file;
      ssh_user = python.text_of (some ssh_user);
    })

  unfoldable pub dict_of : Value → Result Entries
  dict_of (dict d) = ok d
  dict_of _ = raise type_error

  unfoldable pub create : (String → S → Bool) → GcpCompute → Exec S Machine
  unfolding image_of dict_of launch
  create exists g = lift (image_of g) >>= λ image.
      try_except (lift (dict_of image) >>= launch exists g)
        (λ x. convert (λ y. is_a y cloud_cli_exception) gcp_cloud_exception x)

  unfoldable pub described_instance : Reply → Exec S Value
  described_instance (printed out) = lift (python.json_loads out)
  described_instance (failed message) =
      if contains "was not found" message
      then throw gcp_cloud_exception
      else throw gcp_cli_exception

  unfoldable pub describe : GcpCompute → Exec S Value
  unfolding instance_id described_instance gcp_cli concat
  describe g = lift (instance_id g) >>= λ i.
      run_cli programs (gcp_cli g.cli)
        (concat ("compute instances describe " ∷ i ∷ " --zone " ∷ g.machine.vm.zone ∷ []))
      >>= described_instance

  unfoldable pub destroy : GcpCompute → Exec S (Unit {0})
  unfolding terminate_instance
  destroy g =
      terminate_instance programs python g.cli
        (elim g.machine.vm.id [ none ↦ none | some i ↦ some (str i) ])
        (some (str g.machine.vm.zone))

  unfoldable pub change_state : GcpCompute → String → Exec S (Unit {0})
  unfolding instance_id run_gcp concat
  change_state g what = lift (instance_id g) >>= λ i.
      run_gcp programs python g.cli
        (concat ("compute instances " ∷ what ∷ " " ∷ i ∷ " --zone " ∷ g.machine.vm.zone ∷ []))
      >>= λ out. pure tt

  unfoldable pub stop : GcpCompute → Exec S (Unit {0})
  unfolding change_state
  stop g = change_state g "stop"

  unfoldable pub start : GcpCompute → Exec S (Unit {0})
  unfolding change_state
  start g = change_state g "start"

  unfoldable pub reboot : GcpCompute → Exec S (Unit {0})
  unfolding stop start
  reboot g = stop g >> start g
