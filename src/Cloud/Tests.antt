-- ===== src/Cloud/Tests.antt =====
-- A provider that counts the volumes that it destroys, and the theorems of this folder on it.
use xbench_community.Prelude.{ℕ, ◌+◌, true, false, Option, some, none, List, [], ◌∷◌, ◌≡◌, refl}
use xbench_community.Exn.{cloud_compute_exception, node_exception, is_a}
use xbench_community.Exec.{Result, ok, raise, pure, throw}
use xbench_community.Config.{end}
use xbench_community.Cluster.{VirtualStorage, VirtualMachine, Node}
use xbench_community.Cloud.{
  Provider, aws_cli, terminate_instances, launch_instances, create_storage,
  terminate_storage_instances, process_storage_instances, terminate_storage, run_parallel,
  run_threads, results_of, launch_item, launch_instance, create_instance, process_storage,
  process_single, launch_storage, create_and_attach, node_of, none_on_cloud_exception,
}
use xbench_community.Yum.{new_yum}
use xbench_community.Cloud.Parallel.{terminate_instances-keeps_volumes}

abbrev volume : VirtualStorage
volume = record {
  size = 100;
  type = some "gp3";
  device = "/dev/sdb";
  zone = "2a";
  name = "data";
  id = "vol-1";
  num_ephemeral = 0;
}

abbrev machine : VirtualMachine
machine = record {
  env = "env_0";
  name = "driver-0";
  role = "driver";
  klass = "driver.Sysbench";
  zone = "2a";
  os_type = "CentOS7";
  managed = true;
  provisioned = true;
  storage = some volume;
  storage_list = volume ∷ [];
  network = record { cloud_type = "public_cloud"; private_ip = "10.0.0.1"; public_ip = "1.2.3.4" };
  id = none;
}

-- The state counts the volumes destroyed.
abbrev provider : Provider ℕ
provider = record {
  cli = aws_cli;
  describe_instances_by_tag = some (pure []);
  create_machine = λ d. throw cloud_compute_exception;
  destroy_machine = λ vm. pure tt;
  start_machine = λ vm. pure vm;
  stop_machine = λ vm. pure tt;
  create_volume = λ c v. pure v;
  attach_volume = λ c v vm. pure tt;
  destroy_volume = λ c v n. (ok tt, n + 1);
  is_shared = λ v. false;
}

abbrev in_order : List (Result (Option Node)) → List (Result (Option Node))
in_order rs = rs

terminate_instances_example :
    terminate_instances provider in_order (record { vm = machine } ∷ []) true 0
    ≡ terminate_instances
        (record provider { destroy_volume = λ c v. throw cloud_compute_exception })
        in_order
        (record { vm = machine } ∷ [])
        true
        0
terminate_instances_example =
    terminate_instances-keeps_volumes provider (λ c v. throw cloud_compute_exception) in_order
      (record { vm = machine } ∷ []) true 0

terminate_storage_run : (terminate_storage_instances provider (volume ∷ []) 0).1 ≡ 1
unfolding terminate_storage_instances process_storage_instances terminate_storage create_storage
terminate_storage_run = refl

-- A provider whose machines have an operating system that is not known.
abbrev exotic : Provider ℕ
exotic = record provider { create_machine = λ d. pure (record machine { os_type = "Plan9" }) }

launch_exotic : (launch_instances exotic in_order (end ∷ []) 0).0 ≡ raise node_exception
unfolding launch_instances run_parallel run_threads results_of launch_item launch_instance
    create_instance process_storage process_single process_storage_instances launch_storage
    create_and_attach create_storage node_of new_yum none_on_cloud_exception is_a
launch_exotic = refl
