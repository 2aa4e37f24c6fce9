-- ===== src/Aws/Tests.antt =====
-- Commands that fail, and the theorems of this folder on them.
use xbench_community.Prelude.{ℕ, suc, true, false, none, []}
use xbench_community.Exec.{ok}
use xbench_community.Config.{str, list, dict, nil, cons, end, entry}
use xbench_community.Hosts.{Machine}
use xbench_community.Cli.{Programs, finished}
use xbench_community.Aws.{Python}
use xbench_community.Aws.Ec2.{AwsEc2}
use xbench_community.Aws.Databases.{Database}

abbrev failing : Programs ℕ
failing = record {
  popen = λ cmd shell timeout s. (ok (finished "" "error" 255), suc s);
  exe_shell = false;
  digits = λ n. "";
}

abbrev python : Python
python = record { json_loads = λ out. ok (list (cons (dict end) nil)); text_of = λ v. "" }

abbrev small_machine : Machine
small_machine = record {
  vm = record {
    env = "e";
    name = "backend_0";
    role = "backend";
    klass = "backend.Xpand";
    zone = "z";
    os_type = "CentOS7";
    managed = true;
    provisioned = true;
    storage = none;
    storage_list = [];
    network = record {
      cloud_type = "public_cloud";
      private_ip = "10.0.0.1";
      public_ip = "1.2.3.4";
    };
    id = none;
  };
  cloud = "aws";
  cluster_name = "c";
  instance_type = "t";
  ssh_user = "root";
  key_file = "k";
  disable_network_security = true;
}

abbrev small_instance : AwsEc2
small_instance = record {
  cli = record {
    cluster_name = "c";
    aws_region = "us-west-2";
    aws_access_key_id = "a";
    aws_secret_access_key = "s";
    security_group = "g";
    placement_group = none;
    region_config = entry "zones" (dict (entry "z" (str "subnet") end)) (
        entry "images"
          (dict (
            entry "CentOS7"
              (dict (
                entry "x86_64"
                  (dict (entry "image_id" (str "ami") (entry "ssh_user" (str "centos") end))) end))
              end))
          end);
  };
  machine = small_machine;
  arch = "x86_64";
  placement_group = none;
  tag = "c-backend_0";
}

abbrev small_database : Database
small_database = record {
  cli = record { cluster_name = "c"; base_command = "aws rds"; check_stderr = true };
  vm = small_machine.vm;
  has_network = false;
  instance_type = "db.r5";
  db_cluster = "c";
  engine = "mysql";
  engine_version = "8";
  user = "u";
  password = "p";
  port = "3306";
  db_subnet_group_name = "s";
  vpc_security_group = "g";
  db_parameter_group_name = "d";
  storage_size = "100";
  storage_iops = "1000";
  storage_type = "io1";
}
