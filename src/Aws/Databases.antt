-- ===== src/Aws/Databases.antt =====
-- cloud/aws/aws_rds_compute.py: databases that AWS runs. The object's machine comes back as the
-- result. Aurora is cloud/aws/aws_aurora_compute.py.
use xbench_community.Prelude.{
  ℕ, String, Bool, false, Option, none, some, [], ◌∷◌, concat, contains, str_eq, split_on, join,
  if◌then◌else◌,
}
use xbench_community.Exn.{
  Exn, is_a, cloud_cli_exception, aws_rds_cli_exception, aws_rds_cli_wait_exception,
  aws_rds_compute_exception, attribute_error,
}
use xbench_community.Exec.{
  Result, ok, raise, Exec, pure, throw, lift, ◌>>=◌, ◌>>◌, ◌>>=?◌, try_except, convert,
}
use xbench_community.Retry.{Policy, constant_delay, retry}
use xbench_community.Config.{Value, str}
use xbench_community.Cluster.{VirtualMachine}
use xbench_community.Cli.{Reply, printed, failed, Programs, AbstractCli, run_cli, run}
use xbench_community.Aws.{Python, get_in, index_in, first_in}

-- What both objects read: the command line, the machine, and the words of the settings.
pub record Database : Type 0 where
  pub cli : AbstractCli
  pub vm : VirtualMachine
  -- whether `vm.network` is there, which is optional
  pub has_network : Bool
  pub instance_type : String
  pub db_cluster : String
  pub engine : String
  pub engine_version : String
  pub user : String
  pub password : String
  pub port : String
  pub db_subnet_group_name : String
  pub vpc_security_group : String
  pub db_parameter_group_name : String
  pub storage_size : String
  pub storage_iops : String
  pub storage_type : String

-- `s.replace(c, "-")` for a character c
unfoldable pub dashed : ℕ → String → String
unfolding split_on join
dashed c s = let (first, rest) = split_on c s in join "-" first rest

unfoldable pub rds_identifier : String → String
unfolding dashed concat
rds_identifier instance_type = concat ("i-aws-rds-" ∷ dashed 46 instance_type ∷ [])

abbrev pub rds_create_policy : Policy
rds_create_policy = record {
  exceptions_to_check = aws_rds_cli_exception ∷ [];
  exception_to_raise = aws_rds_cli_exception;
  max_delay = 600;
  delays = constant_delay 30 20;
}

abbrev pub rds_wait_policy : ℕ → Policy
rds_wait_policy delay = record {
  exceptions_to_check = aws_rds_cli_wait_exception ∷ [];
  exception_to_raise = aws_rds_cli_exception;
  max_delay = 600;
  delays = constant_delay delay 20;
}

abbrev pub id_text : VirtualMachine → String
id_text vm = elim vm.id [ none ↦ "None" | some i ↦ i ]

-- `self.vm.network.public_ip = …; self.vm.network.cloud_type = "private_cloud"`
-- for a network that is there
unfoldable pub at_endpoint : Python → Database → Option Value → Result VirtualMachine
at_endpoint python d endpoint =
    if d.has_network
    then ok (record d.vm {
      network = record d.vm.network {
        public_ip = python.text_of endpoint;
        cloud_type = "private_cloud";
      };
    })
    else raise attribute_error

-- The status that the first of the answers has.
unfoldable pub status_is : String → Value → Result Bool
unfolding get_in
status_is status response = get_in "status" response >>=? λ found.
    ok (elim found [ some (str s) ↦ str_eq s status | _ ↦ false ])

module _ {S : Type 0} (programs : Programs S) (python : Python) (now : S → ℕ)
    (sleep : ℕ → S → S) where
  unfoldable pub run_only : Database → String → Exec S (Unit {0})
  run_only d cmd = run programs d.cli cmd >>= λ out. pure tt

  unfoldable pub first_answer : Database → String → Exec S Value
  unfolding first_in
  first_answer d cmd = run programs d.cli cmd >>= λ out. lift (python.json_loads out >>=? first_in)

  -- Asks once, and raises the exception for waiting unless the answer has the status.
  unfoldable pub check_status : Database → String → Exn → String → Exec S (Unit {0})
  unfolding first_answer status_is
  check_status d cmd not_ready status = first_answer d cmd >>= λ response.
      lift (status_is status response) >>= λ there. if there then pure tt else throw not_ready

  unfoldable pub rds_create_command : Database → String
  unfolding concat
  rds_create_command d = concat (
      "create-db-instance --db-instance-identifier="
      ∷ id_text d.vm
      ∷ " --engine="
      ∷ d.engine
      ∷ " --engine-version="
      ∷ d.engine_version
      ∷ " --db-instance-class="
      ∷ d.instance_type
      ∷ " --availability-zone="
      ∷ d.vm.zone
      ∷ " --publicly-accessible --master-username="
      ∷ d.user
      ∷ " --master-user-password="
      ∷ d.password
      ∷ " --db-subnet-group-name="
      ∷ d.db_subnet_group_name
      ∷ " --vpc-security-group-ids="
      ∷ d.vpc_security_group
      ∷ " --port="
      ∷ d.port
      ∷ " --tags Key=Name,Value="
      ∷ d.db_cluster
      ∷ " --allocated-storage="
      ∷ d.storage_size
      ∷ " --iops="
      ∷ d.storage_iops
      ∷ " --storage-type="
      ∷ d.storage_type
      ∷ " --backup-retention-period=0 --db-parameter-group-name="
      ∷ d.db_parameter_group_name
      ∷ [])

  -- An instance that is there already is used again.
  unfoldable pub created_reply : Reply → Exec S (Unit {0})
  created_reply (printed out) = pure tt
  created_reply (failed message) =
      if contains "DBInstanceAlreadyExists" message then pure tt else throw cloud_cli_exception

  unfoldable pub rds_create_db_instance : Database → Exec S (Unit {0})
  unfolding rds_create_command created_reply
  rds_create_db_instance d =
      retry now sleep rds_create_policy
        (run_cli programs d.cli (rds_create_command d) >>= created_reply)

  unfoldable pub delete_command : Database → String
  unfolding concat
  delete_command d = concat (
      "delete-db-instance --db-instance-identifier="
      ∷ id_text d.vm
      ∷ " --skip-final-snapshot"
      ∷ " --delete-automated-backups"
      ∷ [])

  unfoldable pub delete_db_instance : Database → Exec S (Unit {0})
  unfolding run_only delete_command
  delete_db_instance d = run_only d (delete_command d)

  unfoldable pub rds_wait_for_db_instance : Database → String → Exec S (Unit {0})
  unfolding check_status concat
  rds_wait_for_db_instance d status = retry now sleep (rds_wait_policy 60) (
      check_status d
        (concat (
          "describe-db-instances --db-instance-identifier="
          ∷ id_text d.vm
          ∷ " | jq '.DBInstances[] | { status: .DBInstanceStatus }' | jq -s"
          ∷ []))
        aws_rds_cli_wait_exception status)

  unfoldable pub rds_get_endpoint : Database → Exec S (Option Value)
  unfolding first_answer index_in get_in concat
  rds_get_endpoint d = retry now sleep (rds_wait_policy 30) (
      first_answer d (
        concat (
          "describe-db-instances --db-instance-identifier="
          ∷ id_text d.vm
          ∷ "  | jq '.DBInstances[] | { endpoint: .Endpoint }' | jq -s"
          ∷ []))
      >>= λ answer. lift (index_in "endpoint" (some answer) >>=? get_in "Address"))

  unfoldable pub rds_create : Database → Exec S VirtualMachine
  unfolding rds_create_db_instance rds_wait_for_db_instance rds_get_endpoint at_endpoint
  rds_create d =
      try_except
        (rds_create_db_instance d
          >> (rds_wait_for_db_instance d "available"
              >> (rds_get_endpoint d >>= λ endpoint. lift (at_endpoint python d endpoint))))
        (λ x. convert (λ y. is_a y cloud_cli_exception) aws_rds_compute_exception x)

  unfoldable pub rds_destroy : Database → Exec S (Unit {0})
  unfolding delete_db_instance rds_wait_for_db_instance
  rds_destroy d = delete_db_instance d >> rds_wait_for_db_instance d "deleting"
