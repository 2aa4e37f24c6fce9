-- ===== src/Aws/Aurora.antt =====
-- cloud/aws/aws_aurora_compute.py: clusters of databases that AWS runs. The object's machine comes
-- back as the result.
use xbench_community.Prelude.{ℕ, String, Option, some, [], ◌∷◌, concat}
use xbench_community.Exn.{
  is_a, cloud_cli_exception, aws_aurora_cli_exception, aws_aurora_cli_wait_exception,
  aws_aurora_compute_exception,
}
use xbench_community.Exec.{Exec, pure, lift, ◌>>=◌, ◌>>◌, try_except, convert}
use xbench_community.Retry.{Policy, constant_delay, retry}
use xbench_community.Config.{Value}
use xbench_community.Cluster.{VirtualMachine}
use xbench_community.Cli.{Programs}
use xbench_community.Aws.{Python, get_in}
use xbench_community.Aws.Databases.{
  Database, dashed, id_text, at_endpoint, run_only, first_answer, check_status, delete_db_instance,
}

unfoldable pub aurora_identifier : String → String → String
unfolding dashed concat
aurora_identifier db_cluster instance_type =
    concat ("i-aws-" ∷ db_cluster ∷ "-" ∷ dashed 46 instance_type ∷ [])

abbrev pub aurora_wait_policy : Policy
aurora_wait_policy = record {
  exceptions_to_check = aws_aurora_cli_wait_exception ∷ [];
  exception_to_raise = aws_aurora_cli_exception;
  max_delay = 600;
  delays = constant_delay 30 20;
}

module _ {S : Type 0} (programs : Programs S) (python : Python) (now : S → ℕ)
    (sleep : ℕ → S → S) where
  unfoldable pub create_db_cluster : Database → Exec S (Unit {0})
  unfolding run_only concat
  create_db_cluster d = run_only programs python now sleep d (
      concat (
        "create-db-cluster --db-cluster-identifier=" ∷ d.db_cluster ∷ " --engine=" ∷ d.engine
        ∷ " --engine-version=" ∷ d.engine_version ∷ " --master-username=" ∷ d.user
        ∷ " --master-user-password=" ∷ d.password ∷ " --db-subnet-group-name="
        ∷ d.db_subnet_group_name ∷ " --vpc-security-group-ids=" ∷ d.vpc_security_group ∷ " --port="
        ∷ d.port ∷ " --tags Key=Name,Value=" ∷ d.db_cluster ∷ []))

  unfoldable pub delete_db_cluster : Database → Exec S (Unit {0})
  unfolding run_only concat
  delete_db_cluster d = run_only programs python now sleep d (
      concat (
        "delete-db-cluster" ∷ " --db-cluster-identifier=" ∷ d.db_cluster ∷ " --skip-final-snapshot"
        ∷ []))

  unfoldable pub wait_for_db_cluster : Database → String → Exec S (Unit {0})
  unfolding check_status concat
  wait_for_db_cluster d status = retry now sleep aurora_wait_policy (
      check_status programs python now sleep d
        (concat (
          "describe-db-clusters --db-cluster-identifier=" ∷ d.db_cluster ∷ " --output" ∷ " json"
          ∷ " | jq '.DBClusters[] | { status: .Status }' | jq -s" ∷ []))
        aws_aurora_cli_wait_exception status)

  -- The machine gets its identifier once the command has returned.
  unfoldable pub aurora_create_db_instance : Database → Exec S Database
  unfolding run_only aurora_identifier concat
  aurora_create_db_instance d =
      let identifier = aurora_identifier d.db_cluster d.instance_type in
      run_only programs python now sleep d (
        concat (
          "create-db-instance" ∷ " --db-instance-identifier=" ∷ identifier
          ∷ " --db-cluster-identifier=" ∷ d.db_cluster ∷ " --engine" ∷ " " ∷ d.engine
          ∷ " --db-instance-class=" ∷ d.instance_type ∷ " --availability-zone=" ∷ d.vm.zone
          ∷ " --db-parameter-group-name=" ∷ d.db_parameter_group_name ∷ " --publicly-accessible"
          ∷ " --no-multi-az" ∷ []))
      >> pure (record d { vm = record d.vm { id = some identifier } })

  unfoldable pub aurora_wait_for_db_instance : Database → String → Exec S (Unit {0})
  unfolding check_status concat
  aurora_wait_for_db_instance d status = retry now sleep aurora_wait_policy (
      check_status programs python now sleep d
        (concat (
          "describe-db-instances --output json --db-instance-identifier="
          ∷ id_text d.vm
          ∷ " | jq '.DBInstances[] | { status: .DBInstanceStatus }' | jq -s"
          ∷ []))
        aws_aurora_cli_wait_exception status)

  unfoldable pub aurora_get_endpoint : Database → Exec S (Option Value)
  unfolding first_answer get_in concat
  aurora_get_endpoint d = retry now sleep aurora_wait_policy (
      first_answer programs python now sleep d (
        concat (
          "describe-db-clusters --db-cluster-identifier=" ∷ d.db_cluster ∷ " --output"
          ∷ " json | jq '.DBClusters[] | { endpoint: .Endpoint }' | jq -s" ∷ []))
      >>= λ endpoint. lift (get_in "endpoint" endpoint))

  unfoldable pub aurora_create : Database → Exec S VirtualMachine
  unfolding create_db_cluster wait_for_db_cluster aurora_create_db_instance
      aurora_wait_for_db_instance aurora_get_endpoint at_endpoint
  aurora_create d =
      try_except
        (create_db_cluster d
          >> (wait_for_db_cluster d "available"
              >> (aurora_create_db_instance d >>= λ made.
                  aurora_wait_for_db_instance made "available"
                  >> (aurora_get_endpoint made >>= λ endpoint.
                      lift (at_endpoint python made endpoint)))))
        (λ x. convert (λ y. is_a y cloud_cli_exception) aws_aurora_compute_exception x)

  unfoldable pub aurora_destroy : Database → Exec S (Unit {0})
  unfolding delete_db_instance aurora_wait_for_db_instance delete_db_cluster
  aurora_destroy d =
      delete_db_instance programs python now sleep d
      >> (aurora_wait_for_db_instance d "deleting" >> delete_db_cluster d)
