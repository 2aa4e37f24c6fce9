-- ===== src/Exn.antt =====
-- The exception classes that the repository's code raises or catches, with their base classes:
-- compute/exceptions.py, cloud/exceptions.py, cloud/aws/exceptions.py,
-- cloud/gcp/exceptions.py, cloud/skysql/exceptions2.py, backend/exceptions.py, backend/xpand/exceptions.py,
-- benchmark/exceptions.py, benchmark/sysbench/exceptions.py, lib/mysql_client/exceptions.py,
-- lib/yaml_config/yaml_config.py, lib/xbench_config.py, common/exceptions.py, xbench/exceptions.py, driver/exceptions.py,
-- and those of Python and of the packages that are named in an `except` clause.
-- An exception is its class: messages are not modelled.
use xbench_community.Prelude.{ℕ, Bool, List, [], ◌∷◌, ◌==◌, any}

pub data Exn : Type 0 where
  base_exception keyboard_interrupt exception : Exn
  value_error key_error name_error syntax_error type_error attribute_error runtime_error : Exn
  index_error zero_division_error os_error file_not_found_error connection_error : Exn
  timeout_error requests_connection_error requests_read_timeout asyncssh_error : Exn
  pymysql_error pymysql_operational_error pymysql_programming_error : Exn
  not_implemented_error : Exn
  sig_term_exception retry_exception : Exn
  ssh_client_exception ssh_client_timeout_exception pssh_client_exception : Exn
  shell_ssh_client_exception process_execution_exception node_exception : Exn
  multi_node_exception cluster_exception : Exn
  cloud_exception cloud_cli_exception cloud_compute_exception cloud_storage_exception : Exn
  aws_cli_exception aws_ec2_exception : Exn
  skysql_api_exception skysql_api_client_exception skysql_api_server_exception : Exn
  skysql_service_pending skysql_service_failed : Exn
  backend_exception base_mysql_backend_exception xpand_exception check_quorum_exception : Exn
  benchmark_exception sysbench_exception sysbench_fatal_exception : Exn
  sysbench_output_parse_exception : Exn
  mysql_client_exception mysql_connection_exception invalid_query_exception : Exn
  yaml_config_exception xbench_exception driver_exception : Exn
  asyncssh_timeout_error connection_refused_error socket_timeout aws_storage_exception : Exn
  aws_rds_cli_exception aws_rds_cli_wait_exception aws_rds_compute_exception : Exn
  aws_aurora_cli_exception aws_aurora_cli_wait_exception aws_aurora_compute_exception : Exn
  gcp_cloud_exception gcp_cli_exception gcp_storage_exception xbench_config_exception : Exn

-- The class itself and its base classes, the nearest first.
abbrev pub mro : Exn → List Exn
mro base_exception = base_exception ∷ []
mro keyboard_interrupt = keyboard_interrupt ∷ base_exception ∷ []
mro exception = exception ∷ base_exception ∷ []
mro value_error = value_error ∷ exception ∷ base_exception ∷ []
mro key_error = key_error ∷ exception ∷ base_exception ∷ []
mro name_error = name_error ∷ exception ∷ base_exception ∷ []
mro syntax_error = syntax_error ∷ exception ∷ base_exception ∷ []
mro type_error = type_error ∷ exception ∷ base_exception ∷ []
mro attribute_error = attribute_error ∷ exception ∷ base_exception ∷ []
mro runtime_error = runtime_error ∷ exception ∷ base_exception ∷ []
mro index_error = index_error ∷ exception ∷ base_exception ∷ []
mro zero_division_error = zero_division_error ∷ exception ∷ base_exception ∷ []
mro os_error = os_error ∷ exception ∷ base_exception ∷ []
mro file_not_found_error = file_not_found_error ∷ os_error ∷ exception ∷ base_exception ∷ []
mro connection_error = connection_error ∷ os_error ∷ exception ∷ base_exception ∷ []
mro timeout_error = timeout_error ∷ exception ∷ base_exception ∷ []
mro requests_connection_error =
    requests_connection_error ∷ os_error ∷ exception ∷ base_exception ∷ []
mro requests_read_timeout = requests_read_timeout ∷ os_error ∷ exception ∷ base_exception ∷ []
mro asyncssh_error = asyncssh_error ∷ exception ∷ base_exception ∷ []
mro pymysql_error = pymysql_error ∷ exception ∷ base_exception ∷ []
mro pymysql_operational_error =
    pymysql_operational_error ∷ pymysql_error ∷ exception ∷ base_exception ∷ []
mro pymysql_programming_error =
    pymysql_programming_error ∷ pymysql_error ∷ exception ∷ base_exception ∷ []
mro not_implemented_error = not_implemented_error ∷ runtime_error ∷ exception ∷ base_exception ∷ []
mro sig_term_exception = sig_term_exception ∷ exception ∷ base_exception ∷ []
mro retry_exception = retry_exception ∷ exception ∷ base_exception ∷ []
mro ssh_client_exception = ssh_client_exception ∷ exception ∷ base_exception ∷ []
mro ssh_client_timeout_exception =
    ssh_client_timeout_exception ∷ ssh_client_exception ∷ exception ∷ base_exception ∷ []
mro pssh_client_exception = pssh_client_exception ∷ exception ∷ base_exception ∷ []
mro shell_ssh_client_exception = shell_ssh_client_exception ∷ exception ∷ base_exception ∷ []
mro process_execution_exception = process_execution_exception ∷ exception ∷ base_exception ∷ []
mro node_exception = node_exception ∷ exception ∷ base_exception ∷ []
mro multi_node_exception = multi_node_exception ∷ node_exception ∷ exception ∷ base_exception ∷ []
mro cluster_exception = cluster_exception ∷ exception ∷ base_exception ∷ []
mro cloud_exception = cloud_exception ∷ exception ∷ base_exception ∷ []
mro cloud_cli_exception = cloud_cli_exception ∷ cloud_exception ∷ exception ∷ base_exception ∷ []
mro cloud_compute_exception =
    cloud_compute_exception ∷ cloud_exception ∷ exception ∷ base_exception ∷ []
mro cloud_storage_exception =
    cloud_storage_exception ∷ cloud_exception ∷ exception ∷ base_exception ∷ []
mro aws_cli_exception =
    aws_cli_exception ∷ cloud_cli_exception ∷ cloud_exception ∷ exception ∷ base_exception ∷ []
mro aws_ec2_exception =
    aws_ec2_exception ∷ cloud_compute_exception ∷ cloud_exception ∷ exception ∷ base_exception ∷ []
mro skysql_api_exception = skysql_api_exception ∷ cloud_exception ∷ exception ∷ base_exception ∷ []
mro skysql_api_client_exception =
    skysql_api_client_exception ∷ skysql_api_exception ∷ cloud_exception ∷ exception
    ∷ base_exception ∷ []
mro skysql_api_server_exception =
    skysql_api_server_exception ∷ skysql_api_exception ∷ cloud_exception ∷ exception
    ∷ base_exception ∷ []
mro skysql_service_pending =
    skysql_service_pending ∷ skysql_api_exception ∷ cloud_exception ∷ exception ∷ base_exception
    ∷ []
mro skysql_service_failed =
    skysql_service_failed ∷ skysql_api_exception ∷ cloud_exception ∷ exception ∷ base_exception ∷ []
mro backend_exception = backend_exception ∷ exception ∷ base_exception ∷ []
mro base_mysql_backend_exception =
    base_mysql_backend_exception ∷ backend_exception ∷ exception ∷ base_exception ∷ []
mro xpand_exception = xpand_exception ∷ backend_exception ∷ exception ∷ base_exception ∷ []
mro check_quorum_exception =
    check_quorum_exception ∷ xpand_exception ∷ backend_exception ∷ exception ∷ base_exception ∷ []
mro benchmark_exception = benchmark_exception ∷ exception ∷ base_exception ∷ []
mro sysbench_exception = sysbench_exception ∷ benchmark_exception ∷ exception ∷ base_exception ∷ []
mro sysbench_fatal_exception =
    sysbench_fatal_exception ∷ benchmark_exception ∷ exception ∷ base_exception ∷ []
mro sysbench_output_parse_exception =
    sysbench_output_parse_exception ∷ sysbench_exception ∷ benchmark_exception ∷ exception
    ∷ base_exception ∷ []
mro mysql_client_exception = mysql_client_exception ∷ exception ∷ base_exception ∷ []
mro mysql_connection_exception =
    mysql_connection_exception ∷ mysql_client_exception ∷ exception ∷ base_exception ∷ []
mro invalid_query_exception =
    invalid_query_exception ∷ mysql_client_exception ∷ exception ∷ base_exception ∷ []
mro yaml_config_exception = yaml_config_exception ∷ exception ∷ base_exception ∷ []
mro xbench_exception = xbench_exception ∷ exception ∷ base_exception ∷ []
mro driver_exception = driver_exception ∷ exception ∷ base_exception ∷ []
mro asyncssh_timeout_error =
    asyncssh_timeout_error ∷ asyncssh_error ∷ timeout_error ∷ exception ∷ base_exception ∷ []
mro connection_refused_error =
    connection_refused_error ∷ connection_error ∷ os_error ∷ exception ∷ base_exception ∷ []
mro socket_timeout = socket_timeout ∷ os_error ∷ exception ∷ base_exception ∷ []
mro aws_storage_exception =
    aws_storage_exception ∷ cloud_storage_exception ∷ cloud_exception ∷ exception ∷ base_exception
    ∷ []
mro aws_rds_cli_exception =
    aws_rds_cli_exception ∷ cloud_cli_exception ∷ cloud_exception ∷ exception ∷ base_exception ∷ []
mro aws_rds_cli_wait_exception = aws_rds_cli_wait_exception ∷ exception ∷ base_exception ∷ []
mro aws_rds_compute_exception =
    aws_rds_compute_exception ∷ cloud_compute_exception ∷ cloud_exception ∷ exception
    ∷ base_exception ∷ []
mro aws_aurora_cli_exception =
    aws_aurora_cli_exception ∷ cloud_cli_exception ∷ cloud_exception ∷ exception ∷ base_exception
    ∷ []
mro aws_aurora_cli_wait_exception = aws_aurora_cli_wait_exception ∷ exception ∷ base_exception ∷ []
mro aws_aurora_compute_exception =
    aws_aurora_compute_exception ∷ cloud_compute_exception ∷ cloud_exception ∷ exception
    ∷ base_exception ∷ []
mro gcp_cloud_exception = gcp_cloud_exception ∷ cloud_exception ∷ exception ∷ base_exception ∷ []
mro gcp_cli_exception =
    gcp_cli_exception ∷ cloud_cli_exception ∷ cloud_exception ∷ exception ∷ base_exception ∷ []
mro gcp_storage_exception =
    gcp_storage_exception ∷ cloud_storage_exception ∷ cloud_exception ∷ exception ∷ base_exception
    ∷ []
mro xbench_config_exception = xbench_config_exception ∷ exception ∷ base_exception ∷ []

-- The place in the list of classes, by which classes are compared.
abbrev pub class_id : Exn → ℕ
class_id base_exception = 0
class_id keyboard_interrupt = 1
class_id exception = 2
class_id value_error = 3
class_id key_error = 4
class_id name_error = 5
class_id syntax_error = 6
class_id type_error = 7
class_id attribute_error = 8
class_id runtime_error = 9
class_id index_error = 10
class_id zero_division_error = 11
class_id os_error = 12
class_id file_not_found_error = 13
class_id connection_error = 14
class_id timeout_error = 15
class_id requests_connection_error = 16
class_id requests_read_timeout = 17
class_id asyncssh_error = 18
class_id pymysql_error = 19
class_id pymysql_operational_error = 20
class_id pymysql_programming_error = 21
class_id not_implemented_error = 22
class_id sig_term_exception = 23
class_id retry_exception = 24
class_id ssh_client_exception = 25
class_id ssh_client_timeout_exception = 26
class_id pssh_client_exception = 27
class_id shell_ssh_client_exception = 28
class_id process_execution_exception = 29
class_id node_exception = 30
class_id multi_node_exception = 31
class_id cluster_exception = 32
class_id cloud_exception = 33
class_id cloud_cli_exception = 34
class_id cloud_compute_exception = 35
class_id cloud_storage_exception = 36
class_id aws_cli_exception = 37
class_id aws_ec2_exception = 38
class_id skysql_api_exception = 39
class_id skysql_api_client_exception = 40
class_id skysql_api_server_exception = 41
class_id skysql_service_pending = 42
class_id skysql_service_failed = 43
class_id backend_exception = 44
class_id base_mysql_backend_exception = 45
class_id xpand_exception = 46
class_id check_quorum_exception = 47
class_id benchmark_exception = 48
class_id sysbench_exception = 49
class_id sysbench_fatal_exception = 50
class_id sysbench_output_parse_exception = 51
class_id mysql_client_exception = 52
class_id mysql_connection_exception = 53
class_id invalid_query_exception = 54
class_id yaml_config_exception = 55
class_id xbench_exception = 56
class_id driver_exception = 57
class_id asyncssh_timeout_error = 58
class_id connection_refused_error = 59
class_id socket_timeout = 60
class_id aws_storage_exception = 61
class_id aws_rds_cli_exception = 62
class_id aws_rds_cli_wait_exception = 63
class_id aws_rds_compute_exception = 64
class_id aws_aurora_cli_exception = 65
class_id aws_aurora_cli_wait_exception = 66
class_id aws_aurora_compute_exception = 67
class_id gcp_cloud_exception = 68
class_id gcp_cli_exception = 69
class_id gcp_storage_exception = 70
class_id xbench_config_exception = 71

-- `isinstance(e, c)`
unfoldable pub is_a : Exn → Exn → Bool
is_a e c = any (λ b. class_id b == class_id c) (mro e)

-- `except (c1, c2, ...)`
unfoldable pub is_any_of : Exn → List Exn → Bool
unfolding is_a
is_any_of e cs = any (is_a e) cs
