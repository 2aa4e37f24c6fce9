-- ===== src/Lib.antt =====
-- Xbench, a command line program that runs performance benchmarks against databases in the cloud: a
-- verification library of its core logic.
--
-- The program. A cluster is described by yaml files and by parameters of the command line. The
-- classes of xbench/ read them (lib/yaml_config), name the instances of each component, launch
-- their machines in a cloud (cloud/) and save the cluster in a file (compute/cluster.py). Drivers,
-- proxies and backends are then installed on the nodes (backend/), a benchmark is run from the
-- drivers (benchmark/), and at the end the machines are terminated and the file is removed. Nearly
-- all remote calls go through the retry decorator (common/retry_decorator.py).
--
-- The files.
-- - Prelude, with Tests, Lists, Dicts and Texts: what all modules share. Dicts are association
--   lists in insertion order, numbers are the native ones, subtraction stops at 0.
-- - Exn: the exception classes with their base classes, from compute/exceptions.py,
--   cloud/exceptions.py, backend/exceptions.py, benchmark/exceptions.py and the others. An
--   exception is its class; messages and logging are not modelled.
-- - Exec: statements that change a state and may raise. The state comes back beside an exception.
-- - Retry: common/retry_decorator.py. The delay sequences, `retry`, and its loop `attempts`. The
--   clock is a part of the state, in microseconds. The loop is a recursion on the delays, so it
--   needs no fuel.
-- - Config: the values of yaml files, `extender` and `parse_unknown` of xbench/common.py (Params),
--   and `YamlConfig.get_key` of lib/yaml_config/yaml_config.py (YamlConfig). Python's eval is a
--   parameter; reading the files is PyYAML's.
-- - Cluster: compute/cluster.py with cloud/virtual_machine.py, virtual_network.py and
--   virtual_storage.py. The tree is given by its levels, as anytree's iterators yield them.
-- - Cloud: cloud/abstract_cloud.py, cloud/storage_factory.py and compute/run_parallel.py. What the
--   classes of a provider do is the record Provider. The threads of `run_parallel` run one after
--   the other, and `as_completed` is any order in which they finish.
-- - Provisioning: xbench/provisioning.py. `build_envs` for one component, the naming loop of
--   `configure`, and `allocate`, whose clouds are the record Fleet and whose file is a part of the
--   state: what is read from it and how writing it ends are parameters. Provisioning/Clean is
--   xbench/deprovisioning.py, with the record Teardown.
-- - SkySql: cloud/skysql/skysql_api2.py and skysql2_data_model.py. Calls has `_api_call` and its
--   wrappers over the record Http, Services the operations on services. What an operation writes
--   into the object is its result.
-- - Xpand: backend/xpand/xpand.py. Zones, quorum, global variables, sizes and the license, over the
--   record XpandDb; statements are data in place of their text.
-- - Sysbench: benchmark/sysbench/sysbench_runner.py. data_check, run, run_thread and parse_output;
--   a line of the output is classified by a parameter that stands for the regular expressions, the
--   arithmetic of floats in data_check is one too, and the floats of the output are hundredths.
-- - Innodb: `force_innodb_checkpoint` of backend/base_mysql_backend.py. Its waiting loop is on
--   fuel, and the fuel that is enough where no page becomes dirty any more is part of the theorem.
-- - Yum: compute/yum.py and compute/os_types.py. The systems and the commands of their package
--   managers; the tables are dictionaries by the system's name.
-- - Ssh: compute/ssh_client.py over the record Asyncssh, and `clean_cmd` of common/common.py;
--   Parallel is compute/pssh_client.py. The tasks of `asyncio.gather` take effect one after the
--   other.
-- - Hosts: compute/node.py; Metrics is metrics/server.py with metrics/metrics_target.py, Setup what
--   a node gets installed and is asked, Multi is compute/multi_node.py.
-- - Cli: compute/run_subprocess.py and cloud/abstract_cli.py. A program's failure is a value with
--   its message, which some callers read; the rest of the callers raise CloudCliException.
-- - Aws: cloud/aws/aws_cli.py; Ec2, Storage, Databases and Aurora are aws_ec2.py, aws_ebs.py and
--   aws_nvme.py with cloud/abstract_storage.py, aws_rds_compute.py and aws_aurora_compute.py. The
--   machine and the volume that an object writes come back as results; json is a parameter.
-- - Gcp: cloud/gcp/gcp_cli.py; Compute is gcp_compute.py, Storage is gcp_storage.py.
-- - ShellSsh: compute/shell_ssh_client.py, which starts the ssh program by Cli.
-- - Workload: xbench/workload_running.py over the record Bench.
-- - MySql: lib/mysql_client/mysql_client.py over the record Pymysql.
-- - Memoize: lib/xpand_monitor/memoize.py. The cache is the state, the numbers are a parameter.
--
-- How they interact. Retry decorates the calls of SkySql, Ssh, Hosts, MySql and the databases of
-- Aws, the self test of Xpand and the threads of Sysbench. Hosts runs its commands by Ssh, and the
-- clouds by Cli. Config's values are the parameters that Provisioning and Cloud hand on, and the
-- JSON that SkySql, Aws and Gcp read. Cluster's nodes are what Cloud launches, Provisioning saves
-- and Xpand installs on. The module named Tests beside a group of files has samples, runs, and the
-- theorems on them.
--
-- Not modelled: the command lines of xbench and their parsing, the client for PostgreSQL, the
-- command lines of the providers other than AWS and GCP, the installation scripts of the backends
-- and dashboards, since they send text to other programs or wrap third-party code; in the modelled
-- files, what writes log messages or hands tables to pandas.
pub mod Prelude
pub mod Exn
pub mod Exec
pub mod Retry
pub mod Config
pub mod Cluster
pub mod Xpand
pub mod SkySql
pub mod Cloud
pub mod Provisioning
pub mod Sysbench
pub mod Innodb
pub mod Yum
pub mod Ssh
pub mod Hosts
pub mod Cli
pub mod Aws
pub mod MySql
pub mod Memoize
pub mod ShellSsh
pub mod Workload
pub mod Gcp
