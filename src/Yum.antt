-- ===== src/Yum.antt =====
-- compute/os_types.py and compute/yum.py: the operating systems, and the commands of their package
-- managers.
mod Total
mod Tests
use xbench_community.Prelude.{
  String, Option, none, some, Bool, List, [], ◌∷◌, if◌then◌else◌, Dict, lookup, has_char,
}
use Prim.Native.String.{◌++◌ as str_append}
use xbench_community.Exn.{key_error, not_implemented_error}
use xbench_community.Exec.{Result, ok, raise, ◌>>=?◌}
use xbench_community.Cluster.{is_in}

abbrev pub amazonlinux2 : String
amazonlinux2 = "AmazonLinux2"

abbrev pub centos7 : String
centos7 = "CentOS7"

abbrev pub centos8 : String
centos8 = "CentOS8"

abbrev pub rocky8 : String
rocky8 = "Rocky8"

abbrev pub rhel7 : String
rhel7 = "RHEL7"

abbrev pub all_os_types : List String
all_os_types = amazonlinux2 ∷ centos7 ∷ centos8 ∷ rocky8 ∷ rhel7 ∷ []

-- `EPEL_URL.format(version)`
abbrev pub epel_url : String → String
epel_url version =
    str_append "https://dl.fedoraproject.org/pub/epel/epel-release-latest-"
      (str_append version ".noarch.rpm")

abbrev pub epel_urls : Dict String
epel_urls =
    (centos7, epel_url "7")
    ∷ (rhel7, epel_url "7")
    ∷ (centos8, epel_url "8")
    ∷ (rocky8, epel_url "8")
    ∷ (amazonlinux2, epel_url "7")
    ∷ []

abbrev pub package_managers_install : Dict String
package_managers_install =
    (centos7, "yum install -y")
    ∷ (rhel7, "yum install -y")
    ∷ (centos8, "dnf install -y")
    ∷ (rocky8, "dnf install -y")
    ∷ (amazonlinux2, "yum install -y")
    ∷ []

abbrev pub package_managers_group_install : Dict String
package_managers_group_install =
    (centos8, "dnf group install -y")
    ∷ (rocky8, "dnf group install -y")
    ∷ (centos7, "yum group install -y")
    ∷ (rhel7, "yum group install -y")
    ∷ (amazonlinux2, "yum group install -y")
    ∷ []

abbrev pub package_managers_local_install : Dict String
package_managers_local_install =
    (centos7, "yum localinstall -y")
    ∷ (rhel7, "yum localinstall -y")
    ∷ (centos8, "dnf localinstall -y")
    ∷ (rocky8, "dnf localinstall -y")
    ∷ (amazonlinux2, "yum localinstall -y")
    ∷ []

abbrev pub package_managers_remove : Dict String
package_managers_remove =
    (centos7, "yum erase -y")
    ∷ (rhel7, "yum erase -y")
    ∷ (centos8, "dnf erase -y")
    ∷ (rocky8, "dnf erase -y")
    ∷ (amazonlinux2, "yum erase -y")
    ∷ []

abbrev pub package_managers_group_remove : Dict String
package_managers_group_remove =
    (centos8, "dnf group erase -y")
    ∷ (rocky8, "dnf group erase -y")
    ∷ (centos7, "yum group erase -y")
    ∷ (rhel7, "yum group erase -y")
    ∷ (amazonlinux2, "yum group erase -y")
    ∷ []

abbrev pub package_managers_enable_repo : Dict String
package_managers_enable_repo =
    (centos7, "yum --enablerepo")
    ∷ (rhel7, "yum --enablerepo")
    ∷ (centos8, "dnf --enablerepo")
    ∷ (rocky8, "dnf --enablerepo")
    ∷ (amazonlinux2, "yum --enablerepo")
    ∷ []

abbrev pub package_managers_disable_repo : Dict String
package_managers_disable_repo =
    (centos7, "yum --disablerepo")
    ∷ (rhel7, "yum --disablerepo")
    ∷ (centos8, "dnf --disablerepo")
    ∷ (rocky8, "dnf --disablerepo")
    ∷ (amazonlinux2, "yum --disablerepo")
    ∷ []

abbrev pub package_managers_disable_module : Dict String
package_managers_disable_module = (rocky8, "dnf -qy module disable") ∷ []

abbrev pub package_managers_file_extension : Dict String
package_managers_file_extension =
    (centos7, "rpm")
    ∷ (rhel7, "rpm")
    ∷ (centos8, "rpm")
    ∷ (rocky8, "rpm")
    ∷ (amazonlinux2, "rpm")
    ∷ []

-- `table[os_type]`
unfoldable pub command_of : Dict String → String → Result String
command_of table os_type = elim (lookup os_type table) [ none ↦ raise key_error | some c ↦ ok c ]

-- The commands behind the RPM of EPEL, which the source builds from the two tables.
abbrev pub epel_cmds : Dict String
epel_cmds =
    (centos7, str_append "yum install -y " (epel_url "7"))
    ∷ (rhel7, str_append "yum install -y " (epel_url "7"))
    ∷ (centos8, str_append "dnf install -y " (epel_url "8"))
    ∷ (rocky8, str_append "dnf install -y " (epel_url "8"))
    ∷ (amazonlinux2, "amazon-linux-extras install -y epel")
    ∷ []

pub record Yum : Type 0 where
  pub os_type : String

-- `PackageManager.__init__`
unfoldable pub new_yum : String → Result Yum
new_yum os_type =
    if is_in os_type all_os_types
    then ok (record { os_type = os_type })
    else raise not_implemented_error

unfoldable pub install_epel_command : Yum → Result String
unfolding command_of
install_epel_command y = command_of epel_cmds y.os_type

unfoldable pub install_pkg_cmd : Yum → Result String
unfolding command_of
install_pkg_cmd y = command_of package_managers_install y.os_type

unfoldable pub install_local_pkg_cmd : Yum → Result String
unfolding command_of
install_local_pkg_cmd y = command_of package_managers_local_install y.os_type

unfoldable pub remove_pkg_cmd : Yum → Result String
unfolding command_of
remove_pkg_cmd y = command_of package_managers_remove y.os_type

unfoldable pub enable_repo_cmd : Yum → Result String
unfolding command_of
enable_repo_cmd y = command_of package_managers_enable_repo y.os_type

unfoldable pub disable_repo_cmd : Yum → Result String
unfolding command_of
disable_repo_cmd y = command_of package_managers_disable_repo y.os_type

unfoldable pub disable_module_cmd : Yum → Result String
unfolding command_of
disable_module_cmd y = command_of package_managers_disable_module y.os_type

unfoldable pub package_file_extension : Yum → Result String
unfolding command_of
package_file_extension y = command_of package_managers_file_extension y.os_type

unfoldable pub install_group : Yum → Result String
unfolding command_of
install_group y = command_of package_managers_group_install y.os_type

unfoldable pub remove_group : Yum → Result String
unfolding command_of
remove_group y = command_of package_managers_group_remove y.os_type

-- `if '7' in self.os_type`
unfoldable pub version_number : Yum → String
version_number y = if has_char 55 y.os_type then "7" else "8"
