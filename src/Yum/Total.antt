-- ===== src/Yum/Total.antt =====
-- The tables cover every operating system that the constructor accepts.
use xbench_community.Prelude.{
  String, true, false, Option, none, some, ◌≡◌, refl, sym, arith, Bool, str_eq, str_eq_iff, ◌⊎◌,
  inl, inr, lookup, if◌then◌else◌,
}
use xbench_community.Exec.{Result, ok, raise}
use xbench_community.Exn.{not_implemented_error, key_error}
use xbench_community.Cluster.{is_in}
use xbench_community.Cloud.Launch.{IsOk}
use xbench_community.Yum.{
  Yum, amazonlinux2, centos7, centos8, rocky8, rhel7, all_os_types, command_of, new_yum,
  install_epel_command, install_pkg_cmd, install_local_pkg_cmd, remove_pkg_cmd, enable_repo_cmd,
  disable_repo_cmd, disable_module_cmd, package_file_extension, install_group, remove_group,
}

-- What the constructor accepts is one of the five systems.
os_type-cases :
    (os : String)
    → is_in os all_os_types ≡ true
    → (amazonlinux2 ≡ os) ⊎ ((centos7 ≡ os) ⊎ ((centos8 ≡ os) ⊎ ((rocky8 ≡ os) ⊎ (rhel7 ≡ os))))
os_type-cases os h = ground (
  arith,
  str_eq_iff amazonlinux2 os,
  str_eq_iff centos7 os,
  str_eq_iff centos8 os,
  str_eq_iff rocky8 os,
  str_eq_iff rhel7 os,
)

abbrev pub AllFound : Yum → Type 0
AllFound y =
    IsOk (install_epel_command y)
    × IsOk (install_pkg_cmd y)
    × IsOk (install_local_pkg_cmd y)
    × IsOk (remove_pkg_cmd y)
    × IsOk (enable_repo_cmd y)
    × IsOk (disable_repo_cmd y)
    × IsOk (package_file_extension y)
    × IsOk (install_group y)
    × IsOk (remove_group y)

found : (os : String) → is_in os all_os_types ≡ true → AllFound (record { os_type = os })
unfolding install_epel_command install_pkg_cmd install_local_pkg_cmd remove_pkg_cmd enable_repo_cmd
    disable_repo_cmd package_file_extension install_group remove_group command_of lookup
found os h = elim (os_type-cases os h) [
  | inl e ↦ rw (sym e) all_nine
  | inr (inl e) ↦ rw (sym e) all_nine
  | inr (inr (inl e)) ↦ rw (sym e) all_nine
  | inr (inr (inr (inl e))) ↦ rw (sym e) all_nine
  | inr (inr (inr (inr e))) ↦ rw (sym e) all_nine
]
  where
    all_nine : AllFound (record { os_type = centos7 })
    all_nine = (tt, tt, tt, tt, tt, tt, tt, tt, tt)

-- The command that disables a module is that of Rocky8, and a missing key on the others.
abbrev pub disabling : String → Result String
disabling os = if str_eq rocky8 os then ok "dnf -qy module disable" else raise key_error

disabled : (os : String) → disable_module_cmd (record { os_type = os }) ≡ disabling os
unfolding disable_module_cmd command_of lookup
disabled os = by_test (str_eq rocky8 os)
  where
    by_test :
        (b : Bool)
        → (elim (if◌then◌else◌ {A = Option String} b (some "dnf -qy module disable") none)
            as (λ _. Result String) [ none ↦ raise key_error | some c ↦ ok c ])
          ≡ (if b then ok "dnf -qy module disable" else raise key_error)
    by_test true = refl
    by_test false = refl

-- What the constructor makes of a name: the manager of one of the systems, with what is found
-- for it, or the refusal of any other name.
abbrev pub Outcome : String → Result Yum → Type 0
Outcome os (ok y) =
    (is_in os all_os_types ≡ true) × AllFound y × (disable_module_cmd y ≡ disabling os)
Outcome os (raise e) = (is_in os all_os_types ≡ false) × (e ≡ not_implemented_error)

-- The constructor accepts exactly the five systems, and raises NotImplementedError for any other
-- name. On what it accepts each command is found, but the one that disables a module, which
-- raises KeyError except on Rocky8, where it is found.
pub new_yum-Outcome : (os : String) → Outcome os (new_yum os)
unfolding new_yum
new_yum-Outcome os = by_test (is_in os all_os_types) refl
  where
    by_test :
        (b : Bool)
        → is_in os all_os_types ≡ b
        → Outcome os (if b then ok (record { os_type = os }) else raise not_implemented_error)
    by_test true e = (e, found os e, disabled os)
    by_test false e = (e, refl)
