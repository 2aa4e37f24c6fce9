-- ===== src/Xpand.antt =====
-- backend/xpand/xpand.py: the decisions of the Xpand backend. Its database is a parameter: the
-- queries that the code makes, and `execute` on the statements that it sends, here as data in
-- place of their text. Delays are in seconds, memory in MB, and a share of something (`pct`) is a
-- fraction with a numerator and a denominator.
pub mod Zones
pub mod Quorum
pub mod Sizes
pub mod Globals
mod Tests
use Prim.Native.String.{◌++◌ as str_append}
use xbench_community.Prelude.{
  ℕ, zero, suc, ◌+◌, ◌-◌, ◌*◌, ◌/◌, ◌%◌, String, Bool, true, false, Option, some, none, List, [],
  ◌∷◌, Dict, lookup, insert, str_eq, if◌then◌else◌, ◌==◌, ltb, leb, length, ◌||◌,
}
use xbench_community.Exn.{
  Exn, is_a, mysql_client_exception, check_quorum_exception, xpand_exception, multi_node_exception,
}
use xbench_community.Exec.{
  Result, ok, raise, Exec, pure, throw, lift, ◌>>=◌, ◌>>◌, try_except, for_each,
}
use xbench_community.Retry.{Policy, retry}
use xbench_community.Cluster.{Node}

-- A row of `select nodeid, be_ip, zone from system.nodeinfo`.
pub record NodeInfo : Type 0 where
  pub nodeid : ℕ
  pub be_ip : String
  pub zone : ℕ

pub data Statement : Type 0 where
  -- set global <name> = <value>
  set_global : String → String → Statement
  -- set global hash_dist_min_slices = <number>
  set_slices : ℕ → Statement
  -- ALTER CLUSTER <nodeid> ZONE <zone>
  alter_zone : ℕ → ℕ → Statement
  -- alter cluster reform
  reform : Statement

pub record XpandDb (S : Type 0) : Type 0 where
  pub execute : Statement → Exec S (Unit {0})
  -- SELECT nid, status FROM system.membership where status = 'quorum'
  pub quorum_rows : Exec S (List (Dict String))
  pub get_zone_info : Exec S (List NodeInfo)

unfoldable pub zone_unique_str : Node → String
zone_unique_str n = str_append n.vm.env n.vm.zone

-- The first loop of `set_zones`: zone numbers in the order in which the zones are met.
unfoldable pub number_zones : Dict ℕ → ℕ → List Node → Dict ℕ
unfolding zone_unique_str
number_zones xpand_zones xpand_zone_id [] = xpand_zones
number_zones xpand_zones xpand_zone_id (n ∷ nodes) =
    let zone = zone_unique_str n in
    elim (lookup zone xpand_zones) [
      | none ↦ number_zones (insert zone xpand_zone_id xpand_zones) (xpand_zone_id + 1) nodes
      | some _ ↦ number_zones xpand_zones xpand_zone_id nodes
    ]

unfoldable pub find_nodeid : String → List NodeInfo → Result ℕ
find_nodeid ip [] = raise xpand_exception
find_nodeid ip (n ∷ zone_info) =
    let rest = find_nodeid ip zone_info in if str_eq n.be_ip ip then ok n.nodeid else rest

-- `xpand_zones.get(key)`, in a statement. None does not occur: every zone has been numbered.
unfoldable pub zone_number : Dict ℕ → String → ℕ
zone_number zones key = elim (lookup key zones) [ none ↦ 0 | some z ↦ z ]

module _ {S : Type 0} (db : XpandDb S) where
  unfoldable pub get_nodeid_by_ip : String → Exec S ℕ
  unfolding find_nodeid
  get_nodeid_by_ip ip = do zone_info ← db.get_zone_info; lift (find_nodeid ip zone_info)

  unfoldable pub assign_zone : Dict ℕ → Node → Exec S (Unit {0})
  unfolding get_nodeid_by_ip zone_number zone_unique_str
  assign_zone xpand_zones n = do
    nodeid ← get_nodeid_by_ip n.vm.network.private_ip
    db.execute (alter_zone nodeid (zone_number xpand_zones (zone_unique_str n)))

  unfoldable pub set_zones : List Node → Exec S (Unit {0})
  unfolding assign_zone number_zones
  set_zones nodes =
      let xpand_zones = number_zones [] 1 nodes in
      if ltb 1 (length xpand_zones)
      then for_each nodes (assign_zone xpand_zones)
        >> db.execute reform
        >> db.get_zone_info
        >>= (λ _. pure tt)
      else pure tt

  -- The `try` block of `check_quorum`.
  unfoldable pub compare_rows : List Node → Exec S (Unit {0})
  compare_rows nodes = do
    rows ← db.quorum_rows
    if length rows == length nodes
        then pure tt
        else db.execute reform >> throw check_quorum_exception

  unfoldable pub on_client_error : Exn → Exec S (Unit {0})
  on_client_error e =
      if is_a e mysql_client_exception then throw check_quorum_exception else throw e

  unfoldable pub check_quorum : List Node → Exec S (Unit {0})
  unfolding compare_rows on_client_error
  check_quorum nodes = try_except (compare_rows nodes) on_client_error

  -- The loop of `set_globals`, with the flag hash_dist_min_slices_adjusted.
  unfoldable pub set_each : List (String × String) → Bool → Exec S Bool
  set_each [] adjusted = pure adjusted
  set_each ((k, v) ∷ globals) adjusted =
      db.execute (set_global k v)
      >> set_each globals (if str_eq k "hash_dist_min_slices" then true else adjusted)

  -- `nproc` is read from the head node; a machine has at least one processor.
  unfoldable pub set_globals : Dict String → Exec S ℕ → ℕ → Exec S (Unit {0})
  unfolding set_each
  set_globals globals nproc num_nodes = do
    adjusted ← set_each globals false
    if adjusted
        then pure tt
        else (nproc >>= λ n. db.execute (set_slices (n * num_nodes - num_nodes)))

-- common/common.py: `round_down_to_even`, on a fraction
unfoldable pub round_down_to_even : ℕ → ℕ → ℕ
round_down_to_even num den = let f = num / den in if f % 2 == 1 then f - 1 else f

abbrev pub license_cutoff : ℕ
license_cutoff = 24

abbrev pub max_redo_limit_pct : ℕ
max_redo_limit_pct = 10

-- A license is refused if at most 24 hours are left, `diff <= LICENSE_CUTOFF` with
-- diff = (expiration - now) / 3600.
unfoldable pub check_license_expiration_date : ℕ → ℕ → Result (Unit {0})
check_license_expiration_date now expiration =
    if leb expiration (now + license_cutoff * 3600) then raise xpand_exception else ok tt

-- The part of `install` under `if self.config.clxnode_mem_pct`: the memory for --clxnode-mem. The
-- result of the subtraction is a pair, since it may be below 0: the part that is left, and the
-- part by which max_redo exceeds it.
unfoldable pub clxnode_mem : ℕ → ℕ → ℕ → Option ℕ → Result (ℕ × ℕ)
unfolding round_down_to_even
clxnode_mem total_mem num den none = ok (round_down_to_even (total_mem * num) den, 0)
clxnode_mem total_mem num den (some max_redo) =
    if ltb (total_mem * max_redo_limit_pct / 100) max_redo
    then raise xpand_exception
    else (let part_mem = round_down_to_even (total_mem * num) den in
        ok (part_mem - max_redo, max_redo - part_mem))

-- The part under `if self.config.space_allocation_pct`: the size for --storage-allocate, in GB.
unfoldable pub storage_space_gb : ℕ → ℕ → ℕ → ℕ
storage_space_gb available num den =
    let space = available * num / den in if ltb space 15000 then space else 15000

-- The exceptions for which `self_test` is tried again.
abbrev pub self_test_policy : List ℕ → Policy
self_test_policy delays = record {
  exceptions_to_check = check_quorum_exception ∷ multi_node_exception ∷ [];
  exception_to_raise = xpand_exception;
  max_delay = 300;
  delays = delays;
}
