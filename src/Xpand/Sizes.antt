-- ===== src/Xpand/Sizes.antt =====
-- The sizes and the expiration date that `install` and `self_test` compute with.
use xbench_community.Prelude.{ℕ, ◌+◌, ◌*◌, ◌/◌, ◌%◌, ◌≤◌, ◌<◌, some, ◌≡◌, ◌↔◌, arith}
use xbench_community.Exec.{ok}
use xbench_community.Xpand.{
  round_down_to_even, license_cutoff, check_license_expiration_date, max_redo_limit_pct,
  clxnode_mem,
}

-- The result is the greatest even number that is not above the fraction.
round_down_to_even_lem :
    (num den even : ℕ)
    → (round_down_to_even num den % 2 ≡ 0)
      × (round_down_to_even num den ≤ num / den)
      × (even % 2 ≡ 0 → even ≤ num / den → even ≤ round_down_to_even num den)
unfolding round_down_to_even
round_down_to_even_lem num den even = ground arith

-- If install goes on with a size for --clxnode-mem that is not below 0, max_redo is at most a tenth
-- of the memory, and both together are an even number within the configured share of the memory.
pub clxnode_mem_lem :
    (total_mem num den max_redo mem : ℕ)
    → clxnode_mem total_mem num den (some max_redo) ≡ ok (mem, 0)
    → (max_redo ≤ total_mem * max_redo_limit_pct / 100)
      × ((mem + max_redo) % 2 ≡ 0)
      × (mem + max_redo ≤ total_mem * num / den)
unfolding clxnode_mem
clxnode_mem_lem total_mem num den max_redo mem h =
    ground (arith, round_down_to_even_lem (total_mem * num) den 0)

-- A license is accepted exactly if it is valid for more than 24 hours from now.
check_license_iff :
    (now expiration : ℕ)
    → (check_license_expiration_date now expiration ≡ ok tt)
      ↔ (now + license_cutoff * 3600 < expiration)
unfolding check_license_expiration_date
check_license_iff now expiration = ground arith
