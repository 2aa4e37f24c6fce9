-- ===== src/Innodb.antt =====
-- backend/base_mysql_backend.py: `force_innodb_checkpoint`. The settings that it reads first and
-- writes back are texts; `repeat` counts from 5 down to -1, so `left` is one more than it is.
pub mod Waiting
mod Tests
use xbench_community.Prelude.{
  ℕ, zero, suc, ◌-◌, String, Bool, true, false, ◌&&◌, Option, some, none, if◌then◌else◌, leb, ltb,
  ◌==◌,
}
use xbench_community.Exec.{Result, ok, raise, Exec, pure, ◌>>=◌, ◌>>◌}

pub data Setting : Type 0 where
  max_dirty_pages max_dirty_pages_lwm : Setting

-- The calls of the MySQL client, and `time.sleep`.
pub record MySql (S : Type 0) : Type 0 where
  pub db_connect : Exec S (Unit {0})
  pub select_setting : Setting → Exec S String
  pub set_global : Setting → String → Exec S (Unit {0})
  pub dirty_pages : Exec S ℕ
  pub flush_hosts : Exec S (Unit {0})
  pub sleep : ℕ → Exec S (Unit {0})

module _ {S : Type 0} (db : MySql S) where
  -- The `while` loop on fuel; the result says whether the loop has ended.
  unfoldable pub wait_for_clear : ℕ → ℕ → ℕ → ℕ → Exec S Bool
  wait_for_clear zero pages pages_old left = pure false
  wait_for_clear (suc fuel) pages pages_old left =
      if leb 1000 pages && ltb 0 left
      then (db.sleep 5 >> db.dirty_pages >>= λ now.
          wait_for_clear fuel now now (if now == pages_old then left - 1 else 6))
      else pure true

  unfoldable pub force_innodb_checkpoint : ℕ → Exec S Bool
  unfolding wait_for_clear
  force_innodb_checkpoint fuel = do
    db.db_connect
    pages_pct ← db.select_setting max_dirty_pages
    lwm ← db.select_setting max_dirty_pages_lwm
    db.set_global max_dirty_pages "0"
    pages ← db.dirty_pages
    ended ← wait_for_clear fuel pages 0 6
    db.set_global max_dirty_pages pages_pct
    db.set_global max_dirty_pages_lwm lwm
    db.flush_hosts
    pure ended
