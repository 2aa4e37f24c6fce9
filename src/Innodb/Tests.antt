-- ===== src/Innodb/Tests.antt =====
-- A server that writes 400 pages in each pause, and the theorem on it.
use xbench_community.Prelude.{ℕ, ◌-◌, true, ◌≡◌, refl, arith}
use xbench_community.Exec.{ok, pure}
use xbench_community.Innodb.{MySql, force_innodb_checkpoint}
use xbench_community.Innodb.Waiting.{IsQuiet, force_innodb_checkpoint-ends}

abbrev later : ℕ → ℕ
later s = s - 400

abbrev server : MySql ℕ
server = record {
  db_connect = pure tt;
  select_setting = λ x. pure "90";
  set_global = λ x v. pure tt;
  dirty_pages = λ s. (ok (later s), later s);
  flush_hosts = pure tt;
  sleep = λ d. pure tt;
}

server-IsQuiet : IsQuiet server (λ s. s) later
server-IsQuiet = record {
  connects = λ s. refl;
  setting = λ x. "90";
  selects = λ x s. refl;
  sets = λ x v s. refl;
  sleeps = λ d s. refl;
  reads = λ s. refl;
  flushes = λ s. refl;
  falls = λ s. omega arith;
}

force_innodb_checkpoint_example :
    (s' : ℕ) × (force_innodb_checkpoint server 40000 5000 ≡ (ok true, s'))
force_innodb_checkpoint_example =
    force_innodb_checkpoint-ends server (λ s. s) later 40000 5000 server-IsQuiet (omega arith)
