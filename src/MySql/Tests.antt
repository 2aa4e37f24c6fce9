-- ===== src/MySql/Tests.antt =====
-- A server that refuses every query, and the theorem of this folder on it.
use xbench_community.Prelude.{ℕ, suc, true, [], ◌∷◌, ◌≡◌, refl}
use xbench_community.Exn.{pymysql_programming_error, mysql_client_exception}
use xbench_community.Exec.{raise, pure}
use xbench_community.Config.{end}
use xbench_community.MySql.{Pymysql, execute}
use xbench_community.MySql.Raises.{execute-refused}

abbrev refusing : Pymysql ℕ
refusing = record {
  connect = λ host. pure tt;
  cursor = pure tt;
  has_cursor = λ s. true;
  execute = λ query s. (raise pymysql_programming_error, suc s);
  fetchone = pure end;
  rownumber = λ s. 0;
  fetchall = pure [];
  rowcount = λ s. 0;
  now = λ s. 0;
  sleep = λ d s. s;
  connect_delays = 3 ∷ [];
  one_delays = 3 ∷ [];
  all_delays = 3 ∷ [];
  execute_delays = 5 ∷ 10 ∷ [];
}

execute-refused_example : execute refusing "drop it" 0 ≡ (raise mysql_client_exception, 1)
execute-refused_example = execute-refused refusing "drop it" 5 (10 ∷ []) 0 1 refl refl refl
