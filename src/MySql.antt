-- ===== src/MySql.antt =====
-- lib/mysql_client/mysql_client.py: one connection to a database. The package pymysql is a
-- parameter, which works on the state; whether there is a cursor is part of the state.
pub mod Raises
mod Tests
use xbench_community.Prelude.{
  ℕ, String, Bool, true, false, Option, none, some, List, [], ◌∷◌, split_on, ltb, if◌then◌else◌,
}
use xbench_community.Exn.{
  Exn, is_a, attribute_error, pymysql_error, pymysql_operational_error, pymysql_programming_error,
  mysql_client_exception, mysql_connection_exception, invalid_query_exception,
}
use xbench_community.Exec.{Result, ok, raise, Exec, pure, throw, ◌>>=◌, ◌>>◌, try_except, convert}
use xbench_community.Retry.{Policy, retry}
use xbench_community.Config.{Value, Entries, end, get}

-- A query has its parameters in it here. The delays are those that backoff_with_jitter drew for
-- each of the four methods when the module was loaded.
pub record Pymysql (S : Type 0) : Type 0 where
  pub connect : String → Exec S (Unit {0})
  pub cursor : Exec S (Unit {0})
  pub has_cursor : S → Bool
  pub execute : String → Exec S (Unit {0})
  pub fetchone : Exec S Entries
  pub rownumber : S → ℕ
  pub fetchall : Exec S (List Entries)
  pub rowcount : S → ℕ
  pub now : S → ℕ
  pub sleep : ℕ → S → S
  pub connect_delays : List ℕ
  pub one_delays : List ℕ
  pub all_delays : List ℕ
  pub execute_delays : List ℕ

-- `kwargs.get("host").split(",")`, of which the round robin gives the first
unfoldable pub first_host : String → String
unfolding split_on
first_host host = let (first, rest) = split_on 44 host in first

abbrev pub connect_policy : List ℕ → Policy
connect_policy delays = record {
  exceptions_to_check = pymysql_error ∷ [];
  exception_to_raise = mysql_connection_exception;
  max_delay = 300;
  delays = delays;
}

-- Of the three methods that send a query.
abbrev pub query_policy : List ℕ → Policy
query_policy delays = record {
  exceptions_to_check = pymysql_error ∷ pymysql_operational_error ∷ [];
  exception_to_raise = mysql_client_exception;
  max_delay = 300;
  delays = delays;
}

module _ {S : Type 0} (lib : Pymysql S) where
  unfoldable pub connect : String → Exec S (Unit {0})
  unfolding first_host
  connect host =
      retry lib.now lib.sleep (connect_policy lib.connect_delays)
        (lib.connect (first_host host) >> lib.cursor)

  -- `self.cur.execute(query, params)`; without `connect`, `self.cur` is None.
  unfoldable pub execute_query : String → Exec S (Unit {0})
  execute_query query s =
      if lib.has_cursor s then lib.execute query s else (raise attribute_error, s)

  -- `except pymysql.ProgrammingError`
  unfoldable pub refuse_invalid : {A : Type 0} → Exec S A → Exec S A
  refuse_invalid m =
      try_except m (λ e. convert (λ x. is_a x pymysql_programming_error) invalid_query_exception e)

  unfoldable pub select_one : String → Exec S Entries
  unfolding execute_query refuse_invalid
  select_one query = refuse_invalid (
      execute_query query
      >> (lib.fetchone >>= λ row s. (ok (if ltb 0 (lib.rownumber s) then row else end), s)))

  unfoldable pub select_one_row : String → Exec S Entries
  select_one_row query = retry lib.now lib.sleep (query_policy lib.one_delays) (select_one query)

  unfoldable pub select_all : String → Exec S (List Entries)
  unfolding execute_query refuse_invalid
  select_all query = refuse_invalid (execute_query query >> lib.fetchall)

  unfoldable pub select_all_rows : String → Exec S (List Entries)
  select_all_rows query = retry lib.now lib.sleep (query_policy lib.all_delays) (select_all query)

  unfoldable pub execute_once : String → Exec S ℕ
  unfolding execute_query refuse_invalid
  execute_once query = refuse_invalid (execute_query query >> λ s. (ok (lib.rowcount s), s))

  unfoldable pub execute : String → Exec S ℕ
  execute query = retry lib.now lib.sleep (query_policy lib.execute_delays) (execute_once query)

  -- `print_db_version`, with the version that it logs
  unfoldable pub db_version : Exec S (Option Value)
  unfolding select_one_row
  db_version = select_one_row "select version()" >>= λ row. pure (get "version()" row)
