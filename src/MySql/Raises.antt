-- ===== src/MySql/Raises.antt =====
-- Which exceptions leave the client, and how often a query is sent that the server refuses.
use xbench_community.Prelude.{ℕ, String, List, [], ◌∷◌, ◌≡◌, ◌≢◌, true, refl}
use xbench_community.Exn.{
  is_a, is_any_of, pymysql_programming_error, mysql_client_exception, mysql_connection_exception,
  invalid_query_exception,
}
use xbench_community.Exec.{raise, Exec}
use xbench_community.Retry.{Policy, retry}
use xbench_community.Retry.First.{retry-unchecked}
use xbench_community.Retry.Outcomes.{
  RaisesOnlyClass, IsPermitted-RaisesOnlyClass, retry-IsPermitted,
}
use xbench_community.MySql.{
  Pymysql, connect_policy, query_policy, connect, execute_query, refuse_invalid, select_one_row,
  select_all_rows, execute_once, execute,
}

module _ {S : Type 0} (lib : Pymysql S) where
  class_of_retry :
      {A : Type 0} (policy : Policy) (f : Exec S A) (s : S)
      → policy.delays ≢ []
      → RaisesOnlyClass policy.exception_to_raise (retry lib.now lib.sleep policy f s).0
  class_of_retry policy f s h =
      IsPermitted-RaisesOnlyClass policy _ (retry-IsPermitted lib.now lib.sleep policy f s h)

  -- Whatever the server does, with at least one delay each: connect raises ConnectionException
  -- itself and the three queries MySqlClientException itself, never InvalidQueryException, or else
  -- SigTermException or what is no Exception.
  client-raises :
      (host query : String) (s : S)
      → lib.connect_delays ≢ []
      → lib.one_delays ≢ []
      → lib.all_delays ≢ []
      → lib.execute_delays ≢ []
      → RaisesOnlyClass mysql_connection_exception (connect lib host s).0
        × RaisesOnlyClass mysql_client_exception (select_one_row lib query s).0
        × RaisesOnlyClass mysql_client_exception (select_all_rows lib query s).0
        × RaisesOnlyClass mysql_client_exception (execute lib query s).0
  unfolding connect select_one_row select_all_rows execute
  client-raises host query s c o a e = (
    class_of_retry (connect_policy lib.connect_delays) _ s c,
    class_of_retry (query_policy lib.one_delays) _ s o,
    class_of_retry (query_policy lib.all_delays) _ s a,
    class_of_retry (query_policy lib.execute_delays) _ s e,
  )

  -- With a cursor and at least one delay, a query that the server refuses with ProgrammingError is
  -- sent once by execute: nothing is slept, and MySqlClientException is raised.
  pub execute-refused :
      (query : String) (d : ℕ) (ds : List ℕ) (s t : S)
      → lib.execute_delays ≡ d ∷ ds
      → lib.has_cursor s ≡ true
      → lib.execute query s ≡ (raise pymysql_programming_error, t)
      → execute lib query s ≡ (raise mysql_client_exception, t)
  unfolding execute execute_once execute_query refuse_invalid is_a is_any_of
  execute-refused query d ds s t e c h =
      retry-unchecked lib.now lib.sleep (query_policy lib.execute_delays) (execute_once lib query) d
        ds s t invalid_query_exception e refl refl refl (rw (c, h) refl)
