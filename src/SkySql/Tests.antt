-- ===== src/SkySql/Tests.antt =====
-- A server that answers from a list, and the theorems of this folder on it.
use xbench_community.Prelude.{ℕ, ◌+◌, true, some, none, List, [], ◌∷◌, ◌≡◌, refl, str_eq}
use xbench_community.Exn.{is_a, skysql_api_exception, type_error, index_error}
use xbench_community.Exec.{Result, ok, raise, Exec}
use xbench_community.Retry.{retry, attempts, on_failure, mark_last, iter_islast, constant_delay}
use xbench_community.Exn.{is_any_of}
use xbench_community.Config.{Value, null, str, dict, Entries, end, entry}
use xbench_community.SkySql.{
  SkySqlApi, Service, Credentials, Request, get_method, Response, auth_headers, auth_token,
  check_status_code, message_of, has_prefix,
}
use xbench_community.SkySql.Calls.{
  Http, api_call, call_once, headers_of, has_entries, dispatch, autocomplete_url, body_of, get_one,
  as_dict,
}
use xbench_community.SkySql.Services.{get_service_by_id, check_ready, wait_until_service_is_ready}
use xbench_community.SkySql.Ready.{wait_until_service_is_ready-ok}

-- The responses to come, and the requests sent.
abbrev Server : Type 0
Server = List Response × ℕ

abbrev answer : Request → Exec Server Response
answer q ([], n) = (raise index_error, ([], n + 1))
answer q (r ∷ rs, n) = (ok r, (rs, n + 1))

abbrev http : Http Server
http = record {
  send = answer;
  urljoin = λ base url. url;
  now = λ s. 0;
  sleep = λ d s. s;
  delays = 1 ∷ 1 ∷ [];
}

abbrev api : SkySqlApi
api = record {
  api_key = some "key";
  bearer_token = some "token";
  project_id = some (str "p");
  region = str "us-east-2";
  provider = str "aws";
  api_gw = "https://api.mariadb.com";
  auth_url = "https://id.mariadb.com";
}

abbrev some_get : Request
some_get = record {
  method = get_method;
  url = "/x";
  data_body = none;
  params = none;
  headers = end;
}

abbrev refused : Response
refused = record { status_code = 404; json_body = none }

refused_run : api_call http api some_get (refused ∷ [], 0) ≡ (raise skysql_api_exception, ([], 1))
unfolding api_call retry attempts on_failure mark_last iter_islast call_once headers_of has_entries
    auth_headers auth_token dispatch autocomplete_url check_status_code message_of body_of
    has_prefix is_a is_any_of
refused_run = refl

abbrev a_service : Service
a_service = record { id = "dbt1"; name = "db"; status = "ready"; endpoints = []; fqdn = "db.net" }

abbrev service_from : Value → Result Service
service_from v = ok a_service

abbrev credentials_from : Value → Result Credentials
credentials_from v = raise type_error

abbrev found : Response
found = record { status_code = 200; json_body = some (dict end) }

wait_until_service_is_ready_example :
    (t : Server) × (v : Service) × (get_service_by_id http service_from credentials_from api "dbt1"
        t
      ≡ (ok v, ([], 1)))
    × (str_eq v.status "ready" ≡ true)
unfolding wait_until_service_is_ready check_ready get_service_by_id get_one as_dict api_call retry
    attempts on_failure mark_last iter_islast call_once headers_of has_entries auth_headers
    auth_token dispatch autocomplete_url check_status_code message_of body_of has_prefix is_a
    is_any_of constant_delay
wait_until_service_is_ready_example =
    wait_until_service_is_ready-ok http service_from credentials_from api "dbt1" (found ∷ [], 0)
      ([], 1) refl

abbrev creation : Entries
creation = entry "name" (str "a-name-longer-than-twenty-four-characters") (
    entry "service_type" null (
      entry "version" null (
        entry "nodes" null (
          entry "size" null (
            entry "topology" null (
              entry "storage" null (
                entry "volume_iops" null
                  (entry "volume_type" null (entry "ssl_enabled" null end)))))))))

abbrev creation_body : Entries
creation_body = entry "name" (str "a-name-longer-than-twenty-four-characters") (
    entry "service_type" null (
      entry "version" null (
        entry "nodes" null (
          entry "size" null (
            entry "topology" null (
              entry "storage" null (
                entry "volume_iops" null (
                  entry "volume_type" null (
                    entry "ssl_enabled" null (
                      entry "architecture" (str "amd64") (
                        entry "project_id" (str "p") (
                          entry "region" (str "us-east-2")
                            (entry "provider" (str "aws") end)))))))))))))
