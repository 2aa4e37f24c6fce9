-- ===== src/SkySql/Calls.antt =====
-- `_api_call` and the methods that check the type of what it returns.
use xbench_community.Prelude.{
  ℕ, String, Bool, true, false, Option, some, none, List, [], if◌then◌else◌, ◌≡◌, ◌≢◌, ◌⊎◌, arith,
}
use xbench_community.Exn.{Exn, is_a, exception, sig_term_exception, skysql_api_exception}
use xbench_community.Exec.{Result, ok, raise, Exec, pure, throw, lift, ◌>>=◌, ◌>>◌}
use xbench_community.Retry.{retry}
use xbench_community.Retry.Outcomes.{IsPermitted, retry-IsPermitted}
use xbench_community.Config.{Value, list, dict, Items, Entries, end, entry}
use xbench_community.SkySql.{
  get_method, post_method, patch_method, delete_method, other_method, Request, Response, SkySqlApi,
  auth_headers, check_status_code, has_prefix, api_policy,
}

-- The library that sends requests, what the clock says, and the delays drawn by
-- backoff_with_jitter when the module is loaded.
pub record Http (S : Type 0) : Type 0 where
  pub send : Request → Exec S Response
  pub urljoin : String → String → String
  pub now : S → ℕ
  pub sleep : ℕ → S → S
  pub delays : List ℕ

unfoldable pub has_entries : Entries → Bool
has_entries end = false
has_entries (entry k v d) = true

-- The body of a response, `r.json()` or `{}`.
unfoldable pub body_of : Response → Value
body_of r = elim r.json_body [ none ↦ dict end | some v ↦ v ]

module _ {S : Type 0} (http : Http S) where
  unfoldable pub autocomplete_url : SkySqlApi → String → String
  unfolding has_prefix
  autocomplete_url api url = if has_prefix "http" url then url else http.urljoin api.api_gw url

  -- `headers or self.auth_headers`
  unfoldable pub headers_of : SkySqlApi → Entries → Result Entries
  unfolding has_entries auth_headers
  headers_of api headers = if has_entries headers then ok headers else auth_headers api

  -- The choice of the method of `requests`; each takes its own part of the arguments.
  unfoldable pub dispatch : Request → Exec S Response
  dispatch q = elim q.method [
    | get_method ↦ http.send (record q { data_body = none })
    | post_method ↦ http.send (record q { params = none })
    | patch_method ↦ http.send (record q { params = none })
    | delete_method ↦ http.send (record q { data_body = none })
    | other_method ↦ throw skysql_api_exception
  ]

  -- `_api_call` as it stands under the decorator
  unfoldable pub call_once : SkySqlApi → Request → Exec S Value
  unfolding autocomplete_url headers_of dispatch body_of
  call_once api q = do
    headers ← lift (headers_of api q.headers)
    r ← dispatch (record q { url = autocomplete_url api q.url; headers = headers })
    lift (check_status_code r) >> pure (body_of r)

  unfoldable pub api_call : SkySqlApi → Request → Exec S Value
  api_call api q = retry http.now http.sleep (api_policy http.delays) (call_once api q)

  unfoldable pub as_dict : Value → Result Entries
  as_dict (dict d) = ok d
  as_dict _ = raise skysql_api_exception

  unfoldable pub as_list : Value → Result Items
  as_list (list l) = ok l
  as_list _ = raise skysql_api_exception

  unfoldable pub post_only : SkySqlApi → String → Option Value → Exec S (Unit {0})
  unfolding api_call
  post_only api url body = do
    r ←
        api_call api (record {
          method = post_method;
          url = url;
          data_body = body;
          params = none;
          headers = end;
        })
    pure tt

  unfoldable pub post : SkySqlApi → String → Option Value → Entries → Exec S Entries
  unfolding api_call as_dict
  post api url body headers = do
    r ← api_call api (record {
      method = post_method;
      url = url;
      data_body = body;
      params = none;
      headers = headers;
    })
    lift (as_dict r)

  unfoldable pub delete : SkySqlApi → String → Exec S (Unit {0})
  unfolding api_call
  delete api url = do
    r ← api_call api (record {
      method = delete_method;
      url = url;
      data_body = none;
      params = none;
      headers = end;
    })
    pure tt

  unfoldable pub get_one : SkySqlApi → String → Exec S Entries
  unfolding api_call as_dict
  get_one api url = do
    r ←
        api_call api (record {
          method = get_method;
          url = url;
          data_body = none;
          params = none;
          headers = end;
        })
    lift (as_dict r)

  unfoldable pub get : SkySqlApi → String → Option Entries → Exec S Items
  unfolding api_call as_list
  get api url params = do
    r ← api_call api (record {
      method = get_method;
      url = url;
      data_body = none;
      params = params;
      headers = end;
    })
    lift (as_list r)

permitted_lem :
    {A : Type 0} (delays : List ℕ) (r : Result A) (e : Exn)
    → IsPermitted (api_policy delays) r
    → r ≡ raise e
    → (e ≡ skysql_api_exception) ⊎ ((is_a e sig_term_exception ≡ true) ⊎ (is_a e exception ≡ false))
permitted_lem delays (ok a) e h eq = absurd (ok_raise eq)
  where
    ok_raise : (ok a ≡ raise e) → ⊥
    ok_raise h = cc
permitted_lem delays (raise x) e h eq = ground arith

-- Whatever the library and the server do, a call of the API with at least one delay that does not
-- return raises SkySQLAPIException itself, not SkySQLAPIClientException or
-- SkySQLAPIServerException, or else SigTermException or what is no Exception.
api_call-raises :
    {S : Type 0} (http : Http S) (api : SkySqlApi) (q : Request) (s : S) (e : Exn)
    → http.delays ≢ []
    → (api_call http api q s).0 ≡ raise e
    → (e ≡ skysql_api_exception) ⊎ ((is_a e sig_term_exception ≡ true) ⊎ (is_a e exception ≡ false))
unfolding api_call
api_call-raises http api q s e some_delay h =
    permitted_lem http.delays _ e
      (retry-IsPermitted http.now http.sleep (api_policy http.delays) (call_once http api q) s
        some_delay)
      h
