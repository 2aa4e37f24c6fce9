-- ===== src/SkySql/Services.antt =====
-- The operations on projects, versions and services, and what `create_service` does with a name.
use Prim.Native.String.{◌++◌ as str_append}
use xbench_community.Prelude.{ℕ, String, Option, some, none, List, [], ◌∷◌, if◌then◌else◌, str_eq}
use xbench_community.Exn.{
  skysql_api_exception, skysql_service_failed, skysql_service_pending, type_error,
}
use xbench_community.Exec.{Result, ok, raise, Exec, pure, throw, lift, ◌>>=◌, ◌>>◌, ◌>>=?◌}
use xbench_community.Retry.{retry}
use xbench_community.Config.{Value, null, bool, num, str, list, dict, Items, Entries, end, entry}
use xbench_community.Config as Values
use xbench_community.SkySql.{
  SkySqlApi, Service, Credentials, get_port_by_name, get_endpoint_by_name, default_project,
  first_release, latest_version, service_id_of, text_take, is_longer, max_service_name_length,
  service_params, ready_policy,
}
use xbench_community.SkySql.Calls.{Http, post, post_only, delete, get_one, get}

module _ {S : Type 0} (http : Http S) where
  -- What it writes: the bearer token.
  unfoldable pub get_bearer_token : SkySqlApi → Exec S (Option Value)
  unfolding post
  get_bearer_token api = elim api.api_key [
    | none ↦ throw skysql_api_exception
    | some k ↦ do
      r ← post http api (str_append api.auth_url "/api/v1/token") none (
          entry "Authorization" (str (str_append "Token " k))
            (entry "Content-length" (str "0") end))
      pure (Values.get "token" r)
  ]

  -- What it writes: the project's id.
  unfoldable pub set_default_project_id : SkySqlApi → Exec S (Option Value)
  unfolding get default_project
  set_default_project_id api = elim api.project_id [
    | some p ↦ pure (some p)
    | none ↦ do
      projects ← get http api "/organization/v1/projects" none
      lift (default_project projects)
  ]

  unfoldable pub get_latest_version : SkySqlApi → String → Exec S (Option Value)
  unfolding get latest_version
  get_latest_version api topology = do
    versions ←
        get http api "/provisioning/v1/versions"
          (some (entry "topology" (str topology) (entry "limit" (num 100) end)))
    lift (latest_version topology versions)

  unfoldable pub get_latest_release : SkySqlApi → String → Exec S Value
  unfolding get first_release
  get_latest_release api product_name = do
    releases ← get http api "/provisioning/v1/releases" (some (entry "limit" (num 100) end))
    lift (first_release product_name releases)

  -- dacite's `from_dict` for the two data classes
  module _ (service_from : Value → Result Service)
      (credentials_from : Value → Result Credentials) where
    unfoldable pub all_services : Items → Result (List Service)
    all_services Items.nil = ok []
    all_services (Items.cons r res) =
        let rest = all_services res in
        service_from r >>=? λ s. rest >>=? λ services. ok (s ∷ services)

    unfoldable pub get_services : SkySqlApi → Exec S (List Service)
    unfolding get all_services
    get_services api = do
      res ← get http api "/provisioning/v1/services" none
      lift (all_services res)

    unfoldable pub get_service_id_by_name : SkySqlApi → String → Exec S (Option String)
    unfolding get_services service_id_of
    get_service_id_by_name api name = do
      services ← get_services api
      pure (service_id_of name services)

    abbrev pub service_url : String → String → String
    service_url service_id rest =
        str_append "/provisioning/v1/services/" (str_append service_id rest)

    unfoldable pub get_service_by_id : SkySqlApi → String → Exec S Service
    unfolding get_one
    get_service_by_id api service_id = do
      r ← get_one http api (service_url service_id "")
      lift (service_from (dict r))

    -- `wait_until_service_is_ready` as it stands under the decorator
    unfoldable pub check_ready : SkySqlApi → String → Exec S (Unit {0})
    unfolding get_service_by_id
    check_ready api service_id = do
      s ← get_service_by_id api service_id
      if str_eq s.status "ready"
          then pure tt
          else if str_eq s.status "failed"
          then throw skysql_service_failed
          else throw skysql_service_pending

    unfoldable pub wait_until_service_is_ready : SkySqlApi → String → Exec S (Unit {0})
    unfolding check_ready
    wait_until_service_is_ready api service_id =
        retry http.now http.sleep ready_policy (check_ready api service_id)

    -- `kwargs.get("name", "")`; a name that is no text has no length.
    unfoldable pub name_of : Entries → Result String
    name_of kwargs = elim (Values.get "name" kwargs) [
      | none ↦ ok ""
      | some (str s) ↦ ok s
      | some _ ↦ raise type_error
    ]

    unfoldable pub create_service : SkySqlApi → Entries → Exec S Value
    unfolding get_service_id_by_name service_params post name_of text_take is_longer
    create_service api kwargs = do
      name ← lift (name_of kwargs)
      existing ← get_service_id_by_name api (
          if is_longer max_service_name_length name
          then text_take max_service_name_length name
          else name)
      elim existing [
        | some id ↦ pure (str id)
        | none ↦ do
          params ← lift (service_params api kwargs)
          res ← post http api "/provisioning/v1/services" (some (dict params)) end
          pure (elim (Values.get "id" res) [ none ↦ str "" | some v ↦ v ])
      ]

    unfoldable pub delete_service : SkySqlApi → String → Exec S (Unit {0})
    unfolding delete
    delete_service api service_id = delete http api (service_url service_id "")

    unfoldable pub allow_ip : SkySqlApi → String → String → Exec S (Unit {0})
    unfolding post_only wait_until_service_is_ready
    allow_ip api service_id ip_address =
        post_only http api (service_url service_id "/security/allowlist")
          (some (dict (entry "ip_address" (str (str_append ip_address "/32")) end)))
        >> wait_until_service_is_ready api service_id

    unfoldable pub get_default_service_access_parameters :
        SkySqlApi → String → Exec S (String × ℕ × String × String)
    unfolding get_one get_service_by_id get_endpoint_by_name get_port_by_name
    get_default_service_access_parameters api service_id = do
      r ← get_one http api (service_url service_id "/security/credentials")
      c ← lift (credentials_from (dict r))
      s ← get_service_by_id api service_id
      e ← lift (get_endpoint_by_name "primary" s.endpoints)
      p ← lift (get_port_by_name "readwrite" e.ports)
      pure (s.fqdn, p.port, c.password, c.username)

    -- `start` and `stop`
    unfoldable pub power : SkySqlApi → String → String → Exec S (Unit {0})
    unfolding post_only
    power api service_id is_active =
        post_only http api (service_url service_id "/power")
          (some (dict (entry "is_active" (str is_active) end)))
