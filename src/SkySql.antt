-- ===== src/SkySql.antt =====
-- cloud/skysql/skysql_api2.py: the client of the SkySQL API, with cloud/skysql/skysql2_data_model.py.
-- The `requests` library is a parameter, and so is dacite's `from_dict`. A JSON text is a value of
-- the configuration's type, since Python reads both into the same objects. What an operation
-- writes into `self` comes back as a record.
pub mod Calls
pub mod Services
pub mod Ready
pub mod Names
mod Tests
use Prim.Native.String.{◌++◌ as str_append}
use xbench_community.Prelude.{
  ℕ, zero, suc, ◌*◌, String, Bool, true, false, not, Option, some, none, List, [], ◌∷◌, str_eq,
  if◌then◌else◌, ltb, leb, ◌&&◌, ◌==◌,
}
use Prim.Native.Char.{code}
use xbench_community.Exn.{
  Exn, type_error, index_error, key_error, attribute_error, skysql_api_exception,
  skysql_api_client_exception, skysql_api_server_exception, skysql_service_pending,
  skysql_service_failed, requests_read_timeout, requests_connection_error,
}
use xbench_community.Exec.{Result, ok, raise, Exec, pure, throw, lift, ◌>>=◌, ◌>>◌, ◌>>=?◌}
use xbench_community.Retry.{Policy, retry, constant_delay}
use xbench_community.Config.{
  Value, null, bool, num, str, list, dict, Items, Entries, end, entry, get, put,
}
use xbench_community.Config.YamlConfig.{is_truthy, get_of, subscript}

-- What `_api_call` does with the method; any other text is refused.
pub data Method : Type 0 where
  get_method post_method patch_method delete_method other_method : Method

pub record Request : Type 0 where
  pub method : Method
  pub url : String
  pub data_body : Option Value
  pub params : Option Entries
  pub headers : Entries

-- `json_body` is there if the content type names json.
pub record Response : Type 0 where
  pub status_code : ℕ
  pub json_body : Option Value

-- The fields of `SkySQLAPI2`.
pub record SkySqlApi : Type 0 where
  pub api_key : Option String
  pub bearer_token : Option String
  pub project_id : Option Value
  pub region : Value
  pub provider : Value
  pub api_gw : String
  pub auth_url : String

-- `"Bearer " + (self._bearer_token or self.api_key)`
unfoldable pub auth_token : SkySqlApi → Result String
auth_token api = elim api.bearer_token [
  | none ↦ elim api.api_key [ none ↦ raise type_error | some k ↦ ok k ]
  | some t ↦
      if str_eq t "" then elim api.api_key [ none ↦ raise type_error | some k ↦ ok k ] else ok t
]

unfoldable pub auth_headers : SkySqlApi → Result Entries
unfolding auth_token
auth_headers api = auth_token api >>=? λ t. ok (
    entry "Authorization" (str (str_append "Bearer " t))
      (entry "Content-Type" (str "application/json") end))

-- `value[0]`
unfoldable pub first_of : Value → Result Value
first_of (list Items.nil) = raise index_error
first_of (list (Items.cons v l)) = ok v
first_of (str s) = if str_eq s "" then raise index_error else ok (str s)
first_of (dict d) = raise key_error
first_of _ = raise type_error

-- `res.get("errors")[0].get("message")` in the message of an error: only whether it raises counts.
unfoldable pub error_message : Value → Result (Option Value)
unfolding get_of first_of
error_message res = get_of res "errors" >>=? λ errors. elim errors [
  | none ↦ raise type_error
  | some v ↦ first_of v >>=? λ e. get_of e "message"
]

unfoldable pub message_of : Response → Result (Unit {0})
unfolding error_message
message_of r = elim r.json_body [ none ↦ ok tt | some v ↦ error_message v >>=? λ m. ok tt ]

unfoldable pub check_status_code : Response → Result (Unit {0})
unfolding message_of
check_status_code r =
    if ltb r.status_code 300
    then ok tt
    else (message_of r >>=? λ _.
        if leb 400 r.status_code && ltb r.status_code 500
        then raise skysql_api_client_exception
        else if leb 500 r.status_code
        then raise skysql_api_server_exception
        else ok tt)

-- `text.startswith(prefix)`
unfoldable pub has_prefix : String → String → Bool
has_prefix String.[] s = true
has_prefix (String.◌∷◌ c p) String.[] = false
has_prefix (String.◌∷◌ c p) (String.◌∷◌ d s) = (code c == code d) && has_prefix p s

abbrev pub api_policy : List ℕ → Policy
api_policy delays = record {
  exceptions_to_check = requests_read_timeout ∷ requests_connection_error ∷ [];
  exception_to_raise = skysql_api_exception;
  max_delay = 300;
  delays = delays;
}

abbrev pub ready_policy : Policy
ready_policy = record {
  exceptions_to_check = skysql_service_pending ∷ [];
  exception_to_raise = skysql_service_failed;
  max_delay = 3600;
  delays = constant_delay 60 60;
}

pub record ServicePort : Type 0 where
  pub name : String
  pub port : ℕ

pub record ServiceEndpoint : Type 0 where
  pub name : String
  pub ports : List ServicePort

pub record Service : Type 0 where
  pub id : String
  pub name : String
  pub status : String
  pub endpoints : List ServiceEndpoint
  pub fqdn : String

pub record Credentials : Type 0 where
  pub host : String
  pub username : String
  pub password : String

unfoldable pub get_port_by_name : String → List ServicePort → Result ServicePort
get_port_by_name port_name [] = raise skysql_api_exception
get_port_by_name port_name (p ∷ ports) =
    let rest = get_port_by_name port_name ports in if str_eq p.name port_name then ok p else rest

unfoldable pub get_endpoint_by_name : String → List ServiceEndpoint → Result ServiceEndpoint
get_endpoint_by_name name [] = raise skysql_api_exception
get_endpoint_by_name name (e ∷ endpoints) =
    let rest = get_endpoint_by_name name endpoints in if str_eq e.name name then ok e else rest

-- The loop of `set_default_project_id`: the id of the first default project.
unfoldable pub default_project : Items → Result (Option Value)
unfolding get_of is_truthy
default_project Items.nil = raise skysql_api_exception
default_project (Items.cons p projects) =
    let rest = default_project projects in
    get_of p "is_default" >>=? λ d. if is_truthy d then get_of p "id" else rest

unfoldable pub is_str : String → Option Value → Bool
is_str s (some (str t)) = str_eq t s
is_str s _ = false

-- The loop of `get_latest_release`.
unfoldable pub first_release : String → Items → Result Value
unfolding get_of is_truthy is_str
first_release product_name Items.nil = ok (str "")
first_release product_name (Items.cons r releases) =
    let rest = first_release product_name releases in
    get_of r "product_name" >>=? λ p. get_of r "is_active" >>=? λ a.
    if is_str product_name p && is_truthy a
    then (get_of r "version" >>=? λ v. elim v [ none ↦ ok (str "") | some x ↦ ok x ])
    else rest

-- `get_latest_version` on the versions that the server returns
unfoldable pub latest_version : String → Items → Result (Option Value)
unfolding get_of
latest_version topology versions =
    if str_eq topology "xpand-pg"
    then ok (some (str "6.1.1"))
    else elim versions [ Items.nil ↦ raise skysql_api_exception | Items.cons v l ↦ get_of v "name" ]

-- The loop of `get_service_id_by_name`.
unfoldable pub service_id_of : String → List Service → Option String
service_id_of name [] = none
service_id_of name (s ∷ services) =
    let rest = service_id_of name services in if str_eq s.name name then some s.id else rest

-- `name[:n]`, and whether `len(name) > n`
unfoldable pub text_take : ℕ → String → String
text_take zero s = ""
text_take (suc n) String.[] = ""
text_take (suc n) (String.◌∷◌ c s) = String.◌∷◌ c (text_take n s)

unfoldable pub is_longer : ℕ → String → Bool
is_longer n String.[] = false
is_longer zero (String.◌∷◌ c s) = true
is_longer (suc n) (String.◌∷◌ c s) = is_longer n s

abbrev pub max_service_name_length : ℕ
max_service_name_length = 24

-- `{key: kwargs[key] for key in names}`
unfoldable pub picked : List String → Entries → Result Entries
unfolding subscript
picked [] kwargs = ok end
picked (k ∷ names) kwargs =
    let rest = picked names kwargs in subscript k kwargs >>=? λ v. rest >>=? λ d. ok (entry k v d)

abbrev pub service_param_names : List String
service_param_names =
    "name" ∷ "service_type" ∷ "version" ∷ "nodes" ∷ "size" ∷ "topology" ∷ "storage" ∷ "volume_iops"
    ∷ "volume_type" ∷ "ssl_enabled" ∷ []

abbrev pub value_of : Option Value → Value
value_of none = null
value_of (some v) = v

-- The body of the request that creates a service. The service is named as `kwargs` says, not by
-- the shortened name.
unfoldable pub service_params : SkySqlApi → Entries → Result Entries
unfolding picked
service_params api kwargs = picked service_param_names kwargs >>=? λ d. ok (
    put "provider" api.provider (
      put "region" api.region
        (put "project_id" (value_of api.project_id) (put "architecture" (str "amd64") d))))
