-- ===== src/Config/Tests.antt =====
-- Runs on small configurations, and the theorems of this folder at concrete inputs.
use xbench_community.Prelude.{
  String, true, some, none, List, [], ◌∷◌, ◌≡◌, refl, split_on, without_char, starts_with_char, ◌⊎◌,
  str_eq, if◌then◌else◌,
}
use xbench_community.Exn.{is_a, is_any_of, name_error, zero_division_error, xbench_exception}
use xbench_community.Exec.{Result, ok, raise, RaisesOnly}
use xbench_community.Config.{
  Value, str, dict, Entries, end, entry, get, put, union, extender, is_dict,
}
use xbench_community.Config.Keys.{or_else}
use xbench_community.Config.Extend.{follow, is_free, extender-leaf}
use xbench_community.Config.Params.{
  internal_eval, nest, parse_unknown, add_args, add_arg, add_parts, helper_splitter,
}
use xbench_community.Config.Params.Last.{Sets, parse_unknown-last}
use xbench_community.Config.Params.Errors.{IsEvalFailure, parse_unknown-raises}
use xbench_community.Config.YamlConfig.{
  YamlConfig, get_key, select, is_empty, finish, checked, with_defaults,
}
use xbench_community.Config.YamlConfig.Defaults.{get_key-defaults}

abbrev port : String → Entries
port p = entry "config" (dict (entry "port" (str p) end)) end

abbrev base : Entries
base = entry "backend" (dict (port "3306")) (entry "region" (str "west") end)

abbrev extra : Entries
extra = entry "backend" (dict (port "5001")) end

extender_runs :
    extender base extra ≡ entry "backend" (dict (port "5001")) (entry "region" (str "west") end)
unfolding extender get put
extender_runs = refl

abbrev backend_port : List String
backend_port = "backend" ∷ "config" ∷ "port" ∷ []

extender-leaf_example : follow backend_port (some (dict (extender base extra))) ≡ some (str "5001")
unfolding follow is_dict get
extender-leaf_example =
    extender-leaf backend_port base extra (str "5001") (refl, (refl, (refl, tt, tt), tt), tt) refl
      refl

-- Every text is taken for an unknown name.
abbrev no_names : String → Result Value
no_names s = raise name_error

parse_unknown_runs : parse_unknown no_names ("--backend.config.port=5001" ∷ []) ≡ ok extra
unfolding parse_unknown extender get put is_a is_any_of starts_with_char split_on without_char
parse_unknown_runs = refl

abbrev sets_host :
    Sets no_names "--backend.config.host=db1" "backend" ("config" ∷ "host" ∷ []) (str "db1")
unfolding split_on without_char starts_with_char internal_eval is_any_of
sets_host = record {
  text = "db1";
  name = "--backend.config.host";
  dashed = refl;
  two_parts = refl;
  path = refl;
  evaluates = refl;
}

parse_unknown-last_example :
    (result : Entries) × (parse_unknown no_names
        ("--backend.config.port=5001" ∷ "--backend.config.host=db1" ∷ [])
      ≡ ok result)
    × (follow ("backend" ∷ "config" ∷ "host" ∷ []) (some (dict result)) ≡ some (str "db1"))
    × ((p : List String)
        → is_free p (some (dict (nest no_names "backend" ("config" ∷ "host" ∷ []) (str "db1"))))
          ≡ true
        → follow p (some (dict result)) ≡ follow p (some (dict extra)))
unfolding is_dict
parse_unknown-last_example =
    parse_unknown-last no_names ("--backend.config.port=5001" ∷ []) extra
      "--backend.config.host=db1" "backend" ("config" ∷ "host" ∷ []) (str "db1") parse_unknown_runs
      sets_host refl

malformed : parse_unknown no_names ("backend=1" ∷ []) ≡ raise xbench_exception
unfolding parse_unknown is_a starts_with_char
malformed = refl

-- An eval that divides by zero on one text, and refuses the others.
abbrev dividing : String → Result Value
dividing s = if str_eq s "1/0" then raise zero_division_error else raise name_error

parse_unknown_divides : parse_unknown dividing ("--port=1/0" ∷ []) ≡ raise zero_division_error
unfolding parse_unknown add_args add_arg add_parts helper_splitter internal_eval is_a is_any_of
    starts_with_char split_on without_char
parse_unknown_divides = refl

parse_unknown-raises_example :
    RaisesOnly
      (λ e. (e ≡ xbench_exception) ⊎ IsEvalFailure dividing e)
      (parse_unknown dividing ("--port=1/0" ∷ []))
parse_unknown-raises_example = parse_unknown-raises dividing ("--port=1/0" ∷ [])

abbrev conf : YamlConfig
conf = record {
  yaml_config_dict =
      entry "itest" (dict (entry "cloud" (str "aws") (entry "driver" (dict end) end))) end;
  defaults = some (dict (entry "cloud" (str "gcp") (entry "region" (str "west") end)));
}

abbrev driver : Entries
driver = entry "cloud" (str "aws") (entry "driver" (dict end) end)

get_key-defaults_example :
    (d : Entries) × (dict
        (union (entry "cloud" (str "gcp") (entry "region" (str "west") end)) driver)
      ≡ dict d)
    × (get "region" d
        ≡ or_else
            (get "region" driver)
            (get "region" (entry "cloud" (str "gcp") (entry "region" (str "west") end))))
unfolding get_key finish checked union get put select with_defaults is_empty
get_key-defaults_example =
    get_key-defaults conf (some "itest") none
      (entry "cloud" (str "gcp") (entry "region" (str "west") end)) driver
      (dict (union (entry "cloud" (str "gcp") (entry "region" (str "west") end)) driver)) "region"
      refl refl (refl, tt, (refl, tt, tt)) refl
