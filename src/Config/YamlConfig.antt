-- ===== src/Config/YamlConfig.antt =====
-- lib/yaml_config/yaml_config.py: `YamlConfig.get_key` on a file that has been read. Reading and
-- parsing the file is PyYAML's.
pub mod Defaults
use xbench_community.Prelude.{
  zero, suc, String, str_eq, Bool, true, false, ◌||◌, ◌&&◌, not, Option, none, some, if◌then◌else◌,
}
use xbench_community.Exn.{Exn, key_error, type_error, attribute_error, yaml_config_exception}
use xbench_community.Exec.{Result, ok, raise, ◌>>=?◌}
use xbench_community.Config.{
  Value, null, bool, num, str, list, dict, Items, Entries, end, entry, get, union, is_dict,
  save_dict_merge,
}

pub record YamlConfig : Type 0 where
  pub yaml_config_dict : Entries
  pub defaults : Option Value

-- `if root`
unfoldable pub is_given : Option String → Bool
is_given none = false
is_given (some s) = not (str_eq s "")

-- `if self.defaults`
unfoldable pub is_truthy : Option Value → Bool
is_truthy none = false
is_truthy (some null) = false
is_truthy (some (bool b)) = b
is_truthy (some (num zero)) = false
is_truthy (some (num (suc n))) = true
is_truthy (some (str s)) = not (str_eq s "")
is_truthy (some (list Items.nil)) = false
is_truthy (some (list (Items.cons v l))) = true
is_truthy (some (dict end)) = false
is_truthy (some (dict (entry k v d))) = true

-- `config[key]`
unfoldable pub subscript : String → Entries → Result Value
subscript k d = elim (get k d) [ none ↦ raise key_error | some v ↦ ok v ]

-- `value.get(key, None)`
unfoldable pub get_of : Value → String → Result (Option Value)
get_of (dict d) k = ok (get k d)
get_of _ k = raise attribute_error

unfoldable pub text : Option String → String
text none = ""
text (some s) = s

-- The choice of `ret`.
unfoldable pub select : Entries → Option String → Option String → Result (Option Value)
unfolding is_given subscript get_of text
select config root leaf =
    if is_given root && is_given leaf
    then (subscript (text root) config >>=? λ v. get_of v (text leaf))
    else if is_given root && not (is_given leaf)
    then ok (get (text root) config)
    else if is_given leaf && not (is_given root)
    then ok (get (text leaf) config)
    else ok (some (dict config))

-- `any(isinstance(v, dict) for k, v in ret.items())`
unfoldable pub has_dict : Entries → Bool
unfolding is_dict
has_dict end = false
has_dict (entry k v d) = is_dict v || has_dict d

-- `self.defaults | ret.copy() if any(...) else self.save_dict_merge(...)`, where `defaults` is
-- truthy. What is no dictionary has no `|` with one, and no `copy` that can be updated.
unfoldable pub add_defaults : Value → Entries → Result Value
unfolding has_dict save_dict_merge union
add_defaults (dict defaults) ret =
    if has_dict ret
    then ok (dict (union defaults ret))
    else ok (dict (save_dict_merge defaults (some ret)))
add_defaults _ ret = if has_dict ret then raise type_error else raise attribute_error

unfoldable pub with_defaults : Bool → Option Value → Value → Result Value
unfolding is_truthy add_defaults
with_defaults true (some defaults) (dict ret) =
    if is_truthy (some defaults) then add_defaults defaults ret else ok (dict ret)
with_defaults _ _ ret = ok ret

unfoldable pub is_empty_simple_key : Value → Bool
is_empty_simple_key (str s) = str_eq s ""
is_empty_simple_key null = true
is_empty_simple_key _ = false

-- The value of the first pair that common/common.py: `recursive_items` yields.
unfoldable mutual
  pub first_item : Entries → Option Value
  first_item end = none
  first_item (entry k v d) = elim (first_of v) [ some x ↦ some x | none ↦ first_item d ]

  pub first_of : Value → Option Value
  first_of null = some null
  first_of (bool b) = some (bool b)
  first_of (num n) = some (num n)
  first_of (str s) = some (str s)
  first_of (list l) = some (list l)
  first_of (dict d) = first_item d

-- `is_empty` returns from within its loop over `recursive_items`, so it sees the first pair only.
-- Where there is none it returns None, which is no empty value.
unfoldable pub is_empty : Value → Bool
unfolding first_item is_empty_simple_key
is_empty (dict d) = elim (first_item d) [ none ↦ false | some v ↦ is_empty_simple_key v ]
is_empty v = is_empty_simple_key v

unfoldable pub checked : Value → Result Value
checked v = if is_empty v then raise yaml_config_exception else ok v

-- The block under `if ret is not None`, and its `else`.
unfoldable pub finish : YamlConfig → Bool → Option Value → Result Value
finish y use_defaults none = raise yaml_config_exception
finish y use_defaults (some null) = raise yaml_config_exception
finish y use_defaults (some v) = with_defaults use_defaults y.defaults v >>=? checked

unfoldable pub get_key : YamlConfig → Option String → Option String → Bool → Result Value
get_key y root leaf use_defaults = select y.yaml_config_dict root leaf >>=? finish y use_defaults
