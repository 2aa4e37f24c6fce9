-- ===== src/Config/YamlConfig/Defaults.antt =====
-- What `YamlConfig.get_key` returns, with the defaults of the file and without.
use xbench_community.Prelude.{
  String, true, false, Option, some, none, ◌≡◌, ◌↔◌, refl, arith, ap, sym, ◌∙◌,
}
use xbench_community.Exec.{Result, ok, raise, ◌>>=?◌}
use xbench_community.Config.{
  Value, null, dict, Entries, end, entry, get, union, save_dict_merge, is_dict,
}
use xbench_community.Config.Keys.{IsUnique, or_else, get-union}
use xbench_community.Config.YamlConfig.{
  YamlConfig, select, with_defaults, add_defaults, is_truthy, is_empty, first_item, checked, finish,
  get_key,
}

is_empty-null : is_empty null ≡ true
unfolding is_empty
is_empty-null = refl

finish_iff :
    (y : YamlConfig) (v : Value) (r : Result (Option Value))
    → ((r >>=? finish y false) ≡ ok v) ↔ ((r ≡ ok (some v)) × (is_empty v ≡ false))
unfolding finish with_defaults checked
finish_iff y v (raise e) = (λ h. cc, λ h. cc)
finish_iff y v (ok none) = (λ h. cc, λ h. cc)
finish_iff y v (ok (some null)) = (λ h. cc, λ h. ground (arith, is_empty-null))
finish_iff y v (ok (some w)) = (λ h. ground arith, λ h. ground arith)

-- Without defaults, `get_key` returns a value exactly when the keys lead to that value and it is
-- not empty.
get_key_iff :
    (y : YamlConfig) (root leaf : Option String) (v : Value)
    → (get_key y root leaf false ≡ ok v)
      ↔ ((select y.yaml_config_dict root leaf ≡ ok (some v)) × (is_empty v ≡ false))
unfolding get_key
get_key_iff y root leaf v = finish_iff y v (select y.yaml_config_dict root leaf)

add_defaults_lem :
    (defaults ret : Entries) → add_defaults (dict defaults) ret ≡ ok (dict (union defaults ret))
unfolding add_defaults save_dict_merge
add_defaults_lem defaults ret = ground arith

with_defaults_lem :
    (defaults ret : Entries) (k : String)
    → IsUnique ret
    → (d : Entries) × (with_defaults true (some (dict defaults)) (dict ret) ≡ ok (dict d))
      × (get k d ≡ or_else (get k ret) (get k defaults))
unfolding with_defaults is_truthy get
with_defaults_lem end ret k u = (ret, refl, ground arith)
with_defaults_lem (entry j w defaults) ret k u = (
  union (entry j w defaults) ret,
  add_defaults_lem (entry j w defaults) ret,
  get-union k (entry j w defaults) ret u,
)

accepted : (d : Entries) (v : Value) → checked (dict d) ≡ ok v → v ≡ dict d
unfolding checked
accepted d v h = ground arith

get_key_lem :
    (y : YamlConfig) (root leaf : Option String) (ret : Entries)
    → select y.yaml_config_dict root leaf ≡ ok (some (dict ret))
    → get_key y root leaf true ≡ (with_defaults true y.defaults (dict ret) >>=? checked)
unfolding get_key finish
get_key_lem y root leaf ret selected = ap (λ r. r >>=? finish y true) selected

-- Where the keys lead to a dictionary and the file's defaults are one, a dictionary that get_key
-- returns has for each key what the dictionary in the file has, and else what the defaults have,
-- whether there is a dictionary within it or not.
pub get_key-defaults :
    (y : YamlConfig) (root leaf : Option String) (defaults ret : Entries) (v : Value) (k : String)
    → y.defaults ≡ some (dict defaults)
    → select y.yaml_config_dict root leaf ≡ ok (some (dict ret))
    → IsUnique ret
    → get_key y root leaf true ≡ ok v
    → (d : Entries) × (v ≡ dict d) × (get k d ≡ or_else (get k ret) (get k defaults))
get_key-defaults y root leaf defaults ret v k has selected u h =
    let (d, built, found) = with_defaults_lem defaults ret k u in
    let merged : with_defaults true y.defaults (dict ret) ≡ ok (dict d) =
      ap (λ o. with_defaults true o (dict ret)) has ∙ built in
    let full : checked (dict d) ≡ ok v =
      sym (ap (λ r. r >>=? checked) merged) ∙ sym (get_key_lem y root leaf ret selected) ∙ h in
    (d, accepted d v full, found)

is_empty-first :
    (k : String) (v : Value) (rest : Entries)
    → is_dict v ≡ false
    → is_empty v ≡ false
    → is_empty (dict (entry k v rest)) ≡ false
unfolding is_empty is_dict first_item
is_empty-first k (dict d) rest l f = cc
is_empty-first k v rest l f = f

-- A dictionary whose first value is a leaf that is not empty is returned as it stands, whatever
-- the values behind it are.
get_key-first :
    (y : YamlConfig) (root leaf : Option String) (k : String) (v : Value) (rest : Entries)
    → is_dict v ≡ false
    → is_empty v ≡ false
    → select y.yaml_config_dict root leaf ≡ ok (some (dict (entry k v rest)))
    → get_key y root leaf false ≡ ok (dict (entry k v rest))
get_key-first y root leaf k v rest leaf_value full selected =
    (get_key_iff y root leaf (dict (entry k v rest))).1
      (selected, is_empty-first k v rest leaf_value full)
