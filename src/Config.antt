-- ===== src/Config.antt =====
-- Configuration values as Python reads them from yaml: null, booleans, numbers (natural ones),
-- texts, lists, and dictionaries as association lists in insertion order.
pub mod Keys
pub mod Extend
pub mod Params
pub mod YamlConfig
mod Tests
use xbench_community.Prelude.{
  ℕ, zero, suc, String, str_eq, Bool, true, false, ◌||◌, Option, none, some, List, [], ◌∷◌,
  if◌then◌else◌,
}

mutual
  pub data Value : Type 0 where
    null : Value
    bool : Bool → Value
    num : ℕ → Value
    str : String → Value
    list : Items → Value
    dict : Entries → Value

  pub data Items : Type 0 where
    nil : Items
    cons : Value → Items → Items

  pub data Entries : Type 0 where
    end : Entries
    entry : String → Value → Entries → Entries

-- `d.get(k)`
unfoldable pub get : String → Entries → Option Value
get k end = none
get k (entry j v d) = if str_eq j k then some v else get k d

-- `d[k] = v`
unfoldable pub put : String → Value → Entries → Entries
put k v end = entry k v end
put k v (entry j w d) = if str_eq j k then entry j v d else entry j w (put k v d)

-- `a | b`, and what `a.update(b)` leaves in `a`
unfoldable pub union : Entries → Entries → Entries
unfolding put
union a end = a
union a (entry k v b) = union (put k v a) b

unfoldable pub is_dict : Value → Bool
is_dict (dict d) = true
is_dict _ = false

-- xbench/common.py: `extender`. The first argument is changed in place there, and returned.
unfoldable mutual
  pub extender : Entries → Entries → Entries
  extender base end = base
  extender base (entry key v extra) = extender (put key (extended v (get key base)) base) extra

  -- `extra[key]`, merged into a dict that `base` has under this key
  pub extended : Value → Option Value → Value
  extended null old = null
  extended (bool b) old = bool b
  extended (num n) old = num n
  extended (str s) old = str s
  extended (list l) old = list l
  extended (dict e) none = dict e
  extended (dict e) (some null) = dict e
  extended (dict e) (some (bool b)) = dict e
  extended (dict e) (some (num n)) = dict e
  extended (dict e) (some (str s)) = dict e
  extended (dict e) (some (list l)) = dict e
  extended (dict e) (some (dict b)) = dict (extender b e)

-- common/common.py: `simple_dict_items`
unfoldable pub simple_dict_items : Entries → Entries
unfolding is_dict
simple_dict_items end = end
simple_dict_items (entry k v d) =
    let rest = simple_dict_items d in if is_dict v then rest else entry k v rest

-- common/common.py: `save_dict_merge`, also a method of `YamlConfig`
unfoldable pub save_dict_merge : Entries → Option Entries → Entries
unfolding union
save_dict_merge dict1 none = union dict1 end
save_dict_merge dict1 (some dict2) = union dict1 dict2
