-- ===== src/Config/Keys.antt =====
-- Lookups in dictionaries after assignments and unions.
use xbench_community.Prelude.{
  String, str_eq, str_eq_iff, Option, none, some, ◌≡◌, refl, arith, if◌then◌else◌, ◌∙◌,
}
use xbench_community.Config.{
  Entries, end, entry, Value, get, put, union, null, bool, num, str, list, dict,
}

pub get-put :
    (k j : String) (v : Value) (d : Entries)
    → get j (put k v d) ≡ (if str_eq k j then some v else get j d)
unfolding get put
get-put k j v end = refl
get-put k j v (entry i w d) =
    ground (arith, str_eq_iff k j, str_eq_iff i k, str_eq_iff i j, get-put k j v d)

-- No key stands twice in a dictionary, at any depth, as in Python.
abbrev mutual
  pub IsPlain : Value → Type 0
  IsPlain null = Unit
  IsPlain (bool b) = Unit
  IsPlain (num n) = Unit
  IsPlain (str s) = Unit
  IsPlain (list l) = Unit
  IsPlain (dict d) = IsUnique d

  pub IsUnique : Entries → Type 0
  IsUnique end = Unit
  IsUnique (entry k v d) = (get k d ≡ none) × IsPlain v × IsUnique d

-- What is found in the second dictionary, and else in the first.
abbrev pub or_else : Option Value → Option Value → Option Value
or_else none old = old
or_else (some v) old = some v

pub get-union :
    (k : String) (a b : Entries) → IsUnique b → get k (union a b) ≡ or_else (get k b) (get k a)
unfolding get union
get-union k a end u = refl
get-union k a (entry j v b) u =
    get-union k (put j v a) b u.2 ∙ ground (arith, get-put j k v a, str_eq_iff j k, u.0)
