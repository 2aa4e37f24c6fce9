-- ===== src/Config/Extend.antt =====
-- What `extender` does at every path of keys.
use mathlib.Core.Path.{subst}
use xbench_community.Prelude.{
  String, str_eq, str_eq_iff, if◌then◌else◌, Bool, true, false, Option, none, some, List, [], ◌∷◌,
  ◌≡◌, refl, arith, ◌∙◌, ap, sym,
}
use xbench_community.Config.{
  Entries, end, entry, Value, get, put, null, dict, is_dict, extender, extended,
}
use xbench_community.Config.Keys.{get-put, IsPlain, IsUnique}

abbrev pub entries_of : Option Value → Entries
entries_of (some (dict d)) = d
entries_of _ = end

-- `o[k1][k2]...`, where there is such a value
unfoldable pub follow : List String → Option Value → Option Value
unfolding get
follow [] o = o
follow (k ∷ p) o = follow p (get k (entries_of o))

-- No value stands at the path, and every value on the way to it is a dictionary.
unfoldable pub is_free : List String → Option Value → Bool
is_free p none = true
is_free [] (some v) = false
is_free (k ∷ p) (some (dict d)) = is_free p (get k d)
is_free (k ∷ p) (some _) = false

abbrev merged : Option Value → Option Value → Option Value
merged none old = old
merged (some v) old = some (extended v old)

get-extender :
    (k : String) (b e : Entries) → IsUnique e → get k (extender b e) ≡ merged (get k e) (get k b)
unfolding extender get
get-extender k b end u = refl
get-extender k b (entry j v e) u =
    get-extender k (put j (extended v (get j b)) b) e u.2
    ∙ ground (arith, get-put j k (extended v (get j b)) b, str_eq_iff j k, u.0)

follow-none : (p : List String) → follow p none ≡ none
unfolding follow get
follow-none [] = refl
follow-none (k ∷ p) = follow-none p

follow-is_free : (p : List String) (o : Option Value) → is_free p o ≡ true → follow p o ≡ none
unfolding follow is_free get
follow-is_free p none f = follow-none p
follow-is_free [] (some v) f = cc
follow-is_free (k ∷ p) (some (dict d)) f = follow-is_free p (get k d) f
follow-is_free (k ∷ p) (some null) f = follow-none p
follow-is_free (k ∷ p) (some _) f = follow-none p

abbrev IsPlainOption : Option Value → Type 0
IsPlainOption none = Unit
IsPlainOption (some v) = IsPlain v

get-IsPlainOption : (k : String) (d : Entries) → IsUnique d → IsPlainOption (get k d)
unfolding get
get-IsPlainOption k end u = tt
get-IsPlainOption k (entry j w d) u =
    elim (str_eq j k) as (λ b. IsPlainOption (if b then some w else get k d)) [
      | true ↦ u.1
      | false ↦ get-IsPlainOption k d u.2
    ]

get-IsPlain : (k : String) (d : Entries) {v : Value} → IsUnique d → get k d ≡ some v → IsPlain v
get-IsPlain k d u e = subst IsPlainOption e (get-IsPlainOption k d u)

abbrev is_some_dict : Option Value → Bool
unfolding is_dict
is_some_dict none = false
is_some_dict (some v) = is_dict v

-- One key further down, where both values are dictionaries.
follow-extended_dict :
    (k : String) (p : List String) (b e : Entries)
    → IsUnique e
    → follow (k ∷ p) (some (extended (dict e) (some (dict b))))
      ≡ follow p (merged (get k e) (get k b))
unfolding follow extender
follow-extended_dict k p b e u = ap (follow p) (get-extender k b e u)

follow-merged_leaf :
    (p : List String) (v : Value) (x old : Option Value)
    → ((w : Value) → x ≡ some w → IsPlain w)
    → ((w : Value)
        → IsPlain w
        → follow p (some w) ≡ some v
        → follow p (some (extended w old)) ≡ some v)
    → follow p x ≡ some v
    → follow p (merged x old) ≡ some v
follow-merged_leaf p v none old plain rec h = cc (follow-none p)
follow-merged_leaf p v (some w) old plain rec h = rec w (plain w refl) h

follow-extended_leaf :
    (p : List String) (w v : Value) (o : Option Value)
    → IsPlain w
    → is_dict v ≡ false
    → follow p (some w) ≡ some v
    → follow p (some (extended w o)) ≡ some v
unfolding follow extender is_dict get
follow-extended_leaf [] (dict e) v o u leaf h = cc (ap (λ (x : Option Value). is_some_dict x) h)
follow-extended_leaf (k ∷ p) (dict e) v (some (dict b)) u leaf h =
    follow-extended_dict k p b e u
    ∙ follow-merged_leaf p v (get k e) (get k b) (λ w. get-IsPlain k e u)
        (λ w plain. follow-extended_leaf p w v (get k b) plain leaf) h
follow-extended_leaf p w v o u leaf h = h

-- What stands in the second dictionary at a path of keys, and is no dictionary itself, stands
-- there in the result of `extender`.
pub extender-leaf :
    (p : List String) (base extra : Entries) (v : Value)
    → IsUnique extra
    → is_dict v ≡ false
    → follow p (some (dict extra)) ≡ some v
    → follow p (some (dict (extender base extra))) ≡ some v
unfolding extender
extender-leaf p base extra v u leaf h =
    follow-extended_leaf p (dict extra) v (some (dict base)) u leaf h

follow-merged_free :
    (p : List String) (x old : Option Value)
    → ((w : Value) → x ≡ some w → IsPlain w)
    → ((w : Value)
        → IsPlain w
        → is_free p (some w) ≡ true
        → follow p (some (extended w old)) ≡ follow p old)
    → is_free p x ≡ true
    → follow p (merged x old) ≡ follow p old
follow-merged_free p none old plain rec h = refl
follow-merged_free p (some w) old plain rec h = rec w (plain w refl) h

follow-extended_free :
    (p : List String) (w : Value) (o : Option Value)
    → IsPlain w
    → is_free p (some w) ≡ true
    → follow p (some (extended w o)) ≡ follow p o
unfolding follow extender is_free get
follow-extended_free [] w o u f = cc
follow-extended_free (k ∷ p) (dict e) (some (dict b)) u f =
    follow-extended_dict k p b e u
    ∙ follow-merged_free p (get k e) (get k b) (λ w. get-IsPlain k e u)
        (λ w plain. follow-extended_free p w (get k b) plain) f
follow-extended_free (k ∷ p) (dict e) none u f = follow-is_free p (get k e) f ∙ sym (follow-none p)
follow-extended_free (k ∷ p) (dict e) (some _) u f =
    follow-is_free p (get k e) f ∙ sym (follow-none p)
follow-extended_free (k ∷ p) w o u f = cc

-- Where the second dictionary neither sets the path nor a value above it, the result of
-- `extender` has what stood in the first.
pub extender-free :
    (p : List String) (base extra : Entries)
    → IsUnique extra
    → is_free p (some (dict extra)) ≡ true
    → follow p (some (dict (extender base extra))) ≡ follow p (some (dict base))
unfolding extender
extender-free p base extra u f = follow-extended_free p (dict extra) (some (dict base)) u f
