-- ===== src/Config/Params/Last.antt =====
-- The last parameter of the command line wins, and leaves the others alone.
use xbench_community.Prelude.{
  String, true, false, List, [], ◌∷◌, ◌++◌, split_on, without_char, starts_with_char, some, ◌≡◌,
  refl, arith,
}
use text.Mathlib.TextPositions.{eq_refl}
use xbench_community.Exec.{Result, ok, raise, ◌>>=?◌}
use xbench_community.Config.{Value, Entries, end, dict, extender, is_dict, get}
use xbench_community.Config.Keys.{IsPlain, IsUnique}
use xbench_community.Config.Extend.{follow, is_free, extender-leaf, extender-free}
use xbench_community.Config.Params.{internal_eval, nest, add_arg, add_args, parse_unknown}

module _ (eval : String → Result Value) where
  -- The argument is `--key.keys...=text`, and the text evaluates to the value.
  pub record Sets (arg key : String) (keys : List String) (v : Value) : Type 0 where
    pub text : String
    pub name : String
    pub dashed : starts_with_char b'-' arg ≡ true
    pub two_parts : split_on b'=' arg ≡ (name, text ∷ [])
    pub path : split_on b'.' (without_char b'-' name) ≡ (key, keys)
    pub evaluates : internal_eval eval text ≡ ok v

  nest-IsUnique :
      (key : String) (keys : List String) (v : Value) → IsPlain v → IsUnique (nest eval key keys v)
  unfolding nest get
  nest-IsUnique key [] v u = (refl, u, tt)
  nest-IsUnique key (key' ∷ keys) v u = (refl, nest-IsUnique key' keys v u, tt)

  follow-nest :
      (key : String) (keys : List String) (v : Value)
      → follow (key ∷ keys) (some (dict (nest eval key keys v))) ≡ some v
  unfolding nest get follow
  follow-nest key [] v = rw (eq_refl key)
  follow-nest key (key' ∷ keys) v = rw (eq_refl key) (follow-nest key' keys v)

  add_arg_lem :
      (params : Entries) (arg key : String) (keys : List String) (v : Value)
      → Sets arg key keys v
      → add_arg eval params arg ≡ ok (extender params (nest eval key keys v))
  unfolding add_arg
  add_arg_lem params arg key keys v s = rw s.dashed (rw s.two_parts (rw s.path (rw s.evaluates)))

  add_args-append :
      (params : Entries) (args : List String) (arg : String)
      → add_args eval params (args ++ arg ∷ [])
        ≡ (add_args eval params args >>=? λ p. add_arg eval p arg)
  unfolding add_args
  add_args-append params [] arg = bind-ok (add_arg eval params arg)
    where
      bind-ok : (r : Result Entries) → (r >>=? λ p. ok p) ≡ r
      bind-ok (ok p) = refl
      bind-ok (raise e) = refl
  add_args-append params (a ∷ args) arg =
      after (add_arg eval params a) (λ p. add_args-append p args arg)
    where
      after :
          (r : Result Entries)
          → ((p : Entries)
              → add_args eval p (args ++ arg ∷ [])
                ≡ (add_args eval p args >>=? λ q. add_arg eval q arg))
          → (r >>=? λ p. add_args eval p (args ++ arg ∷ []))
            ≡ ((r >>=? λ p. add_args eval p args) >>=? λ q. add_arg eval q arg)
      after (ok p) ih = ih p
      after (raise e) ih = refl

  leaf-IsPlain : (v : Value) → is_dict v ≡ false → IsPlain v
  unfolding is_dict
  leaf-IsPlain (dict d) h = cc
  leaf-IsPlain _ h = tt

  parse_unknown-ok :
      (args : List String) (p : Entries)
      → parse_unknown eval args ≡ ok p
      → add_args eval end args ≡ ok p
  unfolding parse_unknown
  parse_unknown-ok args p h = ground arith

  parse_unknown-of_ok :
      (args : List String) (p : Entries)
      → add_args eval end args ≡ ok p
      → parse_unknown eval args ≡ ok p
  unfolding parse_unknown
  parse_unknown-of_ok args p h = ground arith

  -- If the parameters so far are accepted, and one more sets a path of keys to a value that is no
  -- dictionary, then all are accepted; the path has that value, and every path that the new
  -- parameter neither sets nor stands below keeps its value.
  pub parse_unknown-last :
      (args : List String) (params : Entries) (arg key : String) (keys : List String) (v : Value)
      → parse_unknown eval args ≡ ok params
      → Sets arg key keys v
      → is_dict v ≡ false
      → (result : Entries) × (parse_unknown eval (args ++ arg ∷ []) ≡ ok result)
        × (follow (key ∷ keys) (some (dict result)) ≡ some v)
        × ((p : List String)
            → is_free p (some (dict (nest eval key keys v))) ≡ true
            → follow p (some (dict result)) ≡ follow p (some (dict params)))
  parse_unknown-last args params arg key keys v h s leaf =
      let extra = nest eval key keys v in
      let plain = nest-IsUnique key keys v (leaf-IsPlain v leaf) in
      (
        extender params extra,
        parse_unknown-of_ok (args ++ arg ∷ []) (extender params extra) (
            rw add_args-append
              (rw (parse_unknown-ok args params h) (add_arg_lem params arg key keys v s))),
        extender-leaf (key ∷ keys) params extra v plain leaf (follow-nest key keys v),
        λ p. extender-free p params extra plain,
      )
