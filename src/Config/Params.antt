-- ===== src/Config/Params.antt =====
-- xbench/common.py: parameters such as `--backend.config.port=3306` on the command line. `eval` is
-- Python's, a parameter of the model.
pub mod Last
pub mod Errors
use xbench_community.Prelude.{
  String, Bool, true, false, List, [], ◌∷◌, ◌++◌, if◌then◌else◌, split_on, without_char,
  starts_with_char, str_eq, Option, some, none,
}
use xbench_community.Exn.{
  Exn, is_a, is_any_of, value_error, name_error, syntax_error, xbench_exception,
}
use xbench_community.Exec.{Result, ok, raise, ◌>>=?◌}
use xbench_community.Config.{Value, Entries, end, entry, dict, extender}

module _ (eval : String → Result Value) where
  -- What `eval` refuses as no expression is taken as a text.
  unfoldable pub internal_eval : String → Result Value
  internal_eval s = elim (eval s) [
    | ok v ↦ ok v
    | raise e ↦
        if is_any_of e (value_error ∷ name_error ∷ syntax_error ∷ [])
        then ok (Value.str s)
        else raise e
  ]

  -- `helper_splitter` splits at the first separator and calls itself on the rest: the parts
  -- between the separators become nested keys.
  unfoldable pub nest : String → List String → Value → Entries
  nest key [] v = entry key v end
  nest key (key' ∷ keys) v = entry key (dict (nest key' keys v)) end

  unfoldable pub helper_splitter : String → String → Result Entries
  unfolding nest internal_eval
  helper_splitter string val =
      let (key, keys) = split_on b'.' string in internal_eval val >>=? λ v. ok (nest key keys v)

  -- `k, v = arg.split("=")` wants two parts exactly.
  unfoldable pub add_parts : Entries → String × List String → Result Entries
  unfolding helper_splitter
  add_parts params (k, []) = raise value_error
  add_parts params (k, v ∷ []) =
      helper_splitter (without_char b'-' k) v >>=? λ p. ok (extender params p)
  add_parts params (k, _ ∷ _ ∷ _) = raise value_error

  -- The body of the loop of `parse_unknown`.
  unfoldable pub add_arg : Entries → String → Result Entries
  unfolding add_parts
  add_arg params arg =
      if starts_with_char b'-' arg then add_parts params (split_on b'=' arg) else raise value_error

  unfoldable pub add_args : Entries → List String → Result Entries
  unfolding add_arg
  add_args params [] = ok params
  add_args params (arg ∷ args) = add_arg params arg >>=? λ p. add_args p args

  -- The result, with the ValueErrors of the loop as XbenchExceptions.
  unfoldable pub parse_unknown : List String → Result Entries
  unfolding add_args
  parse_unknown unknown = elim (add_args end unknown) [
    | ok p ↦ ok p
    | raise e ↦ if is_a e value_error then raise xbench_exception else raise e
  ]
