-- ===== src/Config/Params/Errors.antt =====
-- Which exceptions `parse_unknown` lets out.
use xbench_community.Prelude.{
  String, Bool, true, false, List, [], ◌∷◌, ◌≡◌, refl, ap, split_on, if◌then◌else◌, ◌⊎◌, inl, inr,
  without_char, starts_with_char,
}
use xbench_community.Exn.{
  Exn, is_a, is_any_of, value_error, name_error, syntax_error, xbench_exception,
}
use xbench_community.Exec.{Result, ok, raise, ◌>>=?◌, RaisesOnly}
use xbench_community.Config.{Value, Entries, end}
use xbench_community.Config.Params.{
  internal_eval, helper_splitter, add_parts, add_arg, add_args, parse_unknown,
}

abbrev pub caught : List Exn
caught = value_error ∷ name_error ∷ syntax_error ∷ []

module _ (eval : String → Result Value) where
  -- eval raises this on some text, and `internal_eval` does not take the text as it is then.
  abbrev pub IsEvalFailure : Exn → Type 0
  IsEvalFailure e = (s : String) × (eval s ≡ raise e) × (is_any_of e caught ≡ false)

  abbrev IsAddFailure : Exn → Type 0
  IsAddFailure e = (e ≡ value_error) ⊎ IsEvalFailure e

  then_raises :
      {A B : Type 0} (P : Exn → Type 0) (r : Result A) (k : A → Result B)
      → RaisesOnly P r
      → ((a : A) → RaisesOnly P (k a))
      → RaisesOnly P (r >>=? k)
  then_raises P (ok a) k h rest = rest a
  then_raises P (raise e) k h rest = h

  internal_eval-raises : (s : String) → RaisesOnly IsAddFailure (internal_eval eval s)
  unfolding internal_eval
  internal_eval-raises s = by_value (eval s) refl
    where
      by_class :
          (e : Exn) (b : Bool)
          → eval s ≡ raise e
          → is_any_of e caught ≡ b
          → RaisesOnly IsAddFailure (if b then ok (Value.str s) else raise e)
      by_class e true h q = tt
      by_class e false h q = inr (s, h, q)

      by_value :
          (r : Result Value)
          → eval s ≡ r
          → RaisesOnly IsAddFailure (elim r as (λ _. Result Value) [
            | ok v ↦ ok v
            | raise e ↦ if is_any_of e caught then ok (Value.str s) else raise e
          ])
      by_value (ok v) h = tt
      by_value (raise e) h = by_class e (is_any_of e caught) h refl

  add_parts-raises :
      (p : Entries) (parts : String × List String)
      → RaisesOnly IsAddFailure (add_parts eval p parts)
  unfolding add_parts helper_splitter
  add_parts-raises p (k, []) = inl refl
  add_parts-raises p (k, v ∷ []) =
      then_raises IsAddFailure (helper_splitter eval (without_char b'-' k) v) _
        (then_raises IsAddFailure (internal_eval eval v) _ (internal_eval-raises v) (λ w. tt))
        (λ q. tt)
  add_parts-raises p (k, _ ∷ _ ∷ _) = inl refl

  add_arg-raises : (p : Entries) (arg : String) → RaisesOnly IsAddFailure (add_arg eval p arg)
  unfolding add_arg
  add_arg-raises p arg = by_start (starts_with_char b'-' arg)
    where
      by_start :
          (b : Bool)
          → RaisesOnly IsAddFailure
              (if b then add_parts eval p (split_on b'=' arg) else raise value_error)
      by_start true = add_parts-raises p (split_on b'=' arg)
      by_start false = inl refl

  add_args-raises :
      (args : List String) (p : Entries) → RaisesOnly IsAddFailure (add_args eval p args)
  unfolding add_args
  add_args-raises [] p = tt
  add_args-raises (arg ∷ args) p =
      then_raises IsAddFailure (add_arg eval p arg) _ (add_arg-raises p arg) (add_args-raises args)

  -- parse_unknown raises XbenchException, or what eval raises on some text that is neither
  -- ValueError nor NameError nor SyntaxError.
  pub parse_unknown-raises :
      (args : List String)
      → RaisesOnly (λ e. (e ≡ xbench_exception) ⊎ IsEvalFailure e) (parse_unknown eval args)
  unfolding parse_unknown is_a
  parse_unknown-raises args = after (add_args eval end args) (add_args-raises args end)
    where
      by_class :
          (x : Exn) (b : Bool)
          → is_a x value_error ≡ b
          → IsAddFailure x
          → RaisesOnly
              (λ e. (e ≡ xbench_exception) ⊎ IsEvalFailure e)
              (if◌then◌else◌ {A = Result Entries} b (raise xbench_exception) (raise x))
      by_class x true q h = inl refl
      by_class x false q (inr h) = inr h
      by_class x false q (inl h) = absurd (not_both q (ap (λ y. is_a y value_error) h))
        where
          not_both : is_a x value_error ≡ false → is_a x value_error ≡ true → ⊥
          not_both a b = cc

      after :
          (r : Result Entries)
          → RaisesOnly IsAddFailure r
          → RaisesOnly
              (λ e. (e ≡ xbench_exception) ⊎ IsEvalFailure e)
              (elim r [
                | ok p ↦ ok p
                | raise x ↦ if is_a x value_error then raise xbench_exception else raise x
              ])
      after (ok p) h = tt
      after (raise x) h = by_class x (is_a x value_error) refl h
