-- ===== src/Exec.antt =====
-- Statements of Python that change a state and may raise. What was written before a raise stays
-- written, so the state comes back beside the exception too.
use xbench_community.Prelude.{◌≡◌, refl, Bool, List, [], ◌∷◌, if◌then◌else◌}
use xbench_community.Exn.{Exn}

pub data Result {ℓ} (A : Type ℓ) : Type ℓ where
  ok : A → Result A
  raise : Exn → Result A

-- A call of a pure function that may raise.
infixl 5 ◌>>=?◌
abbrev pub ◌>>=?◌ {ℓ κ} : {A : Type ℓ} {B : Type κ} → Result A → (A → Result B) → Result B
ok a >>=? f = f a
raise e >>=? f = raise e

abbrev pub Exec : Type 0 → Type 0 → Type 0
Exec S A = S → Result A × S

module _ {S A : Type 0} where
  abbrev pub pure : A → Exec S A
  pure a s = (ok a, s)

  abbrev pub throw : Exn → Exec S A
  throw e s = (raise e, s)

  abbrev pub lift : Result A → Exec S A
  lift r s = (r, s)

  -- What a handler of an `except` clause sees: the exception, and the state at the raise.
  abbrev pub handle : (Exn → Exec S A) → Result A × S → Result A × S
  handle h (ok a, s) = (ok a, s)
  handle h (raise e, s) = h e s

  -- `try: m except ...: h`, where `h` throws again what it does not catch
  abbrev pub try_except : Exec S A → (Exn → Exec S A) → Exec S A
  try_except m h s = handle h (m s)

module _ {S A B : Type 0} where
  abbrev pub and_then : (A → Exec S B) → Result A × S → Result B × S
  and_then f (ok a, s) = f a s
  and_then f (raise e, s) = (raise e, s)

  infixl 5 ◌>>=◌
  abbrev pub ◌>>=◌ : Exec S A → (A → Exec S B) → Exec S B
  ◌>>=◌ m f s = and_then f (m s)

module _ {S B : Type 0} where
  infixl 5 ◌>>◌
  abbrev pub ◌>>◌ : Exec S (Unit {0}) → Exec S B → Exec S B
  m >> k = m >>= λ _. k

module _ {S A : Type 0} where
  -- `for x in xs: body(x)`
  unfoldable pub for_each : List A → (A → Exec S (Unit {0})) → Exec S (Unit {0})
  for_each [] body = pure tt
  for_each (x ∷ xs) body = body x >> for_each xs body

-- `except classes: raise out`
abbrev pub convert : {S A : Type 0} → (Exn → Bool) → Exn → Exn → Exec S A
convert caught out e = if caught e then throw out else throw e

-- Proof rules: what holds of every outcome of a handler, and of a sequence.
module _ {S A : Type 0} (Q : Result A × S → Type 0) where
  pub handle_ind :
      (h : Exn → Exec S A) (r : Result A × S)
      → ((a : A) (s : S) → r ≡ (ok a, s) → Q (ok a, s))
      → ((e : Exn) (s : S) → r ≡ (raise e, s) → Q (h e s))
      → Q (handle h r)
  handle_ind h (ok a, s) returns raises = returns a s refl
  handle_ind h (raise e, s) returns raises = raises e s refl

module _ {S A B : Type 0} (Q : Result B × S → Type 0) where
  pub and_then_ind :
      (f : A → Exec S B) (r : Result A × S)
      → ((a : A) (s : S) → r ≡ (ok a, s) → Q (f a s))
      → ((e : Exn) (s : S) → r ≡ (raise e, s) → Q (raise e, s))
      → Q (and_then f r)
  and_then_ind f (ok a, s) returns raises = returns a s refl
  and_then_ind f (raise e, s) returns raises = raises e s refl

-- Which exceptions an outcome may be.
abbrev pub RaisesOnly {ℓ} : {A : Type ℓ} → (Exn → Type 0) → Result A → Type 0
RaisesOnly P (ok a) = Unit
RaisesOnly P (raise e) = P e

module _ {S A B : Type 0} (P : Exn → Type 0) where
  pub and_then-RaisesOnly :
      (k : A → Exec S B) (r : Result A × S)
      → RaisesOnly P r.0
      → ((a : A) (t : S) → RaisesOnly P (k a t).0)
      → RaisesOnly P (and_then k r).0
  and_then-RaisesOnly k (ok a, s) h rest = rest a s
  and_then-RaisesOnly k (raise e, s) h rest = h
