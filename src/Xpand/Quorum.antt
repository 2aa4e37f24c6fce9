-- ===== src/Xpand/Quorum.antt =====
-- What `check_quorum` finds out, and the only exception that it raises.
use xbench_community.Prelude.{
  ℕ, true, false, List, Dict, String, length, ◌==◌, ◌≡◌, refl, ◌↔◌, arith, ap, ◌∙◌, if◌then◌else◌,
  Bool-cases, inl, inr, ◌⊎◌, ◌≢◌, sym,
}
use mathlib.Core.Path.{subst}
use xbench_community.Exn.{Exn, is_a, mysql_client_exception, check_quorum_exception}
use xbench_community.Exec.{Result, ok, raise, Exec, pure, throw, ◌>>◌, handle, and_then}
use xbench_community.Cluster.{Node}
use xbench_community.Xpand.{XpandDb, reform, compare_rows, on_client_error, check_quorum}

-- Every exception is one of the MySQL client.
abbrev pub IsClientFailure {ℓ} : {A : Type ℓ} → Result A → Type 0
IsClientFailure (ok a) = Unit
IsClientFailure (raise e) = is_a e mysql_client_exception ≡ true

-- Every exception is CheckQuorumException.
abbrev pub IsQuorumFailure {ℓ} : {A : Type ℓ} → Result A → Type 0
IsQuorumFailure (ok a) = Unit
IsQuorumFailure (raise e) = e ≡ check_quorum_exception

-- An exception that the `except` clause of `check_quorum` handles, or lets through unchanged.
abbrev IsCaught {ℓ} : {A : Type ℓ} → Result A → Type 0
IsCaught (ok a) = ⊥
IsCaught (raise e) = (is_a e mysql_client_exception ≡ true) ⊎ (e ≡ check_quorum_exception)

module _ {S : Type 0} (db : XpandDb S) where
  compare_rows-equal :
      (nodes : List Node) (rows : List (Dict String)) (s s' : S)
      → db.quorum_rows s ≡ (ok rows, s')
      → (length rows == length nodes) ≡ true
      → compare_rows db nodes s ≡ (ok tt, s')
  unfolding compare_rows
  compare_rows-equal nodes rows s s' read e = rw (read, compare_rows) (rw e)

  compare_rows-other :
      (nodes : List Node) (rows : List (Dict String)) (s s' : S)
      → db.quorum_rows s ≡ (ok rows, s')
      → (length rows == length nodes) ≡ false
      → compare_rows db nodes s ≡ (db.execute reform >> throw check_quorum_exception) s'
  unfolding compare_rows
  compare_rows-other nodes rows s s' read e = rw (read, compare_rows) (rw e)

  raised :
      (r : Result (Unit {0}) × S)
      → IsCaught r.0
      → (handle (on_client_error db) r).0 ≡ raise check_quorum_exception
  unfolding on_client_error
  raised (ok a, s) h = absurd h
  raised (raise e, s) h = ground (arith)

  reform-IsCaught :
      (r : Result (Unit {0}) × S)
      → IsClientFailure r.0
      → IsCaught (and_then (λ _. throw {A = Unit {0}} check_quorum_exception) r).0
  reform-IsCaught (ok a, s) h = inr refl
  reform-IsCaught (raise e, s) h = inl h

  check_quorum-other :
      (nodes : List Node) (rows : List (Dict String)) (s s' : S)
      → db.quorum_rows s ≡ (ok rows, s')
      → IsClientFailure (db.execute reform s').0
      → (length rows == length nodes) ≡ false
      → (check_quorum db nodes s).0 ≡ raise check_quorum_exception
  unfolding check_quorum
  check_quorum-other nodes rows s s' read executes e =
      ap (λ r. (handle (on_client_error db) r).0) (compare_rows-other nodes rows s s' read e)
      ∙ raised _ (reform-IsCaught (db.execute reform s') executes)

  check_quorum-equal :
      (nodes : List Node) (rows : List (Dict String)) (s s' : S)
      → db.quorum_rows s ≡ (ok rows, s')
      → (length rows == length nodes) ≡ true
      → (check_quorum db nodes s).0 ≡ ok tt
  unfolding check_quorum
  check_quorum-equal nodes rows s s' read e =
      ap (λ r. (handle (on_client_error db) r).0) (compare_rows-equal nodes rows s s' read e)

  check_quorum-raise :
      (nodes : List Node) (e : Exn) (s s' : S)
      → db.quorum_rows s ≡ (raise e, s')
      → is_a e mysql_client_exception ≡ true
      → (check_quorum db nodes s).0 ≡ raise check_quorum_exception
  unfolding check_quorum compare_rows
  check_quorum-raise nodes e s s' read caught =
      ap (λ r. (handle (on_client_error db) (and_then (λ rows. compared rows) r)).0) read
      ∙ raised (raise e, s') (inl caught)
    where
      compared : List (Dict String) → Exec S (Unit {0})
      compared rows =
          if length rows == length nodes
          then pure tt
          else db.execute reform >> throw check_quorum_exception

equal_iff : (a b : ℕ) → (a == b) ≡ true → a ≡ b
equal_iff a b h = ground arith

equal_refl : (a b : ℕ) → a ≡ b → (a == b) ≡ true
equal_refl a b h = ground arith

raise_not_ok : (r : Result (Unit {0})) → r ≡ raise check_quorum_exception → r ≢ ok tt
raise_not_ok r e h = cc

-- check_quorum returns exactly if the query of the nodes in quorum has a row for each node of the
-- cluster, where the statement that reforms the cluster fails with an exception of the client only.
pub check_quorum_iff :
    {S : Type 0} (db : XpandDb S) (nodes : List Node) (rows : List (Dict String)) (s s' : S)
    → db.quorum_rows s ≡ (ok rows, s')
    → ((t : S) → IsClientFailure (db.execute reform t).0)
    → ((check_quorum db nodes s).0 ≡ ok tt) ↔ (length rows ≡ length nodes)
check_quorum_iff db nodes rows s s' read executes =
    elim (Bool-cases (length rows == length nodes)) [
      | inl e ↦ (
        λ _. equal_iff (length rows) (length nodes) e,
        λ _. check_quorum-equal db nodes rows s s' read e,
      )
      | inr e ↦ (
        λ h. absurd (raise_not_ok _ (check_quorum-other db nodes rows s s' read (executes s') e) h),
        λ h. absurd (false_true (sym e ∙ equal_refl (length rows) (length nodes) h)),
      )
    ]
  where
    false_true : false ≢ true
    false_true h = cc

-- If the database fails with exceptions of the client only, check_quorum returns or raises
-- CheckQuorumException, with which self_test is tried again.
check_quorum-IsQuorumFailure :
    {S : Type 0} (db : XpandDb S) (nodes : List Node) (s : S)
    → ((t : S) → IsClientFailure (db.quorum_rows t).0)
    → ((t : S) → IsClientFailure (db.execute reform t).0)
    → IsQuorumFailure (check_quorum db nodes s).0
check_quorum-IsQuorumFailure db nodes s reads executes = by_rows (db.quorum_rows s) refl
  where
    failed : (r : Result (Unit {0})) → r ≡ raise check_quorum_exception → IsQuorumFailure r
    failed (ok a) e = absurd (raise_not_ok (ok a) e refl)
    failed (raise x) e = cc

    by_rows :
        (r : Result (List (Dict String)) × _)
        → db.quorum_rows s ≡ r
        → IsQuorumFailure (check_quorum db nodes s).0
    by_rows (raise e, t) read = failed _ (
        check_quorum-raise db nodes e s t read
          (subst (λ (r : Result (List (Dict String)) × _). IsClientFailure r.0) read (reads s)))
    by_rows (ok rows, t) read = elim (Bool-cases (length rows == length nodes)) [
      | inl e ↦
          subst (λ r. IsQuorumFailure r) (sym (check_quorum-equal db nodes rows s t read e)) tt
      | inr e ↦ failed _ (check_quorum-other db nodes rows s t read (executes t) e)
    ]
