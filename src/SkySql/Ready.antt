-- ===== src/SkySql/Ready.antt =====
-- When `wait_until_service_is_ready` returns, and what it raises.
use xbench_community.Prelude.{String, Bool, true, false, if◌then◌else◌, str_eq, ◌≡◌, refl, ap}
use mathlib.Core.Path.{subst}
use xbench_community.Exn.{Exn, skysql_service_failed, skysql_service_pending}
use xbench_community.Exec.{Result, ok, raise, Exec, pure, throw, and_then}
use xbench_community.Retry.Returns.{IsReturned, retry-IsReturned}
use xbench_community.Config.{Value}
use xbench_community.SkySql.{SkySqlApi, Service, Credentials, ready_policy}
use xbench_community.SkySql.Calls.{Http}
use xbench_community.SkySql.Services.{get_service_by_id, check_ready, wait_until_service_is_ready}

module _ {S : Type 0} where
  by_status : Bool → Bool → Exec S (Unit {0})
  by_status ready failed =
      if ready
      then pure tt
      else if failed
      then throw skysql_service_failed
      else throw skysql_service_pending

  by_status-ok :
      (ready failed : Bool) (u s' : S)
      → by_status ready failed u ≡ (ok tt, s')
      → (u ≡ s') × (ready ≡ true)
  unfolding by_status
  by_status-ok true failed u s' h = (cc, refl)
  by_status-ok false true u s' h = absurd (raise_not_ok skysql_service_failed h)
    where
      raise_not_ok : (e : Exn) → Path (Result (Unit {0}) × S) (raise e, u) (ok tt, s') → ⊥
      raise_not_ok e h = cc
  by_status-ok false false u s' h = absurd (raise_not_ok skysql_service_pending h)
    where
      raise_not_ok : (e : Exn) → Path (Result (Unit {0}) × S) (raise e, u) (ok tt, s') → ⊥
      raise_not_ok e h = cc

  -- What the status says, for every way to read the service.
  status-ok :
      (r : Result Service × S) (s' : S)
      → and_then (λ v. by_status (str_eq v.status "ready") (str_eq v.status "failed")) r
        ≡ (ok tt, s')
      → (v : Service) × (r ≡ (ok v, s')) × (str_eq v.status "ready" ≡ true)
  status-ok (ok v, u) s' h =
      let (same, ready) =
        by_status-ok (str_eq v.status "ready") (str_eq v.status "failed") u s' h in
      (v, ap (λ t. (ok v, t)) same, ready)
  status-ok (raise e, u) s' h = absurd (raise_not_ok h)
    where
      raise_not_ok : Path (Result (Unit {0}) × S) (raise e, u) (ok tt, s') → ⊥
      raise_not_ok h = cc

-- wait_until_service_is_ready returns only right after the server has reported the service with
-- the status ready: no request is sent and nothing is slept after that reading.
pub wait_until_service_is_ready-ok :
    {S : Type 0} (http : Http S) (service_from : Value → Result Service)
    (credentials_from : Value → Result Credentials) (api : SkySqlApi) (service_id : String)
    (s s' : S)
    → wait_until_service_is_ready http service_from credentials_from api service_id s ≡ (ok tt, s')
    → (t : S) × (v : Service) × (get_service_by_id http service_from credentials_from api service_id
          t
        ≡ (ok v, s'))
      × (str_eq v.status "ready" ≡ true)
unfolding wait_until_service_is_ready check_ready by_status
wait_until_service_is_ready-ok http service_from credentials_from api service_id s s' h =
    let (t, returned) =
      subst
        (IsReturned http.now http.sleep ready_policy
          (check_ready http service_from credentials_from api service_id))
        h
        (retry-IsReturned http.now http.sleep ready_policy
          (check_ready http service_from credentials_from api service_id) s) in
    let (v, read, ready) =
      status-ok (get_service_by_id http service_from credentials_from api service_id t) s'
        returned in
    (t, v, read, ready)
