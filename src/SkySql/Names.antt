-- ===== src/SkySql/Names.antt =====
-- The name under which `create_service` looks for a service, and the one that it sends.
use xbench_community.Prelude.{
  ℕ, suc, String, Option, some, none, List, [], ◌∷◌, ◌≡◌, refl, arith, ap, ◌∙◌, sym, str_eq_iff,
}
use mathlib.Core.Path.{subst}
use xbench_community.Exn.{key_error}
use xbench_community.Exec.{Result, ok, raise, ◌>>=?◌}
use xbench_community.Config.{Value, Entries, entry, get, put, str}
use xbench_community.Config.Keys.{get-put}
use xbench_community.Config.YamlConfig.{subscript}
use xbench_community.SkySql.{SkySqlApi, picked, service_param_names, service_params, value_of}

-- The length of a text.
abbrev pub text_length : String → ℕ
text_length String.[] = 0
text_length (String.◌∷◌ c s) = suc (text_length s)

-- What stands in `picked`, key by key.
picked-get :
    (k : String) (names : List String) (kwargs d : Entries)
    → picked (k ∷ names) kwargs ≡ ok d
    → get k d ≡ get k kwargs
unfolding picked subscript get
picked-get k names kwargs d h = by_value (get k kwargs) (picked names kwargs) h
  where
    by_value :
        (o : Option Value) (r : Result Entries)
        → ((elim o [ none ↦ raise key_error | some v ↦ ok v ]) >>=? λ v.
            r >>=? λ d. ok (entry k v d))
          ≡ ok d
        → get k d ≡ o
    by_value none r h = absurd cc
    by_value (some v) (raise e) h = absurd cc
    by_value (some v) (ok d') h = subst (λ (x : Result Entries). get_ok x ≡ some v) h (first_get d')
      where
        get_ok : Result Entries → Option Value
        get_ok (ok x) = get k x
        get_ok (raise e) = none

        first_get : (x : Entries) → get_ok (ok (entry k v x)) ≡ some v
        first_get x = ground (arith, str_eq_iff k k)

-- The name in the body of the request that creates a service is the whole name that was asked
-- for, however long it is.
service_params-name :
    (api : SkySqlApi) (kwargs d : Entries)
    → service_params api kwargs ≡ ok d
    → get "name" d ≡ get "name" kwargs
unfolding service_params get put
service_params-name api kwargs d h = by_picked (picked service_param_names kwargs) refl h
  where
    sent : Entries → Entries
    sent p = put "provider" api.provider (
        put "region" api.region
          (put "project_id" (value_of api.project_id) (put "architecture" (str "amd64") p)))

    sent-get : (p : Entries) → get "name" (sent p) ≡ get "name" p
    sent-get p = simp get-put

    by_picked :
        (r : Result Entries)
        → picked service_param_names kwargs ≡ r
        → (r >>=? λ p. ok (sent p)) ≡ ok d
        → get "name" d ≡ get "name" kwargs
    by_picked (raise e) read h = absurd cc
    by_picked (ok p) read h =
        ap (get "name") (sym (sent_injective h))
        ∙ (sent-get p
            ∙ picked-get "name"
                ("service_type" ∷ "version" ∷ "nodes" ∷ "size" ∷ "topology" ∷ "storage"
                  ∷ "volume_iops" ∷ "volume_type" ∷ "ssl_enabled" ∷ [])
                kwargs p read)
      where
        sent_injective : Path (Result Entries) (ok (sent p)) (ok d) → sent p ≡ d
        sent_injective h = cc
