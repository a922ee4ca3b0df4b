-- ===== src/Tests/Validation.antt =====
-- The theorems on the validation of a DataPlane at concrete options.
use apisix_operator.Prelude.{
  String, String-discrete, ◌≡◌, ◌≢◌, ap, ◌↔◌, ◌⊎◌, inl, refl, none, some, List, [], ◌∷◌, ◌++◌,
  arith, ◌==◌, string_eq,
}
use apisix_operator.Prelude.Dict
use apisix_operator.Errors.{Error, ok, err}
use apisix_operator.Api.Env.{EnvVar}
use apisix_operator.Validation.{
  index, trim_prefix, env_loop, env_round, env_from_loop, get_db_mode_from_env,
  get_db_mode_from_env_from, validate_deploy_options,
}
use apisix_operator.Validation.Literal.{
  blank, validate_last_literal, validate-CannotFetch, validate_blank,
}
use apisix_operator.Validation.Sources.{validate_last_source}
use apisix_operator.Tests.Data.{literal, no_options, cluster_with, empty_cluster, map_ref, from_map}

abbrev mode_env : List EnvVar
mode_env = literal "A" "b" ∷ literal "APISIX_DATABASE" "off" ∷ []

abbrev from_map_env : EnvVar
from_map_env = record {
  name = "APISIX_DATABASE";
  value = "";
  value_from = some (record {
    field_ref = none;
    resource_field_ref = none;
    config_map_key_ref = some (record { name = "config"; key = "mode"; optional = none });
    secret_key_ref = none;
  });
}

abbrev empty : String
empty = ""

off_is_not_blank : ◌≢◌ {A = String} "off" empty
unfolding String-discrete
off_is_not_blank e = ground (arith, ap (λ (s : String). s == empty) e)

validate_last_literal_example :
    (validate_deploy_options empty_cluster "prod" (record no_options { env = mode_env }) ≡ ok tt)
    ↔ (◌≡◌ {A = String} "off" "off")
unfolding get_db_mode_from_env env_loop env_round String-discrete
validate_last_literal_example =
    validate_last_literal empty_cluster "prod" (record no_options { env = mode_env })
      (literal "A" "b" ∷ []) [] (literal "APISIX_DATABASE" "off") refl refl refl off_is_not_blank tt

-- The reference of `from_map_env`, to a ConfigMap that does not exist.
validate-CannotFetch_example :
    (e : Error) × (validate_deploy_options empty_cluster "prod" (record no_options {
      env = literal "A" "b" ∷ from_map_env ∷ literal "APISIX_DATABASE" "off" ∷ [];
    })
      ≡ err e)
unfolding get_db_mode_from_env env_loop env_round String-discrete
validate-CannotFetch_example = (
  _,
  validate-CannotFetch empty_cluster "prod"
      (record no_options {
        env = literal "A" "b" ∷ from_map_env ∷ literal "APISIX_DATABASE" "off" ∷ [];
      })
      (literal "A" "b" ∷ []) (literal "APISIX_DATABASE" "off" ∷ []) from_map_env _ refl refl refl
      refl refl (inl (_, _, refl, refl, refl)),
)

validate_blank_example :
    validate_deploy_options empty_cluster "prod"
      (record no_options { env = mode_env ++ blank ∷ [] })
    ≡ validate_deploy_options empty_cluster "prod" (record no_options { env = mode_env })
validate_blank_example = validate_blank empty_cluster "prod" (record no_options { env = mode_env })

validate_last_source_example :
    (validate_deploy_options
        (cluster_with "postgres")
        "prod"
        (record no_options { env_from = from_map ∷ [] })
      ≡ ok tt)
    ↔ (◌≡◌ {A = String} "postgres" "" ⊎ ◌≡◌ {A = String} "postgres" "off")
unfolding get_db_mode_from_env_from env_from_loop index trim_prefix Dict.lookup String-discrete
validate_last_source_example =
    validate_last_source (cluster_with "postgres") "prod"
      (record no_options { env_from = from_map ∷ [] }) [] from_map map_ref
      (("DATABASE", "postgres") ∷ []) tt refl refl refl refl refl refl
