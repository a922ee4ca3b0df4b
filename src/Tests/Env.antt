-- ===== src/Tests/Env.antt =====
-- The theorems on the environment of a ControlPlane at concrete options.
use apisix_operator.Prelude.{
  String, String-discrete, ◌≡◌, ◌≢◌, ap, ==_refl, refl, false, [], ◌∷◌, arith, ◌==◌, string_eq,
}
use apisix_operator.Env.{
  env_value_by_name, env_var_source_by_name, set_control_plane_defaults, dataplane_is_set,
  field_source, set_control_plane_env_on_data_plane_change, controller_publish_service,
  controller_apisix_admin_url,
}
use apisix_operator.Env.Defaults.{set_control_plane_defaults_idem, set_control_plane_defaults_reach}
use apisix_operator.Env.Change.{on_change_values, on_change-defaults}
use apisix_operator.Tests.Data.{with_data_plane}

abbrev empty : String
empty = ""

named : (s : String) → (s == empty) ≡ false → s ≢ empty
named s h e = ground (arith, ap (λ (t : String). t == empty) e, ==_refl empty)

prod_named : ◌≢◌ {A = String} "prod" ""
unfolding String-discrete
prod_named = named "prod" refl

svc_named : ◌≢◌ {A = String} "svc" ""
unfolding String-discrete
svc_named = named "svc" refl

set_control_plane_defaults_idem_example :
    let spec' =
      (set_control_plane_defaults with_data_plane "prod" "svc"
        ("CONTROLLER_PUBLISH_SERVICE" ∷ [])).1 in
    set_control_plane_defaults spec' "prod" "svc" ("CONTROLLER_PUBLISH_SERVICE" ∷ [])
    ≡ (false, spec')
set_control_plane_defaults_idem_example =
    set_control_plane_defaults_idem with_data_plane "prod" "svc" ("CONTROLLER_PUBLISH_SERVICE" ∷ [])

set_control_plane_defaults_reach_example :
    let env = (set_control_plane_defaults with_data_plane "prod" "svc" []).1.env in
    (env_var_source_by_name env "POD_NAMESPACE" ≡ field_source "metadata.namespace")
    × (env_var_source_by_name env "POD_NAME" ≡ field_source "metadata.name")
    × (env_value_by_name env "CONTROLLER_PUBLISH_SERVICE" ≡ controller_publish_service "svc" "prod")
    × (env_value_by_name env "CONTROLLER_APISIX_ADMIN_URL"
        ≡ controller_apisix_admin_url "svc" "prod")
set_control_plane_defaults_reach_example =
    set_control_plane_defaults_reach with_data_plane "prod" "svc" prod_named svc_named

on_change_values_example :
    env_value_by_name
      (set_control_plane_env_on_data_plane_change with_data_plane "prod" "svc").1.env
      "CONTROLLER_PUBLISH_SERVICE"
    ≡ controller_publish_service "svc" "prod"
unfolding dataplane_is_set String-discrete
on_change_values_example =
    on_change_values with_data_plane "prod" "svc" "CONTROLLER_PUBLISH_SERVICE"

on_change-defaults_example :
    let spec' = (set_control_plane_defaults with_data_plane "prod" "svc" []).1 in
    set_control_plane_env_on_data_plane_change spec' "prod" "svc" ≡ (false, spec')
unfolding dataplane_is_set String-discrete
on_change-defaults_example =
    on_change-defaults with_data_plane "prod" "svc" prod_named svc_named refl
