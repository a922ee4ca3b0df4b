-- ===== src/Env.antt =====
-- The environment of the ControlPlane deployment: the functions over `Env` of
-- controllers/controlplane_controller_utils.go, and `IsEnvVarPresent`.
mod Steps
mod Writes
pub mod Defaults
pub mod Change
use apisix_operator.Prelude.{
  String, ◌≡◌, Bool, true, false, not, ◌&&◌, ◌||◌, Option, none, some, List, [], ◌∷◌, ◌++◌, any,
  find, keep, is_some, if◌then◌else◌, ◌==◌, ◌!=◌, ◌<>◌, string_eq,
}
use apisix_operator.Prelude.Dict
use apisix_operator.Api.Env.{EnvVar, EnvVarSource, DeploymentOptions, env_var_source_eq}
use apisix_operator.Api.Types.{ControlPlaneDeploymentOptions}

-- internal/utils/kubernetes/envvars.go
unfoldable pub is_env_var_present : EnvVar → List EnvVar → Bool
unfolding any
is_env_var_present env_var env_vars = any (λ v. env_var.name == v.name) env_vars

abbrev value_of : Option EnvVar → String
value_of none = ""
value_of (some v) = v.value

abbrev source_of : Option EnvVar → Option EnvVarSource
source_of none = none
source_of (some v) = v.value_from

unfoldable pub env_value_by_name : List EnvVar → String → String
unfolding find
env_value_by_name env name = value_of (find (λ v. v.name == name) env)

unfoldable pub env_var_source_by_name : List EnvVar → String → Option EnvVarSource
unfolding find
env_var_source_by_name env name = source_of (find (λ v. v.name == name) env)

unfoldable pub reject_env_by_name : List EnvVar → String → List EnvVar
unfolding keep
reject_env_by_name env_vars name = keep (λ v. v.name != name) env_vars

unfoldable pub update_env : List EnvVar → String → String → List EnvVar
unfolding keep
update_env env_vars name val =
    keep (λ v. v.name != name) env_vars
    ++ (record { name = name; value = val; value_from = none } ∷ [])

unfoldable pub update_env_source : List EnvVar → String → Option EnvVarSource → List EnvVar
unfolding keep
update_env_source env_vars name env_source =
    keep (λ v. v.name != name) env_vars
    ++ (record { name = name; value = ""; value_from = env_source } ∷ [])

unfoldable pub controller_apisix_admin_url : String → String → String
controller_apisix_admin_url dataplane_name dataplane_namespace =
    "https://" <> dataplane_name <> "." <> dataplane_namespace <> ".svc:9444"

unfoldable pub controller_publish_service : String → String → String
controller_publish_service dataplane_name dataplane_namespace =
    dataplane_namespace <> "/" <> dataplane_name

abbrev pub field_source : String → Option EnvVarSource
field_source path = some (record {
  field_ref = some (record { api_version = "v1"; field_path = path });
  resource_field_ref = none;
  config_map_key_ref = none;
  secret_key_ref = none;
})

-- One `if` of the defaults: a variable that has another value is set, and `changed` becomes true.
unfoldable pub set_source : String → Option EnvVarSource → Bool × List EnvVar → Bool × List EnvVar
unfolding env_var_source_by_name update_env_source
set_source name source (changed, env) =
    if source != env_var_source_by_name env name
    then (true, update_env_source env name source)
    else (changed, env)

unfoldable pub set_value : String → String → Bool × List EnvVar → Bool × List EnvVar
unfolding env_value_by_name update_env
set_value name val (changed, env) =
    if env_value_by_name env name != val then (true, update_env env name val) else (changed, env)

-- A variable is left alone if its name is in the set `dontOverride`.
unfoldable pub unless :
    List String
    → String
    → (Bool × List EnvVar → Bool × List EnvVar)
    → Bool × List EnvVar
    → Bool × List EnvVar
unfolding any
unless dont_override name step s = if any (λ n. n == name) dont_override then s else step s

-- The TLS variables are written with no look at their value, and do not count as a change.
unfoldable pub write_value : String → String → Bool × List EnvVar → Bool × List EnvVar
unfolding update_env
write_value name val (changed, env) = (changed, update_env env name val)

-- The loop-free body of `setControlPlaneDefaults`, over `changed` and `spec.Env`.
unfoldable pub defaults : String → String → List String → Bool × List EnvVar → Bool × List EnvVar
unfolding set_source set_value unless write_value controller_publish_service
    controller_apisix_admin_url
defaults namespace dataplane_service_name dont_override s =
    let s1 = set_source "POD_NAMESPACE" (field_source "metadata.namespace") s in
    let s2 = set_source "POD_NAME" (field_source "metadata.name") s1 in
    let s3 =
      if namespace != "" && dataplane_service_name != ""
      then unless dont_override "CONTROLLER_APISIX_ADMIN_URL"
          (set_value "CONTROLLER_APISIX_ADMIN_URL"
            (controller_apisix_admin_url dataplane_service_name namespace))
          (unless dont_override "CONTROLLER_PUBLISH_SERVICE"
            (set_value "CONTROLLER_PUBLISH_SERVICE"
              (controller_publish_service dataplane_service_name namespace))
            s2)
      else s2 in
    let s4 =
      unless dont_override "CONTROLLER_APISIX_ADMIN_TLS_CLIENT_CERT_FILE"
        (write_value "CONTROLLER_APISIX_ADMIN_TLS_CLIENT_CERT_FILE"
          "/var/cluster-certificate/tls.crt")
        s3 in
    let s5 =
      unless dont_override "CONTROLLER_APISIX_ADMIN_TLS_CLIENT_KEY_FILE"
        (write_value "CONTROLLER_APISIX_ADMIN_TLS_CLIENT_KEY_FILE"
          "/var/cluster-certificate/tls.key")
        s4 in
    unless dont_override "CONTROLLER_APISIX_ADMIN_CA_CERT_FILE"
      (write_value "CONTROLLER_APISIX_ADMIN_CA_CERT_FILE" "/var/cluster-certificate/ca.crt") s5

abbrev pub with_env : ControlPlaneDeploymentOptions → List EnvVar → ControlPlaneDeploymentOptions
with_env spec env = record spec {
  deployment_options = record (spec.deployment_options) { env = env };
}

unfoldable pub set_control_plane_defaults :
    ControlPlaneDeploymentOptions
    → String
    → String
    → List String
    → Bool × ControlPlaneDeploymentOptions
unfolding defaults
set_control_plane_defaults spec namespace dataplane_service_name dont_override =
    let (changed, env) =
      defaults namespace dataplane_service_name dont_override (false, spec.env) in
    (changed, with_env spec env)

-- `spec.DataPlane != nil && *spec.DataPlane != ""`
unfoldable pub dataplane_is_set : ControlPlaneDeploymentOptions → Bool
dataplane_is_set spec = elim spec.dataplane [ none ↦ false | some name ↦ name != "" ]

-- A variable with a value is removed.
unfoldable pub clear_value : String → Bool × List EnvVar → Bool × List EnvVar
unfolding env_value_by_name reject_env_by_name
clear_value name (changed, env) =
    if env_value_by_name env name != "" then (true, reject_env_by_name env name) else (changed, env)

unfoldable pub set_control_plane_env_on_data_plane_change :
    ControlPlaneDeploymentOptions → String → String → Bool × ControlPlaneDeploymentOptions
unfolding dataplane_is_set set_value clear_value controller_publish_service
    controller_apisix_admin_url
set_control_plane_env_on_data_plane_change spec namespace dataplane_service_name =
    let (changed, env) =
      if dataplane_is_set spec
      then set_value "CONTROLLER_APISIX_ADMIN_URL"
          (controller_apisix_admin_url dataplane_service_name namespace)
          (set_value "CONTROLLER_PUBLISH_SERVICE"
            (controller_publish_service dataplane_service_name namespace) (false, spec.env))
      else clear_value "CONTROLLER_APISIX_ADMIN_URL"
          (clear_value "CONTROLLER_PUBLISH_SERVICE" (false, spec.env)) in
    (changed, with_env spec env)
