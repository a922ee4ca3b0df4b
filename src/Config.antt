-- ===== src/Config.antt =====
-- internal/utils/dataplane/config.go, and the order of internal/utils/kubernetes/envvars.go: the
-- default environment of a DataPlane. Go's map has no order, so the order in which the loop meets
-- the defaults is a parameter, and so is `sort.Sort`, which gets the order of the elements.
pub mod Defaults
use Prim.Native.Char.{code}
use Prim.Native.String
use apisix_operator.Prelude.{
  String, Bool, true, false, not, ◌&&◌, ◌||◌, none, List, [], ◌∷◌, ◌++◌, ltb, if◌then◌else◌, ◌==◌,
  ◌<>◌, nat_eq,
}
use apisix_operator.Api.Env.{EnvVar, DeploymentOptions}
use apisix_operator.Api.Types.{DataPlaneDeploymentOptions}
use apisix_operator.Env.{is_env_var_present}

-- `APISIXDefaults`
abbrev pub apisix_defaults : List (String × String)
apisix_defaults =
    ("APISIX_ADMIN_ACCESS_LOG", "/dev/stdout")
    ∷ ("APISIX_ADMIN_ERROR_LOG", "/dev/stderr")
    ∷ ("APISIX_ADMIN_GUI_ACCESS_LOG", "/dev/stdout")
    ∷ ("APISIX_ADMIN_GUI_ERROR_LOG", "/dev/stderr")
    ∷ ("APISIX_CLUSTER_LISTEN", "off")
    ∷ ("APISIX_DATABASE", "off")
    ∷ ("APISIX_NGINX_WORKER_PROCESSES", "2")
    ∷ ("APISIX_PLUGINS", "bundled")
    ∷ ("APISIX_PORTAL_API_ACCESS_LOG", "/dev/stdout")
    ∷ ("APISIX_PORTAL_API_ERROR_LOG", "/dev/stderr")
    ∷ ("APISIX_PORT_MAPS", "80:8000, 443:8443")
    ∷ ("APISIX_PROXY_ACCESS_LOG", "/dev/stdout")
    ∷ ("APISIX_PROXY_ERROR_LOG", "/dev/stderr")
    ∷ (
      "APISIX_PROXY_LISTEN",
      "0.0.0.0:9000 reuseport backlog=16384, 0.0.0.0:9443 http2 ssl reuseport backlog=16384",
    )
    ∷ ("APISIX_STATUS_LISTEN", "0.0.0.0:9100")
    ∷ ("APISIX_ADMIN_LISTEN", "0.0.0.0:9444 ssl reuseport backlog=16384")
    ∷ ("APISIX_ADMIN_SSL_CERT", "/var/cluster-certificate/tls.crt")
    ∷ ("APISIX_ADMIN_SSL_CERT_KEY", "/var/cluster-certificate/tls.key")
    ∷ ("APISIX_NGINX_ADMIN_SSL_CLIENT_CERTIFICATE", "/var/cluster-certificate/ca.crt")
    ∷ ("APISIX_NGINX_ADMIN_SSL_VERIFY_CLIENT", "on")
    ∷ ("APISIX_NGINX_ADMIN_SSL_VERIFY_DEPTH", "3")
    ∷ []

abbrev pub default_var : String × String → EnvVar
default_var (name, value) = record { name = name; value = value; value_from = none }

-- `strings.Compare(s, t) == -1`: Go compares bytes, which in UTF-8 is the order of the code points.
unfoldable pub comes_before : String → String → Bool
comes_before String.[] String.[] = false
comes_before String.[] (String.◌∷◌ c t) = true
comes_before (String.◌∷◌ c s) String.[] = false
comes_before (String.◌∷◌ c s) (String.◌∷◌ d t) =
    let rest = comes_before s t in ltb (code c) (code d) || code c == code d && rest

-- `SortableEnvVars.Less`, of the elements.
unfoldable pub less : EnvVar → EnvVar → Bool
unfolding comes_before
less v w = comes_before (v.name <> v.value) (w.name <> w.value)

-- The loop over the defaults.
unfoldable pub add_defaults : List (String × String) → List EnvVar → List EnvVar
unfolding is_env_var_present
add_defaults [] env = env
add_defaults (entry ∷ order) env =
    let absent = not (is_env_var_present (default_var entry) env) in
    add_defaults order (if absent then env ++ default_var entry ∷ [] else env)

unfoldable pub set_data_plane_defaults :
    ((EnvVar → EnvVar → Bool) → List EnvVar → List EnvVar)
    → List (String × String)
    → DataPlaneDeploymentOptions
    → DataPlaneDeploymentOptions
unfolding add_defaults less
set_data_plane_defaults sort order spec = record spec {
  deployment_options = record (spec.deployment_options) {
    env = sort less (add_defaults order spec.deployment_options.env);
  };
}
