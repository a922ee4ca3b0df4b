-- ===== src/Env/Defaults.antt =====
-- The defaults are reached in one step, and both ways of setting the environment agree.
use apisix_operator.Prelude.{
  String, String-discrete, ◌≡◌, ◌≢◌, refl, ◌∙◌, ap, Bool, true, false, not, ◌&&◌, List, [], ◌∷◌,
  any, arith, if◌then◌else◌, ◌==◌, ◌!=◌, string_eq,
}
use apisix_operator.Api.Env.{EnvVar}
use apisix_operator.Api.Types.{ControlPlaneDeploymentOptions}
use apisix_operator.Env.{
  env_value_by_name, env_var_source_by_name, field_source, defaults, unless, write_value, set_value,
  set_control_plane_defaults, controller_publish_service, controller_apisix_admin_url, with_env,
}
use apisix_operator.Env.Steps.{
  Step, step, source, value, run_check, run_checks, run_write, run_writes, AreDistinct, AllAbsent,
  AllSatisfied, run_checks-AllSatisfied, run_checks-satisfied, run_writes-AllSatisfied,
}
use apisix_operator.Env.Writes.{run_writes-run_writes}

abbrev allowed : List String → String → Bool
allowed dont n = not (any (λ m. m == n) dont)

abbrev checks : String → String → List String → List Step
checks ns svc dont =
    step true "POD_NAMESPACE" (source (field_source "metadata.namespace"))
    ∷ step true "POD_NAME" (source (field_source "metadata.name"))
    ∷ step (ns != "" && svc != "" && allowed dont "CONTROLLER_PUBLISH_SERVICE")
        "CONTROLLER_PUBLISH_SERVICE" (value (controller_publish_service svc ns))
    ∷ step (ns != "" && svc != "" && allowed dont "CONTROLLER_APISIX_ADMIN_URL")
        "CONTROLLER_APISIX_ADMIN_URL" (value (controller_apisix_admin_url svc ns))
    ∷ []

abbrev writes : List String → List Step
writes dont =
    step (allowed dont "CONTROLLER_APISIX_ADMIN_TLS_CLIENT_CERT_FILE")
      "CONTROLLER_APISIX_ADMIN_TLS_CLIENT_CERT_FILE" (value "/var/cluster-certificate/tls.crt")
    ∷ step (allowed dont "CONTROLLER_APISIX_ADMIN_TLS_CLIENT_KEY_FILE")
        "CONTROLLER_APISIX_ADMIN_TLS_CLIENT_KEY_FILE" (value "/var/cluster-certificate/tls.key")
    ∷ step (allowed dont "CONTROLLER_APISIX_ADMIN_CA_CERT_FILE")
        "CONTROLLER_APISIX_ADMIN_CA_CERT_FILE" (value "/var/cluster-certificate/ca.crt")
    ∷ []

abbrev then_write : List Step → Bool × List EnvVar → Bool × List EnvVar
then_write ws (changed, env) = (changed, run_writes ws env)

checks-AreDistinct : (ns svc : String) (dont : List String) → AreDistinct (checks ns svc dont)
unfolding String-discrete
checks-AreDistinct ns svc dont = ground arith

writes-AreDistinct : (dont : List String) → AreDistinct (writes dont)
unfolding String-discrete
writes-AreDistinct dont = ground arith

checks-writes :
    (ns svc : String) (dont : List String) → AllAbsent (checks ns svc dont) (writes dont)
unfolding String-discrete
checks-writes ns svc dont = ground arith

unless-write :
    (dont : List String) (n v : String) (s : Bool × List EnvVar)
    → unless dont n (write_value n v) s ≡ (s.0, run_write (step (allowed dont n) n (value v)) s.1)
unfolding unless write_value run_write
unless-write dont n v (changed, env) = ground arith

service_checks :
    (ns svc : String) (dont : List String) (s : Bool × List EnvVar) (n m v w : String)
    → (if ns != "" && svc != ""
        then unless dont m (set_value m w) (unless dont n (set_value n v) s)
        else s)
      ≡ run_check
          (step (ns != "" && svc != "" && allowed dont m) m (value w))
          (run_check (step (ns != "" && svc != "" && allowed dont n) n (value v)) s)
unfolding unless run_check
service_checks ns svc dont s n m v w = ground arith

defaults_lem :
    (ns svc : String) (dont : List String) (s : Bool × List EnvVar)
    → defaults ns svc dont s ≡ then_write (writes dont) (run_checks (checks ns svc dont) s)
unfolding defaults run_checks run_writes
defaults_lem ns svc dont s = simp (unless-write, service_checks)

abbrev at_false : List EnvVar → Bool × List EnvVar
at_false env = (false, env)

-- After the defaults all checks are satisfied, and a second run does nothing.
defaults_stable :
    (ns svc : String) (dont : List String) (s : Bool × List EnvVar)
    → let env = (defaults ns svc dont s).1 in
      AllSatisfied (checks ns svc dont) env × (defaults ns svc dont (false, env) ≡ (false, env))
defaults_stable ns svc dont s =
    let ps = checks ns svc dont in
    let ws = writes dont in
    let before = (run_checks ps s).1 in
    let after = run_writes ws before in
    let kept =
      run_writes-AllSatisfied ps ws before (checks-writes ns svc dont)
        (run_checks-AllSatisfied ps s (checks-AreDistinct ns svc dont)) in
    rw defaults_lem (
      kept,
      defaults_lem ns svc dont (false, after)
          ∙ ap (then_write ws) (run_checks-satisfied ps (false, after) kept)
          ∙ ap at_false (run_writes-run_writes ws before (writes-AreDistinct dont)),
    )

-- setControlPlaneDefaults is idempotent: a second call with the same arguments reports no change
-- and returns the options that the first call returned.
pub set_control_plane_defaults_idem :
    (spec : ControlPlaneDeploymentOptions) (ns svc : String) (dont : List String)
    → let spec' = (set_control_plane_defaults spec ns svc dont).1 in
      set_control_plane_defaults spec' ns svc dont ≡ (false, spec')
unfolding set_control_plane_defaults
set_control_plane_defaults_idem spec ns svc dont =
    ap (λ (r : Bool × List EnvVar). (r.0, with_env spec r.1))
      (defaults_stable ns svc dont (false, spec.env)).1

-- After setControlPlaneDefaults with no exceptions, for a namespace and a Service that have names,
-- the environment has both field references and both values that point to the Service.
pub set_control_plane_defaults_reach :
    (spec : ControlPlaneDeploymentOptions) (ns svc : String)
    → ns ≢ ""
    → svc ≢ ""
    → let env = (set_control_plane_defaults spec ns svc []).1.env in
      (env_var_source_by_name env "POD_NAMESPACE" ≡ field_source "metadata.namespace")
      × (env_var_source_by_name env "POD_NAME" ≡ field_source "metadata.name")
      × (env_value_by_name env "CONTROLLER_PUBLISH_SERVICE" ≡ controller_publish_service svc ns)
      × (env_value_by_name env "CONTROLLER_APISIX_ADMIN_URL" ≡ controller_apisix_admin_url svc ns)
unfolding set_control_plane_defaults any
set_control_plane_defaults_reach spec ns svc hn hs =
    let kept = (defaults_stable ns svc [] (false, spec.env)).0 in
    (kept.0 refl, kept.1.0 refl, kept.1.1.0 (ground arith), kept.1.1.1.0 (ground arith))
