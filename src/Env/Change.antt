-- ===== src/Env/Change.antt =====
-- `setControlPlaneEnvOnDataPlaneChange`, and its agreement with the defaults.
use apisix_operator.Prelude.{
  String, String-discrete, ◌≡◌, ◌≢◌, refl, ◌∙◌, Bool, true, false, List, [], ◌∷◌, none, arith, find,
  keep, if◌then◌else◌, ◌==◌, ◌!=◌, string_eq,
}
use apisix_operator.Api.Env.{EnvVar}
use apisix_operator.Api.Types.{ControlPlaneDeploymentOptions}
use apisix_operator.Env.{
  env_value_by_name, reject_env_by_name, set_value, clear_value, set_control_plane_defaults,
  set_control_plane_env_on_data_plane_change, dataplane_is_set, controller_publish_service,
  controller_apisix_admin_url, update_env,
}
use apisix_operator.Env.Steps.{find-put, entry, value}
use apisix_operator.Env.Defaults.{set_control_plane_defaults_reach}

find-reject :
    (n m : String) (env : List EnvVar)
    → find (λ v. v.name == n) (keep (λ v. v.name != m) env)
      ≡ (if m == n then none else find (λ v. v.name == n) env)
unfolding find keep
find-reject n m [] = ground arith
find-reject n m (v ∷ env) = ground (arith, find-reject n m env)

value-clear_value :
    (n m : String) (s : Bool × List EnvVar)
    → env_value_by_name (clear_value m s).1 n ≡ (if m == n then "" else env_value_by_name s.1 n)
unfolding env_value_by_name clear_value reject_env_by_name
value-clear_value n m (changed, env) = ground (arith, find-reject n m env)

value-set_value :
    (n m v : String) (s : Bool × List EnvVar)
    → env_value_by_name (set_value m v s).1 n ≡ (if m == n then v else env_value_by_name s.1 n)
unfolding env_value_by_name set_value update_env
value-set_value n m v (changed, env) = ground (arith, find-put n (entry m (value v)) env)

-- The value that a variable has after setControlPlaneEnvOnDataPlaneChange: the two variables that
-- point to the DataPlane's Service point there if a DataPlane is set and read as empty if none is;
-- every other variable reads as before.
pub on_change_values :
    (spec : ControlPlaneDeploymentOptions) (ns svc n : String)
    → let is_set = dataplane_is_set spec in
      env_value_by_name (set_control_plane_env_on_data_plane_change spec ns svc).1.env n ≡ (
        if "CONTROLLER_APISIX_ADMIN_URL" == n
        then (if is_set then controller_apisix_admin_url svc ns else "")
        else if "CONTROLLER_PUBLISH_SERVICE" == n
        then (if is_set then controller_publish_service svc ns else "")
        else env_value_by_name spec.env n)
unfolding set_control_plane_env_on_data_plane_change
on_change_values spec ns svc n = ground (
  arith,
  value-set_value n "CONTROLLER_APISIX_ADMIN_URL" (controller_apisix_admin_url svc ns) (
      set_value "CONTROLLER_PUBLISH_SERVICE" (controller_publish_service svc ns) (false, spec.env)),
  value-set_value n "CONTROLLER_PUBLISH_SERVICE" (controller_publish_service svc ns)
      (false, spec.env),
  value-clear_value n "CONTROLLER_APISIX_ADMIN_URL"
      (clear_value "CONTROLLER_PUBLISH_SERVICE" (false, spec.env)),
  value-clear_value n "CONTROLLER_PUBLISH_SERVICE" (false, spec.env),
)

-- Both variables read as they should.
on_change_fixed :
    (spec : ControlPlaneDeploymentOptions) (ns svc : String)
    → env_value_by_name spec.env "CONTROLLER_APISIX_ADMIN_URL"
      ≡ (if dataplane_is_set spec then controller_apisix_admin_url svc ns else "")
    → env_value_by_name spec.env "CONTROLLER_PUBLISH_SERVICE"
      ≡ (if dataplane_is_set spec then controller_publish_service svc ns else "")
    → set_control_plane_env_on_data_plane_change spec ns svc ≡ (false, spec)
unfolding set_control_plane_env_on_data_plane_change set_value clear_value
on_change_fixed spec ns svc ha hp = ground arith

-- setControlPlaneEnvOnDataPlaneChange is idempotent: a second call reports no change and returns
-- the options that the first call returned.
pub on_change_idem :
    (spec : ControlPlaneDeploymentOptions) (ns svc : String)
    → let spec' = (set_control_plane_env_on_data_plane_change spec ns svc).1 in
      set_control_plane_env_on_data_plane_change spec' ns svc ≡ (false, spec')
unfolding String-discrete
on_change_idem spec ns svc =
    on_change_fixed (set_control_plane_env_on_data_plane_change spec ns svc).1 ns svc
      (on_change_values spec ns svc "CONTROLLER_APISIX_ADMIN_URL"
        ∙ (unfold set_control_plane_env_on_data_plane_change dataplane_is_set in refl))
      (on_change_values spec ns svc "CONTROLLER_PUBLISH_SERVICE"
        ∙ (unfold set_control_plane_env_on_data_plane_change dataplane_is_set in refl))

-- For a ControlPlane whose DataPlane is set, whose namespace and whose DataPlane's Service have
-- names, the defaults leave nothing for setControlPlaneEnvOnDataPlaneChange to change.
pub on_change-defaults :
    (spec : ControlPlaneDeploymentOptions) (ns svc : String)
    → ns ≢ ""
    → svc ≢ ""
    → dataplane_is_set spec ≡ true
    → let spec' = (set_control_plane_defaults spec ns svc []).1 in
      set_control_plane_env_on_data_plane_change spec' ns svc ≡ (false, spec')
on_change-defaults spec ns svc hn hs set =
    let reach = set_control_plane_defaults_reach spec ns svc hn hs in
    let spec' = (set_control_plane_defaults spec ns svc []).1 in
    let set' : dataplane_is_set spec' ≡ true =
      (unfold set_control_plane_defaults dataplane_is_set in set) in
    on_change_fixed spec' ns svc (ground (arith, reach)) (ground (arith, reach))
