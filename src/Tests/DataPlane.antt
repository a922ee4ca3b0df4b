-- ===== src/Tests/DataPlane.antt =====
-- The theorems on the DataPlane reconciler at concrete objects.
use apisix_operator.Prelude.{
  ◌↔◌, false, String, String-discrete, ◌≡◌, ◌≢◌, refl, Bool, true, false, List, [], ◌∷◌, find,
}
use apisix_operator.Prelude.Dict
use apisix_operator.Errors.{ok}
use apisix_operator.Api.Meta.{Condition, condition_true, condition_false, ConditionStatus-discrete}
use apisix_operator.Kubernetes.Status.{find_type}
use apisix_operator.Resources.Objects.{Deployment}
use apisix_operator.Resources.Generators.{get_pod_container_by_name}
use apisix_operator.Controllers.ControlPlane.{provisioned_type}
use apisix_operator.Controllers.Deployments.{with_containers, bring_data_plane_deployment}
use apisix_operator.Controllers.Deployments.Sync.Steps.{HasEnvOf}
use apisix_operator.Controllers.DataPlane.{
  is_same_data_plane_condition, mark_not_provisioned, not_provisioned_condition,
}
use apisix_operator.Controllers.DataPlane.Conditions.{
  SaysOnly, has_provisioned, mark_not_provisioned_converges,
}
use apisix_operator.Controllers.DataPlane.Synced.{bring_data_plane_deployment_converges}
use apisix_operator.Tests.Data.{condition, no_options, a_data_plane}
use apisix_operator.Tests.Server.{a_container, a_deployment}

abbrev at_time : String → Condition
at_time text = not_provisioned_condition (a_data_plane no_options) "ValidationFailed" text 7

abbrev before : List Condition
before = condition "Ready" condition_false ∷ condition provisioned_type condition_true ∷ []

mark_not_provisioned_converges_example :
    let marked = (mark_not_provisioned (at_time "bad") before).1 in
    (has_provisioned marked ≡ true)
    × SaysOnly (at_time "bad") marked
    × ((t : String) → t ≢ provisioned_type → find_type t marked ≡ find_type t before)
    × (mark_not_provisioned (record (at_time "bad") { last_transition_time = 9 }) marked
        ≡ (false, marked))
unfolding is_same_data_plane_condition ConditionStatus-discrete String-discrete
mark_not_provisioned_converges_example =
    mark_not_provisioned_converges (at_time "bad")
      (record (at_time "bad") { last_transition_time = 9 }) before refl refl

abbrev proxy_deployment : Deployment
proxy_deployment = with_containers a_deployment (record a_container { name = "proxy" } ∷ [])

bring_data_plane_deployment_converges_example :
    (updated : Bool) × (d : Deployment) × (bring_data_plane_deployment no_options proxy_deployment
        proxy_deployment
      ≡ ok (updated, d))
    × ((updated ≡ false) ↔ (d ≡ proxy_deployment))
    × HasEnvOf no_options "proxy" d
    × (bring_data_plane_deployment no_options d proxy_deployment ≡ ok (false, d))
unfolding get_pod_container_by_name find String-discrete Dict.lookup
bring_data_plane_deployment_converges_example =
    bring_data_plane_deployment_converges no_options proxy_deployment proxy_deployment
      {g = record a_container { name = "proxy" }} refl (refl, tt) refl
