-- ===== src/Gateway.antt =====
-- internal/utils/gateway: the objects that a Gateway owns (ownerrefs.go; its functions for the
-- reconcilers are in Client/Lists.antt and in the ControlPlane reconciler), and the tests on its
-- status (status.go). A Gateway is a resource of gateway-api.
pub mod Owned
pub mod Status
use apisix_operator.Prelude.{
  String, Bool, refl, ◌&&◌, some, List, any, if◌then◌else◌, ◌==◌, string_eq,
}
use apisix_operator.Errors.{message}
use apisix_operator.Errors.Calls.{Exec, raise, pure, ◌>>=◌}
use apisix_operator.Api.Meta.{ObjectMeta, Condition, condition_true, condition_status_eq}
use apisix_operator.Api.Types.{ControlPlane, DataPlane}
use apisix_operator.Resources.Objects.{Object, control_plane_object, data_plane_object}
use apisix_operator.Resources.Generators.{
  gateway_operator_controlled_label, gateway_managed_label_value,
}
use apisix_operator.Kubernetes.Status.{resource_ready_reason}
use apisix_operator.Client.{ListOptions, Kind, Client}
use apisix_operator.Client.Lists.{list_for_owner}

-- The parts of a Gateway that the operator reads.
pub record Gateway : Type 0 where
  pub meta : ObjectMeta
  pub conditions : List Condition

-- The part of a NetworkPolicy that the operator reads.
pub record NetworkPolicy : Type 0 where
  pub meta : ObjectMeta
  pub rules : List String

instance abbrev pub network_policy_object : Object NetworkPolicy
network_policy_object = record {
  get_meta = λ a. a.meta;
  set_meta = λ m a. record a { meta = m };
  get-set = λ m a. refl;
  set-set = λ m n a. refl;
  set-get = λ a. refl;
}

-- `client.InNamespace` and `client.MatchingLabels` of the three lists.
abbrev pub gateway_options : Gateway → ListOptions
gateway_options gateway = record {
  in_namespace = some gateway.meta.namespace;
  label = gateway_operator_controlled_label;
  value = gateway_managed_label_value;
}

-- The three lists differ in the kind and in the error.
unfoldable pub list_for_gateway :
    {S A : Type 0} ⦃o : Object A⦄ → String → Kind S A → Gateway → Exec S (List A)
unfolding list_for_owner
list_for_gateway text kind gateway =
    if gateway.meta.namespace == ""
    then raise (message text)
    else list_for_owner kind (some (gateway_options gateway)) gateway.meta.uid

module _ {S : Type 0} (client : Client S) where
  unfoldable pub list_data_planes_for_gateway : Gateway → Exec S (List DataPlane)
  unfolding list_for_gateway
  list_data_planes_for_gateway =
      list_for_gateway "can't list dataplanes for gateway: gateway resource was missing namespace"
        client.data_planes

  unfoldable pub list_control_planes_for_gateway : Gateway → Exec S (List ControlPlane)
  unfolding list_for_gateway
  list_control_planes_for_gateway =
      list_for_gateway "can't list dataplanes for gateway: gateway resource was missing namespace"
        client.control_planes

unfoldable pub list_network_policies_for_gateway :
    {S : Type 0} → Kind S NetworkPolicy → Gateway → Exec S (List NetworkPolicy)
unfolding list_for_gateway
list_network_policies_for_gateway network_policies =
    list_for_gateway
      "can't list networkpolicies for gateway: gateway resource was missing namespace"
      network_policies

-- The loops of `IsScheduled` and `IsReady`, for a type and a reason.
abbrev pub says : String → String → Condition → Bool
says type reason c = c.type == type && c.reason == reason && c.status == condition_true

-- `GatewayConditionScheduled` and `GatewayReasonScheduled` are both "Scheduled".
unfoldable pub is_scheduled : Gateway → Bool
unfolding any
is_scheduled gateway = any (says "Scheduled" "Scheduled") gateway.conditions

-- `GatewayConditionReady` is "Ready".
unfoldable pub is_ready : Gateway → Bool
unfolding any
is_ready gateway = any (says "Ready" resource_ready_reason) gateway.conditions
