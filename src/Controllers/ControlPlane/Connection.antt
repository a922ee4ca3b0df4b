-- ===== src/Controllers/ControlPlane/Connection.antt =====
-- The DataPlane of a ControlPlane and its Service: internal/utils/gateway/ownerrefs.go, and the
-- parts of the ControlPlane reconciler that use it.
use apisix_operator.Prelude.{
  String, none, some, List, [], ◌∷◌, length, if◌then◌else◌, ◌==◌, string_eq, nat_eq,
}
use apisix_operator.Errors.{Result, ok, err, data_plane_not_set, message, too_many}
use apisix_operator.Errors.Calls.{Exec, pure, raise, lift, attempt, ◌>>=◌}
use apisix_operator.Api.Meta.{condition_status_eq}
use apisix_operator.Api.Types.{ControlPlane, DataPlane, control_plane_conditions}
use apisix_operator.Env.{set_control_plane_env_on_data_plane_change, dataplane_is_set}
use apisix_operator.Resources.Objects.{
  Service, deployment_object, service_account_object, cluster_role_object,
  cluster_role_binding_object,
}
use apisix_operator.Resources.Generators.{
  gateway_operator_controlled_label, data_plane_managed_label_value,
}
use apisix_operator.Client.Lists.{list_services_for_owner}
use apisix_operator.Controllers.ControlPlane.{Reconciler, with_deployment}

module _ {S P C V : Type 0} (r : Reconciler S P C V) where
  open r use {
    client, crypto, semver, set_owner_reference, cluster_ca_secret_name,
    cluster_ca_secret_namespace,
  }

  unfoldable pub ensure_data_plane_configuration : ControlPlane → String → Exec S ControlPlane
  unfolding set_control_plane_env_on_data_plane_change
  ensure_data_plane_configuration controlplane service = do
    let (changed, options) =
        set_control_plane_env_on_data_plane_change controlplane.spec.deployment
          controlplane.meta.namespace service
    (if changed
        then client.control_planes.update (with_deployment controlplane options)
        else pure controlplane)

  -- internal/utils/gateway/ownerrefs.go
  unfoldable pub get_data_plane_for_control_plane : ControlPlane → Exec S DataPlane
  unfolding dataplane_is_set
  get_data_plane_for_control_plane controlplane = elim controlplane.spec.deployment.dataplane [
    | none ↦ raise (data_plane_not_set controlplane.meta.namespace controlplane.meta.name)
    | some name ↦
        (if name == ""
          then raise (data_plane_not_set controlplane.meta.namespace controlplane.meta.name)
          else client.data_planes.get
              (record { namespace = controlplane.meta.namespace; name = name }))
  ]

  the_service : List Service → Exec S String
  the_service [] = raise (message "found 0 services for DataPlane")
  the_service (service ∷ []) = pure service.meta.name
  the_service (x ∷ y ∷ rest) = raise (too_many "services for DataPlane" (length (x ∷ y ∷ rest)))

  unfoldable pub get_dataplane_service_name : DataPlane → Exec S String
  unfolding the_service list_services_for_owner
  get_dataplane_service_name dataplane = do
    services ←
        list_services_for_owner client gateway_operator_controlled_label
          data_plane_managed_label_value dataplane.meta.namespace dataplane.meta.uid
    the_service services

  -- The part of `Reconcile` that finds the Service, after the `Get` of the DataPlane. The owner
  -- reference that is set on the DataPlane is not written back.
  service_of : ControlPlane → Result DataPlane → Exec S String
  unfolding get_dataplane_service_name
  service_of controlplane (err (data_plane_not_set namespace name)) = pure ""
  service_of controlplane (err e) = raise e
  service_of controlplane (ok dataplane) = do
    owned ← lift (set_owner_reference controlplane dataplane)
    get_dataplane_service_name owned

  unfoldable pub connected_service : ControlPlane → Exec S String
  unfolding service_of get_data_plane_for_control_plane
  connected_service controlplane = do
    got ← attempt (get_data_plane_for_control_plane controlplane)
    service_of controlplane got
