-- ===== src/Controllers/ControlPlane/Ensure.antt =====
-- The objects a ControlPlane owns: the `ensure` functions of
-- controllers/controlplane_controller_reconciler_utils.go.
use apisix_operator.Prelude.{String, Bool, some, [], ◌∷◌, if◌then◌else◌, ◌<>◌, string_eq, nat_eq}
use apisix_operator.Errors.{Result, ok, err}
use apisix_operator.Errors.Calls.{Exec, ◌>>=◌}
use apisix_operator.Api.Meta.{condition_status_eq}
use apisix_operator.Api.Types.{ControlPlane, control_plane_conditions}
use apisix_operator.Env.{dataplane_is_set}
use apisix_operator.Resources.Objects.{
  Deployment, ServiceAccount, ClusterRole, ClusterRoleBinding, Secret, deployment_object,
  service_account_object, cluster_role_object, cluster_role_binding_object,
}
use apisix_operator.Resources.Generators.{
  gateway_operator_controlled_label, control_plane_managed_label_value,
  generate_new_service_account_for_control_plane,
  generate_new_cluster_role_binding_for_control_plane,
}
use apisix_operator.Resources.Generators.Workloads.{generate_new_deployment_for_control_plane}
use apisix_operator.Resources.Roles.Choice.{generate_new_cluster_role_for_control_plane}
use apisix_operator.Client.Lists.{
  list_deployments_for_owner, list_service_accounts_for_owner, list_cluster_roles_for_owner,
  list_cluster_role_bindings_for_owner,
}
use apisix_operator.Controllers.Owned.{mark_for_control_plane, refresh, ensure_one, delete_all}
use apisix_operator.Controllers.Certificates.{control_plane, maybe_create_certificate_secret}
use apisix_operator.Controllers.Deployments.{bring_control_plane_deployment, with_replicas}
use apisix_operator.Controllers.ControlPlane.{Reconciler}

module _ {S P C V : Type 0} (r : Reconciler S P C V) where
  open r use {
    client, crypto, semver, set_owner_reference, cluster_ca_secret_name,
    cluster_ca_secret_namespace,
  }

  unfoldable pub ensure_service_account_for_control_plane :
      ControlPlane → Exec S (Bool × ServiceAccount)
  unfolding list_service_accounts_for_owner ensure_one refresh mark_for_control_plane
      generate_new_service_account_for_control_plane
  ensure_service_account_for_control_plane controlplane = do
    let m = controlplane.meta
    found ←
        list_service_accounts_for_owner client gateway_operator_controlled_label
          control_plane_managed_label_value m.namespace m.uid
    ensure_one client.service_accounts "serviceAccounts for ControlPlane"
        (ok (
          mark_for_control_plane controlplane.type_meta m
            (generate_new_service_account_for_control_plane m.namespace m.name)))
        refresh (λ generated. generated) found

  -- The generated ClusterRole, marked.
  marked_cluster_role : ControlPlane → Result ClusterRole → Result ClusterRole
  unfolding mark_for_control_plane
  marked_cluster_role controlplane (ok role) =
      ok (mark_for_control_plane controlplane.type_meta controlplane.meta role)
  marked_cluster_role controlplane (err e) = err e

  unfoldable pub ensure_cluster_role_for_control_plane : ControlPlane → Exec S (Bool × ClusterRole)
  unfolding list_cluster_roles_for_owner ensure_one refresh marked_cluster_role
      generate_new_cluster_role_for_control_plane
  ensure_cluster_role_for_control_plane controlplane = do
    let m = controlplane.meta
    found ←
        list_cluster_roles_for_owner client gateway_operator_controlled_label
          control_plane_managed_label_value m.uid
    ensure_one client.cluster_roles "deployments for ControlPlane"
        (marked_cluster_role controlplane (
          generate_new_cluster_role_for_control_plane semver m.name
            controlplane.spec.deployment.container_image))
        refresh (λ generated. generated) found

  unfoldable pub ensure_cluster_role_binding_for_control_plane :
      ControlPlane → String → String → Exec S (Bool × ClusterRoleBinding)
  unfolding list_cluster_role_bindings_for_owner ensure_one refresh mark_for_control_plane
      generate_new_cluster_role_binding_for_control_plane
  ensure_cluster_role_binding_for_control_plane controlplane service_account_name
        cluster_role_name =
      do
        let m = controlplane.meta
        found ←
            list_cluster_role_bindings_for_owner client gateway_operator_controlled_label
              control_plane_managed_label_value m.uid
        ensure_one client.cluster_role_bindings "deployments for ControlPlane"
            (ok (
              mark_for_control_plane controlplane.type_meta m (
                generate_new_cluster_role_binding_for_control_plane m.namespace m.name
                  service_account_name cluster_role_name)))
            refresh (λ generated. generated) found

  unfoldable pub ensure_certificate : ControlPlane → Exec S (Bool × Secret)
  unfolding maybe_create_certificate_secret
  ensure_certificate controlplane =
      maybe_create_certificate_secret client crypto (control_plane controlplane)
        (controlplane.meta.name <> "." <> controlplane.meta.namespace) cluster_ca_secret_name
        cluster_ca_secret_namespace ("key encipherment" ∷ "digital signature" ∷ "client auth" ∷ [])

  unfoldable pub ensure_deployment_for_control_plane :
      ControlPlane → String → String → Exec S (Bool × Deployment)
  unfolding list_deployments_for_owner ensure_one bring_control_plane_deployment
      mark_for_control_plane generate_new_deployment_for_control_plane dataplane_is_set
  ensure_deployment_for_control_plane controlplane service_account_name cert_secret_name = do
    let m = controlplane.meta
    let is_set = dataplane_is_set controlplane.spec.deployment
    found ←
        list_deployments_for_owner client gateway_operator_controlled_label
          control_plane_managed_label_value m.namespace m.uid
    ensure_one client.deployments "deployments for ControlPlane"
        (ok (
          mark_for_control_plane controlplane.type_meta m (
            generate_new_deployment_for_control_plane controlplane service_account_name
              cert_secret_name)))
        (bring_control_plane_deployment is_set controlplane.spec.deployment.deployment_options)
        (λ generated. if is_set then generated else with_replicas generated (some 0)) found

  unfoldable pub ensure_owned_cluster_roles_deleted : ControlPlane → Exec S (Unit {0})
  unfolding list_cluster_roles_for_owner delete_all
  ensure_owned_cluster_roles_deleted controlplane = do
    found ←
        list_cluster_roles_for_owner client gateway_operator_controlled_label
          control_plane_managed_label_value controlplane.meta.uid
    delete_all client.cluster_roles found

  unfoldable pub ensure_owned_cluster_role_bindings_deleted : ControlPlane → Exec S (Unit {0})
  unfolding list_cluster_role_bindings_for_owner delete_all
  ensure_owned_cluster_role_bindings_deleted controlplane = do
    found ←
        list_cluster_role_bindings_for_owner client gateway_operator_controlled_label
          control_plane_managed_label_value controlplane.meta.uid
    delete_all client.cluster_role_bindings found
