-- ===== src/Client/Lists.antt =====
-- internal/utils/kubernetes/lists.go, and the lists of internal/utils/gateway/ownerrefs.go.
use apisix_operator.Prelude.{String, Option, none, some, List, keep}
use apisix_operator.Errors.Calls.{Exec, pure, ◌>>=◌}
use apisix_operator.Kubernetes.Metadata.{is_owned_by_ref_uid}
use apisix_operator.Resources.Objects.{
  Object, Deployment, Service, ServiceAccount, ClusterRole, ClusterRoleBinding, Secret,
  deployment_object, service_object, service_account_object, cluster_role_object,
  cluster_role_binding_object, secret_object,
}
use apisix_operator.Client.{ListOptions, Kind, Client}

-- The loop over the listed items: those that have an owner reference with the UID.
unfoldable pub owned_by {ℓ} : {A : Type ℓ} ⦃o : Object A⦄ → String → List A → List A
unfolding keep is_owned_by_ref_uid
owned_by ⦃o⦄ uid = keep (λ a. is_owned_by_ref_uid (o.get_meta a) uid)

module _ {S : Type 0} {A : Type 0} ⦃o : Object A⦄ where
  unfoldable pub list_for_owner : Kind S A → Option ListOptions → String → Exec S (List A)
  unfolding owned_by
  list_for_owner kind options uid = do items ← kind.list options; pure (owned_by uid items)

module _ {S : Type 0} (c : Client S) (required_label required_value : String) where
  unfoldable pub list_deployments_for_owner : String → String → Exec S (List Deployment)
  unfolding list_for_owner
  list_deployments_for_owner namespace = list_for_owner c.deployments (
      some
        (record { in_namespace = some namespace; label = required_label; value = required_value }))

  unfoldable pub list_services_for_owner : String → String → Exec S (List Service)
  unfolding list_for_owner
  list_services_for_owner namespace = list_for_owner c.services (
      some
        (record { in_namespace = some namespace; label = required_label; value = required_value }))

  unfoldable pub list_service_accounts_for_owner : String → String → Exec S (List ServiceAccount)
  unfolding list_for_owner
  list_service_accounts_for_owner namespace = list_for_owner c.service_accounts (
      some
        (record { in_namespace = some namespace; label = required_label; value = required_value }))

  unfoldable pub list_cluster_roles_for_owner : String → Exec S (List ClusterRole)
  unfolding list_for_owner
  list_cluster_roles_for_owner =
      list_for_owner c.cluster_roles
        (some (record { in_namespace = none; label = required_label; value = required_value }))

  unfoldable pub list_cluster_role_bindings_for_owner : String → Exec S (List ClusterRoleBinding)
  unfolding list_for_owner
  list_cluster_role_bindings_for_owner =
      list_for_owner c.cluster_role_bindings
        (some (record { in_namespace = none; label = required_label; value = required_value }))

  unfoldable pub list_secrets_for_owner : String → Exec S (List Secret)
  unfolding list_for_owner
  list_secrets_for_owner =
      list_for_owner c.secrets
        (some (record { in_namespace = none; label = required_label; value = required_value }))
